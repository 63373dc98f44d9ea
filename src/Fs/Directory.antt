-- ===== src/Fs/Directory.antt =====
-- Walking the root directory through descriptor 5 (fs/msdos/fs.c).
pub mod Walk
pub mod Print
pub mod Whole
pub mod Describes
pub mod Listing
pub mod Sizes
use rml.Base.{
  option_elim, ℕ, zero, suc, ◌+◌, ◌*◌, ◌/◌, u32, List, [], replicate, fetch, modify, ◌==◌, leb,
  Option, none, some, not, ◌||◌, if◌then◌else◌, Outcome, ok, stop, no_fuel, ◌>>=◌, codes, literal,
}
use rml.Console.{Console, printk, print_uint, line}
use rml.Kernel.{Kernel, Machine, read, lseek}
use rml.Fs.Layout.{Fat16Entry, entry_of_bytes}
use rml.Fs.Entry.{
  SyscallFileEntry, get_entry_type, is_file, first_byte, extract_file_name, listing_of,
}
use rml.Fs.Volume.{depth}

-- `read(5, &file, sizeof(Fat16Entry), 0)`
unfoldable pub read_entry : Machine → Kernel → Outcome (Fat16Entry × Kernel)
read_entry m k = do
  (_, bytes, k') ← read m depth 5 (replicate 32 0) 32 0 k
  ok (entry_of_bytes bytes, k')

-- What the loop of `get_root_files` prints for entry `i`.
unfoldable pub print_entry : ℕ → Console → Outcome Console
print_entry i con = do
  c1 ← printk (literal "reading entry number ") con
  c2 ← print_uint i c1
  c3 ← printk (line []) c2
  if i == 223 then printk (line (codes "entry 223")) c3 else ok c3

-- The loop of `get_root_files` from entry `i` on, with `n` left.
unfoldable pub root_files_from :
    Machine → ℕ → ℕ → List Fat16Entry → Kernel → Outcome (List Fat16Entry × Kernel)
unfolding read_entry print_entry
root_files_from m zero i files k = ok (files, k)
root_files_from m (suc n) i files k = do
  con ← print_entry i k.console
  (e, k1) ← read_entry m (record k { console = con })
  files' ← modify files i (λ _. e)
  root_files_from m n (i + 1) files' k1

-- What `get_root_files` prints before its loop.
unfoldable pub print_heading : ℕ → Console → Outcome Console
print_heading n con = do
  c1 ← printk (line (codes "reading root directory")) con
  c2 ← printk (literal "root directory entries:") c1
  c3 ← print_uint n c2
  printk (line []) c3

unfoldable pub get_root_files :
    Machine → List Fat16Entry → Kernel → Outcome (List Fat16Entry × Kernel)
unfolding root_files_from print_heading
get_root_files m files k = do
  (_, k1) ← lseek 5 0 0 k
  con ← print_heading k.bs.root_dir_entries k1.console
  root_files_from m k.bs.root_dir_entries 0 files (record k1 { console = con })

-- None stands for the result -1.
unfoldable pub get_root_next_file : Machine → Kernel → Outcome (Option Fat16Entry × Kernel)
unfolding read_entry
get_root_next_file m k = do
  d ← fetch k.fd_list 5
  if leb (u32 (d.at + 32)) (k.bs.root_dir_entries * 32)
      then (do (e, k') ← read_entry m k; ok (some e, k'))
      else ok (none, k)

-- The loop of `list_root_files`: the entries left to fill, those filled and the buffer.
unfoldable pub list_from :
    Machine
    → ℕ
    → ℕ
    → ℕ
    → List SyscallFileEntry
    → Kernel
    → Outcome (ℕ × List SyscallFileEntry × Kernel)
unfolding get_root_next_file
list_from m zero left files_read buf k = stop no_fuel
list_from m (suc fuel) zero files_read buf k = ok (files_read, buf, k)
list_from m (suc fuel) (suc left) files_read buf k = do
  (found, k1) ← get_root_next_file m k
  option_elim found (ok (files_read, buf, k1)) λ e.
      if not (is_file (get_entry_type e)) || first_byte e == 0xe5
      then list_from m fuel (suc left) files_read buf k1
      else if first_byte e == 0x00
      then ok (files_read, buf, k1)
      else (do
        (name, ext) ← extract_file_name (suc fuel) e
        old ← fetch buf files_read
        stored ← listing_of e name ext old
        buf' ← modify buf files_read (λ _. stored)
        list_from m fuel left (files_read + 1) buf' k1)

-- `sizeof(SYSCALL_FILE_ENTRY)` is 28.
unfoldable pub list_root_files :
    Machine → ℕ → ℕ → List SyscallFileEntry → Kernel → Outcome (ℕ × List SyscallFileEntry × Kernel)
unfolding list_from
list_root_files m fuel buf_size buf k = list_from m fuel (buf_size / 28) 0 buf k
