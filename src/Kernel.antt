-- ===== src/Kernel.antt =====
-- The state of the kernel, and the file operations of kernel/kernio.c on it.
pub mod Io
pub mod Frame
use rml.Base.{
  ℕ, zero, suc, ◌+◌, ◌-◌, u32, ℤ, pos, negsuc, Bool, true, false, ◌||◌, List, [], ◌∷◌, ◌++◌, fetch,
  modify, ◌==◌, if◌then◌else◌, Outcome, ok, stop, bounds, blocked, no_fuel, ◌>>=◌, codes,
}
use rml.Mm.{Segs}
use rml.Block.{Bios, read_drive}
use rml.Files.{FileDescriptor, SectionPositions, open_in, close_in, lseek_in}
use rml.Fs.Layout.{Fat16BootSector}
use rml.Sched.{ProcessDesc, Processes}
use rml.Console.{Console, printk, write, line}

-- What the code does not determine: the BIOS call for a sector, and the indeterminate values that
-- it uses: the stack bytes under `sector_buf`, and `bytes_read` where no branch of `read` sets it.
pub record Machine : Type 0 where
  pub bios : Bios
  pub stale_sector : List ℕ
  pub stale_count : ℕ

pub record Kernel : Type 0 where
  pub fd_list : List FileDescriptor
  pub processes : Processes
  pub segs : Segs
  pub s_pos : SectionPositions
  pub bs : Fat16BootSector
  pub ram : ℕ → ℕ
  pub console : Console
  pub keys : List ℕ

abbrev pub with_files : List FileDescriptor → ProcessDesc → ProcessDesc
with_files t d = record d { files_table = t }

-- `curr_fd_list`: the kernel's table for pid 0, else that of the process.
unfoldable pub on_table :
    {A : Type 0}
    → ℕ
    → (List FileDescriptor → Outcome (A × List FileDescriptor))
    → Kernel
    → Outcome (A × Kernel)
on_table zero f k = do (r, t) ← f k.fd_list; ok (r, record k { fd_list = t })
on_table (suc i) f k = do
  d ← fetch k.processes.table i
  (r, t) ← f d.files_table
  table ← modify k.processes.table i (with_files t)
  ok (r, record k { processes = record k.processes { table = table } })

unfoldable pub open_file : List ℕ → ℕ → Kernel → Outcome (ℤ × Kernel)
unfolding on_table
open_file pathname pid k = on_table pid (open_in k.s_pos pathname) k

unfoldable pub close : ℕ → ℕ → Kernel → Outcome (ℕ × Kernel)
unfolding on_table
close fd pid k = on_table pid (λ t. do t' ← close_in fd t; ok (0, t')) k

unfoldable pub lseek : ℕ → ℕ → ℕ → Kernel → Outcome (ℕ × Kernel)
unfolding on_table
lseek fd offset pid k = on_table pid (λ t. do t' ← lseek_in fd offset t; ok (offset, t')) k

-- A `pfd` as an index.
unfoldable pub index : ℤ → Outcome ℕ
index (pos n) = ok n
index (negsuc n) = stop bounds

abbrev pub has_parent : ℤ → Bool
has_parent (negsuc zero) = false
has_parent _ = true

-- `printk("error reading sectors!\r\n")`, once for each failed read.
unfoldable pub print_errors : ℕ → Console → Outcome Console
print_errors zero con = ok con
print_errors (suc n) con = do
  con' ← printk (line (codes "error reading sectors!")) con
  print_errors n con'

-- `count` keys into the buffer.
unfoldable pub read_keys : ℕ → List ℕ → List ℕ → Outcome (List ℕ × List ℕ)
read_keys zero keys dst = ok (keys, dst)
read_keys (suc count) keys [] = stop bounds
read_keys (suc count) [] (d ∷ dst) = stop blocked
read_keys (suc count) (c ∷ keys) (d ∷ dst) = do
  (keys', rest) ← read_keys count keys dst
  ok (keys', c ∷ rest)

-- What `read` returns: `bytes_read`, the buffer and the kernel.
abbrev pub ReadResult : Type 0
ReadResult = ℕ × List ℕ × Kernel

abbrev pub advanced : ℕ → FileDescriptor → FileDescriptor
advanced n d = record d { at = u32 (d.at + n) }

module _ (m : Machine) where
  -- The branches of `read` for a descriptor without one below.
  unfoldable pub read_device : ℕ → FileDescriptor → List ℕ → ℕ → Kernel → Outcome ReadResult
  unfolding print_errors read_keys
  read_device fd d buf count k =
      if fd == 3 || fd == 4
      then (do
        (buf', errors) ← read_drive m.bios (if fd == 3 then 0 else 1) d.at count m.stale_sector buf
        con ← print_errors errors k.console
        ok (count, buf', record k { console = con }))
      else if fd == 0
      then (do (keys, buf') ← read_keys count k.keys buf; ok (0, buf', record k { keys = keys }))
      else ok (m.stale_count, buf, k)

  -- `read`, with fuel for its call of itself on the descriptor below. All but the seek below goes by
  -- the kernel's table, whatever the pid.
  unfoldable pub read : ℕ → ℕ → List ℕ → ℕ → ℕ → Kernel → Outcome ReadResult
  unfolding read_device lseek index
  read zero fd buf count pid k = stop no_fuel
  read (suc fuel) fd buf count pid k = do
    d ← fetch k.fd_list fd
    let below = (do
      under ← index d.pfd
      (_, k') ← lseek under (u32 (d.pfd_offset + d.at)) pid k
      read fuel under buf count 0 k')
    (bytes_read, buf', k') ← (if has_parent d.pfd then below else read_device fd d buf count k)
    t ← modify k'.fd_list fd (advanced bytes_read)
    ok (bytes_read, buf', record k' { fd_list = t })
