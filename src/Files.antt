-- ===== src/Files.antt =====
-- The file descriptors of include/linux/kernio.h, and what `open`, `close` and `lseek` of
-- kernel/kernio.c do to the table they choose.
pub mod Laws
use rml.Base.{
  ℕ, zero, suc, ◌+◌, ◌-◌, ◌%◌, ◌^◌, u32, ℤ, pos, negsuc, Bool, true, false, List, set, modify,
  if◌then◌else◌, Outcome, ok, ◌>>=◌, literal,
}
use rml.Clib.Text.{strcmp}

-- `FileDescriptor`. A `pfd` of -1 is a device of its own, another one is the descriptor below.
pub record FileDescriptor : Type 0 where
  pub pathname : List ℕ
  pub at : ℕ
  pub size : ℕ
  pub pfd : ℤ
  pub pfd_offset : ℕ

-- `sectionPositions` of include/fs/fs.h
pub record SectionPositions : Type 0 where
  pub fat_section_start : ℕ
  pub data_section_start : ℕ
  pub root_directory_start : ℕ

-- The length that `fd_list` and each `files_table` are declared with. Descriptor 5 lies behind it:
-- the tables here have one more element, the memory that the code uses as descriptor 5.
abbrev pub num_files : ℕ
num_files = 5

abbrev pub minus_one : ℤ
minus_one = negsuc 0

abbrev pub is_zero : ℤ → Bool
is_zero (pos zero) = true
is_zero _ = false

-- `get_root_size` and `get_root_offset` of fs/msdos/fs.c
unfoldable pub get_root_size : SectionPositions → ℕ
get_root_size s = u32 (s.data_section_start + 2 ^ 32 - s.root_directory_start)

unfoldable pub get_root_offset : SectionPositions → ℕ
get_root_offset s = s.root_directory_start

-- What each branch of `open` stores.
abbrev pub open_drive_entry : FileDescriptor → FileDescriptor
open_drive_entry d = record d { at = 0; pfd = minus_one; size = 65535 }

abbrev pub open_char_entry : FileDescriptor → FileDescriptor
open_char_entry d = record d { at = 0; size = 0; pfd = minus_one; pfd_offset = 0 }

abbrev pub open_root_entry : SectionPositions → FileDescriptor → FileDescriptor
open_root_entry s d = record d {
  at = 0;
  size = get_root_size s;
  pfd = pos 4;
  pfd_offset = get_root_offset s;
}

-- `open` on the table that it chose: the descriptor, or -1, and the table.
unfoldable pub open_in :
    SectionPositions → List ℕ → List FileDescriptor → Outcome (ℤ × List FileDescriptor)
open_in s pathname table = do
  fda ← strcmp pathname (literal "/dev/fda")
  if is_zero fda then (do t ← modify table 3 open_drive_entry; ok (pos 3, t)) else do
    stdin ← strcmp pathname (literal "/dev/stdin")
    if is_zero stdin then (do t ← modify table 0 open_char_entry; ok (pos 0, t)) else do
      stdout ← strcmp pathname (literal "/dev/stdout")
      if is_zero stdout then (do t ← modify table 1 open_char_entry; ok (pos 1, t)) else do
        fdb ← strcmp pathname (literal "/dev/fdb")
        if is_zero fdb then (do t ← modify table 4 open_drive_entry; ok (pos 4, t)) else do
          root ← strcmp pathname (literal "/")
          if is_zero root
              then (do t ← modify table 5 (open_root_entry s); ok (pos 5, t))
              else ok (minus_one, table)

unfoldable pub close_in : ℕ → List FileDescriptor → Outcome (List FileDescriptor)
close_in fd table =
    modify table fd
      λ d. record { pathname = set d.pathname 0 0; pfd = pos 0; pfd_offset = 0; at = 0; size = 0 }

unfoldable pub lseek_in : ℕ → ℕ → List FileDescriptor → Outcome (List FileDescriptor)
lseek_in fd offset table = modify table fd (λ d. record d { at = offset })
