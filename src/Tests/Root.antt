-- ===== src/Tests/Root.antt =====
-- The theorems on the root directory at a floppy with one file among two entries.
use rml.Base.{
  ℕ, ◌+◌, ◌-◌, ◌*◌, ◌%◌, pos, false, List, [], ◌∷◌, ◌++◌, All, length, length-replicate, Bool-cases,
  inl, inr, replicate, codes, ◌==◌, if◌then◌else◌, ok, ◌≡◌, refl, arith,
}
use rml.Block.{sectors_for}
use rml.Block.Transfer.{Serves, image}
use rml.Files.{FileDescriptor, minus_one}
use rml.Kernel.{Kernel, Machine}
use rml.Console.Numbers.{IsReady, Extends}
use rml.Fs.Layout.{Fat16Entry, entry_of_bytes}
use rml.Fs.Entry.{SyscallFileEntry, get_entry_type, is_file}
use rml.Fs.Entry.Names.{HasName, up_to_space}
use rml.Fs.Directory.{get_root_files}
use rml.Fs.Directory.Walk.{IsPlaced, RootAt, dir_entry, dir_entries}
use rml.Fs.Directory.Whole.{get_root_files_lem}
use rml.Fs.Directory.Describes.{IsNamed, only_files}
use rml.Fs.Directory.Print.{printed, file_texts, list_files, list_files_lem}
use rml.Tests.Disk.{kernel, boot}

-- SHELL, 4096 bytes in cluster 2, and an entry that was never used.
abbrev pub root_sector : List ℕ
root_sector =
    codes "SHELL   BIN" ++ 0x20 ∷ replicate 14 0 ++ 2 ∷ 0 ∷ 0 ∷ 16 ∷ 0 ∷ 0 ∷ replicate 480 0

abbrev pub table_of_one : List ℕ
table_of_one = 0xf0 ∷ 0xff ∷ 0xff ∷ 0xff ∷ 0x0f ∷ replicate 507 0

abbrev pub root_disk : ℕ → List ℕ
root_disk lba =
    if lba == 1 then table_of_one else if lba == 3 then root_sector else replicate 512 (lba % 256)

abbrev pub root_machine : Machine
root_machine = record {
  bios = λ drive c h s buf. (false, root_disk ((c * 2 + h) * 18 + (s - 1)));
  stale_sector = [];
  stale_count = 0;
}

root_size : (lba : ℕ) → length (root_disk lba) ≡ 512
root_size lba = elim (Bool-cases (lba == 1)) [
  | inl e ↦ rw e
  | inr e ↦ elim (Bool-cases (lba == 3)) [
    | inl f ↦ rw (e, f)
    | inr f ↦ rw (e, f) (length-replicate {A = ℕ} 512 (lba % 256))
  ]
]

pub root_served : Serves root_machine.bios 1 root_disk
root_served = record { size = root_size; reads = λ c h s buf p q r t. refl }

abbrev pub plain_entry : FileDescriptor
plain_entry = record { pathname = []; at = 0; size = 0; pfd = minus_one; pfd_offset = 0 }

abbrev pub root_entry : FileDescriptor
root_entry = record { pathname = []; at = 0; size = 64; pfd = pos 4; pfd_offset = 1536 }

abbrev pub root_kernel : Kernel
root_kernel = record kernel {
  fd_list = plain_entry ∷ plain_entry ∷ plain_entry ∷ plain_entry ∷ plain_entry ∷ root_entry ∷ [];
  bs = record boot { root_dir_entries = 2; sectors_per_cluster = 8 };
  console = record { screen = []; digits = replicate 7 0 };
}

pub root-IsPlaced : IsPlaced 1536 2
root-IsPlaced = record {
  aligned = omega arith;
  on_disk = omega arith;
  tracks = λ i h. omega (arith, h);
}

pub root_start : RootAt 1536 0 root_kernel
root_start = record {
  root = root_entry;
  found = refl;
  below = refl;
  offset = refl;
  position = refl;
  drive = (plain_entry, refl, refl);
}

pub root-IsReady : IsReady root_kernel.console
root-IsReady = record { size = refl; last = refl }

abbrev pub shell_entry : Fat16Entry
shell_entry = record {
  filename = codes "SHELL   ";
  ext = codes "BIN";
  attributes = 0x20;
  reserved = replicate 10 0;
  modify_time = 0;
  modify_date = 0;
  starting_cluster = 2;
  file_size = 4096;
}

pub first_is_shell : dir_entry root_disk 1536 0 ≡ shell_entry
unfolding image sectors_for entry_of_bytes
first_is_shell = refl

pub second_unused : is_file (get_entry_type (dir_entry root_disk 1536 1)) ≡ false
unfolding image sectors_for entry_of_bytes get_entry_type
second_unused = refl

pub shell_named : HasName shell_entry
shell_named = record {
  name_size = refl;
  ext_size = refl;
  name_chars = ground arith;
  ext_chars = ground arith;
}

pub root-IsNamed : All IsNamed (dir_entries root_disk 1536 0 2)
unfolding dir_entries
root-IsNamed = ((λ e. rw first_is_shell shell_named), ((λ e. cc (e, second_unused)), tt))

get_root_files_lem_example :
    (k' : Kernel) × (get_root_files root_machine (replicate 3 shell_entry) root_kernel
      ≡ ok (shell_entry ∷ dir_entry root_disk 1536 1 ∷ shell_entry ∷ [], k'))
    × RootAt 1536 64 k'
    × Extends root_kernel.console k'.console
    × (k' ≡ record root_kernel { fd_list = k'.fd_list; console = k'.console })
unfolding image sectors_for entry_of_bytes dir_entries
get_root_files_lem_example =
    get_root_files_lem root_machine root_served 1536 0 (replicate 3 shell_entry) root_kernel
      root-IsPlaced (omega arith) (omega arith) root_start root-IsReady

abbrev blank : SyscallFileEntry
blank = record {
  name = replicate 9 7;
  ext = replicate 4 7;
  dir = 7;
  read_only = 7;
  size = 7;
  day = 7;
  month = 7;
  year = 7;
  seconds = 7;
  minutes = 7;
  hours = 7;
}

list_files_lem_example :
    list_files 1 1 (shell_entry ∷ []) root_kernel.console
    ≡ ok (printed root_kernel.console (codes "SHELL.BIN   " ++ 13 ∷ 10 ∷ []))
unfolding file_texts only_files up_to_space get_entry_type
list_files_lem_example =
    list_files_lem 0 1 (shell_entry ∷ []) root_kernel.console (omega arith) ((λ e. shell_named), tt)
