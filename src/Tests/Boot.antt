-- ===== src/Tests/Boot.antt =====
-- The theorem on `mount` at a floppy with a boot sector.
use rml.Base.{
  ℕ, ◌+◌, ◌-◌, ◌*◌, ◌%◌, ◌≤◌, pos, false, List, [], ◌∷◌, ◌++◌, length, length-replicate, replicate,
  ◌==◌, if◌then◌else◌, Bool-cases, inl, inr, ok, literal, ◌≡◌, refl, arith,
}
use rml.Clib.Text.Scan.{text_of, has_nul}
use rml.Block.Transfer.{Serves}
use rml.Files.{FileDescriptor, SectionPositions}
use rml.Kernel.{Kernel, Machine}
use rml.Kernel.Io.{CanRead}
use rml.Fs.Layout.{boot_sector_of}
use rml.Fs.Volume.{sections_of}
use rml.Fs.Mount.{mount, IsMounted, mount_lem}

-- 512 bytes to a sector, one reserved, two tables of one sector, 16 root entries.
abbrev pub boot_bytes : List ℕ
boot_bytes =
    replicate 11 0 ++ 0 ∷ 2 ∷ 1 ∷ 1 ∷ 0 ∷ 2 ∷ 16 ∷ 0 ∷ 64 ∷ 11 ∷ 0xf0 ∷ 1 ∷ 0 ∷ replicate 488 0

abbrev pub disk : ℕ → List ℕ
disk lba = if lba == 0 then boot_bytes else replicate 512 (lba % 256)

abbrev pub machine : Machine
machine = record {
  bios = λ drive c h s buf. (false, disk ((c * 2 + h) * 18 + (s - 1)));
  stale_sector = [];
  stale_count = 0;
}

disk_size : (lba : ℕ) → length (disk lba) ≡ 512
disk_size lba = elim (Bool-cases (lba == 0)) [
  | inl e ↦ rw e
  | inr e ↦ rw e (length-replicate {A = ℕ} 512 (lba % 256))
]

pub served : Serves machine.bios 1 disk
served = record { size = disk_size; reads = λ c h s buf p q r t. refl }

abbrev pub found : SectionPositions
found = record { fat_section_start = 512; data_section_start = 2048; root_directory_start = 1536 }

abbrev empty : SectionPositions
empty = record { fat_section_start = 0; data_section_start = 0; root_directory_start = 0 }

abbrev pub closed : FileDescriptor
closed = record { pathname = []; at = 0; size = 0; pfd = pos 0; pfd_offset = 0 }

abbrev pub started : Kernel
started = record {
  fd_list = replicate 6 closed;
  processes = record { table = []; current = 0 };
  segs = [];
  s_pos = empty;
  bs = boot_sector_of [];
  ram = λ p. 0;
  console = record { screen = []; digits = replicate 7 0 };
  keys = [];
}

pub placed : sections_of (boot_sector_of (disk 0)) ≡ ok found
unfolding sections_of boot_sector_of
placed = refl

pub reads_table :
    CanRead found.fat_section_start
      ((boot_sector_of (disk 0)).number_of_fats * (boot_sector_of (disk 0)).fat_size_sectors)
unfolding boot_sector_of
reads_table = record {
  track = omega arith;
  in_step = inl (omega arith);
  on_disk = omega arith;
  some_bytes = omega arith;
}

pub table_fits :
    (boot_sector_of (disk 0)).number_of_fats * (boot_sector_of (disk 0)).fat_size_sectors
    ≤ length (replicate {A = ℕ} 1024 0)
unfolding boot_sector_of
table_fits = omega (arith, length-replicate {A = ℕ} 1024 0)

mount_lem_example :
    (k' : Kernel) × (mount machine (literal "/dev/fdb") (replicate 1024 0) started ≡ ok (0, k'))
    × IsMounted (boot_sector_of boot_bytes) found k'
    × (k' ≡ record started { fd_list = k'.fd_list; bs = k'.bs; s_pos = k'.s_pos })
unfolding has_nul text_of
mount_lem_example =
    mount_lem machine served (literal "/dev/fdb") (replicate 1024 0) found started refl refl refl
      placed reads_table table_fits
