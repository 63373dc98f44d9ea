-- ===== src/Fs/Volume/Sections.antt =====
-- The sections of a volume that `read_boot_sector` of fs/msdos/fs.c computes.
use native.Mathlib.Nat.{div-add-mod}
use rml.Base.{ℕ, ◌+◌, ◌*◌, ◌/◌, ◌%◌, ◌^◌, ◌<◌, ok, stop, div_zero, ◌≡◌, ◌≢◌, arith}
use rml.Fs.Layout.{Fat16BootSector}
use rml.Fs.Volume.{sections_of}

-- The bytes in front of the data: the reserved sectors, the tables and the root directory.
abbrev pub reserved_bytes : Fat16BootSector → ℕ
reserved_bytes bs = bs.sector_size * bs.reserved_sectors

abbrev pub table_bytes : Fat16BootSector → ℕ
table_bytes bs = bs.sector_size * bs.fat_size_sectors * bs.number_of_fats

abbrev pub root_bytes : Fat16BootSector → ℕ
root_bytes bs = bs.root_dir_entries * 32

whole_sectors : (size bytes : ℕ) → bytes % size ≡ 0 → size * (bytes / size) ≡ bytes
whole_sectors size bytes h = ground (arith, div-add-mod bytes size)

-- On a volume with a sector size other than 0, whose root directory fills whole sectors and whose
-- data begins below 2 ^ 32, the three sections follow each other without a gap: the first table
-- comes right after the reserved sectors, the root directory right after the tables, and the data
-- right after the root directory.
pub sections_of_lem :
    (bs : Fat16BootSector)
    → bs.sector_size ≢ 0
    → root_bytes bs % bs.sector_size ≡ 0
    → reserved_bytes bs + table_bytes bs + root_bytes bs < 2 ^ 32
    → sections_of bs
      ≡ ok (record {
        fat_section_start = reserved_bytes bs;
        root_directory_start = reserved_bytes bs + table_bytes bs;
        data_section_start = reserved_bytes bs + table_bytes bs + root_bytes bs;
      })
unfolding sections_of
sections_of_lem bs n w h =
    let whole = whole_sectors bs.sector_size (root_bytes bs) w in ground (arith, whole)

-- A volume with a sector size of 0 is a divide error.
pub sections_of_zero : (bs : Fat16BootSector) → bs.sector_size ≡ 0 → sections_of bs ≡ stop div_zero
unfolding sections_of
sections_of_zero bs e = rw e
