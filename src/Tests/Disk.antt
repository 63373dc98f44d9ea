-- ===== src/Tests/Disk.antt =====
-- The theorems on drives and volumes at a floppy whose sectors hold their number.
use rml.Base.{
  ℕ, ◌+◌, ◌-◌, ◌*◌, ◌%◌, ◌<◌, ℤ, pos, false, List, [], ◌∷◌, length-replicate, inr, replicate,
  get_elem?, some, ◌==◌, if◌then◌else◌, inr, ok, stop, bounds, ◌≡◌, refl, arith,
}
use rml.Block.{Bios, Chs, read_drive, sectors_for}
use rml.Block.Transfer.{Serves, image, read_drive_lem, read_drive_crossing, read_drive_last}
use rml.Files.{FileDescriptor, minus_one}
use rml.Fs.Layout.{Fat16BootSector}
use rml.Kernel.{Kernel, Machine, read}
use rml.Kernel.Io.{IsDevice, read_root}
use rml.Fs.Volume.{get_next_cluster, next_of}
use rml.Fs.Volume.Chain.{word_for, after_seek_read, next_of_lem, get_next_cluster_lem}

abbrev disk : ℕ → List ℕ
disk lba = replicate 512 (lba % 256)

abbrev floppy : Bios
floppy drive c h s buf = (false, disk ((c * 2 + h) * 18 + (s - 1)))

served : Serves floppy 1 disk
served = record {
  size = λ lba. length-replicate {A = ℕ} 512 (lba % 256);
  reads = λ c h s buf p q r t. refl;
}

read_drive_lem_example :
    read_drive floppy 1 1030 3 [] (9 ∷ 9 ∷ 9 ∷ 9 ∷ []) ≡ ok (2 ∷ 2 ∷ 2 ∷ 9 ∷ [], 0)
unfolding image sectors_for
read_drive_lem_example =
    read_drive_lem served 1030 3 [] (9 ∷ 9 ∷ 9 ∷ 9 ∷ []) (omega arith) (inr (omega arith))
      (omega arith) (omega arith) (omega arith)

read_drive_crossing_example : read_drive floppy 1 1023 2 [] (9 ∷ 9 ∷ []) ≡ stop bounds
read_drive_crossing_example =
    read_drive_crossing served 1023 2 [] (9 ∷ 9 ∷ []) (omega arith) (omega arith) (omega arith)
      (omega arith)

read_drive_last_example : read_drive floppy 1 8704 2 [] (9 ∷ 9 ∷ []) ≡ ok (35 ∷ 35 ∷ [], 0)
read_drive_last_example =
    read_drive_last served 8704 2 [] (9 ∷ 9 ∷ []) (omega arith) (omega arith) (omega arith)
      (omega arith) (omega arith) (omega arith)

abbrev track_end : Chs
track_end = record { cylinder = 3; head = 1; sector = 18 }

abbrev machine : Machine
machine = record { bios = floppy; stale_sector = []; stale_count = 0 }

abbrev entry : ℤ → ℕ → ℕ → FileDescriptor
entry below offset at = record {
  pathname = [];
  at = at;
  size = 65535;
  pfd = below;
  pfd_offset = offset;
}

-- A boot sector of 512-byte sectors, one to a cluster, with 16 root entries.
abbrev pub boot : Fat16BootSector
boot = record {
  jmp = [];
  oem = [];
  sector_size = 512;
  sectors_per_cluster = 1;
  reserved_sectors = 1;
  number_of_fats = 2;
  root_dir_entries = 16;
  total_sectors_short = 2880;
  media_descriptor = 0xf0;
  fat_size_sectors = 1;
  sectors_per_track = 18;
  number_of_heads = 2;
  hidden_sectors = 0;
  total_sectors_long = 0;
  drive_number = 1;
  current_head = 0;
  boot_signature = 0;
  volume_id = 0;
  volume_label = [];
  fs_type = [];
  boot_code = [];
  boot_sector_signature = 0xaa55;
}

abbrev pub kernel : Kernel
kernel = record {
  fd_list =
      entry minus_one 0 0
      ∷ entry minus_one 0 0
      ∷ entry minus_one 0 0
      ∷ entry minus_one 0 0
      ∷ entry minus_one 0 1024
      ∷ entry (pos 4) 1536 32
      ∷ [];
  processes = record { table = []; current = 0 };
  segs = [];
  s_pos = record {
    fat_section_start = 512;
    data_section_start = 2048;
    root_directory_start = 1536;
  };
  bs = boot;
  ram = λ p. 0;
  console = record { screen = []; digits = replicate 7 0 };
  keys = [];
}

pub device : IsDevice 4 kernel
device = (entry minus_one 0 1024, refl, refl)

read_root_example :
    (k' : Kernel) × (read machine 2 5 (9 ∷ 9 ∷ 9 ∷ []) 2 0 kernel ≡ ok (2, 3 ∷ 3 ∷ 9 ∷ [], k'))
    × (get_elem? k'.fd_list 5 ≡ some (entry (pos 4) 1536 34))
    × IsDevice 4 k'
    × (k' ≡ record kernel { fd_list = k'.fd_list })
unfolding image sectors_for
read_root_example =
    read_root machine served 0 2 (9 ∷ 9 ∷ 9 ∷ []) kernel (entry (pos 4) 1536 32) refl refl device
      (record {
        track = omega arith;
        in_step = inr (omega arith);
        on_disk = omega arith;
        some_bytes = omega arith;
      })
      (omega arith)

abbrev ends_at_3 : ℕ → ℕ
ends_at_3 i = if i == 3 then 0xfff else 4

small : (i : ℕ) → ends_at_3 i < 4096
small i = ground arith

next_of_lem_example : next_of 3 (word_for ends_at_3 3) ≡ 0xfff
next_of_lem_example = next_of_lem ends_at_3 3 small

-- The bytes of sector 1 are all 1: the entries alternate between 0x101 and 0x010.
get_next_cluster_lem_example :
    get_next_cluster machine 2 kernel ≡ ok (0x101, after_seek_read 515 2 kernel)
unfolding image sectors_for
get_next_cluster_lem_example =
    get_next_cluster_lem machine served (λ i. if i % 2 == 0 then 0x101 else 0x010) 2 kernel device
      (record {
        track = omega arith;
        in_step = inr (omega arith);
        on_disk = omega arith;
        some_bytes = omega arith;
      })
      (λ i. ground arith) refl
