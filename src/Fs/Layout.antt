-- ===== src/Fs/Layout.antt =====
-- include/fs/fs.h: the packed structures as they lie in a sector, little-endian.
use rml.Base.{ℕ, ◌+◌, ◌*◌, List, get_or, take, drop}

abbrev pub byte_at : List ℕ → ℕ → ℕ
byte_at bytes i = get_or bytes i 0

-- `unsigned short`, and `unsigned int` or `unsigned long`.
abbrev pub short_at : List ℕ → ℕ → ℕ
short_at bytes i = byte_at bytes i + 256 * byte_at bytes (i + 1)

abbrev pub long_at : List ℕ → ℕ → ℕ
long_at bytes i = short_at bytes i + 65536 * short_at bytes (i + 2)

abbrev pub bytes_from : List ℕ → ℕ → ℕ → List ℕ
bytes_from bytes i n = take n (drop i bytes)

pub record Fat16BootSector : Type 0 where
  pub jmp : List ℕ
  pub oem : List ℕ
  pub sector_size : ℕ
  pub sectors_per_cluster : ℕ
  pub reserved_sectors : ℕ
  pub number_of_fats : ℕ
  pub root_dir_entries : ℕ
  pub total_sectors_short : ℕ
  pub media_descriptor : ℕ
  pub fat_size_sectors : ℕ
  pub sectors_per_track : ℕ
  pub number_of_heads : ℕ
  pub hidden_sectors : ℕ
  pub total_sectors_long : ℕ
  pub drive_number : ℕ
  pub current_head : ℕ
  pub boot_signature : ℕ
  pub volume_id : ℕ
  pub volume_label : List ℕ
  pub fs_type : List ℕ
  pub boot_code : List ℕ
  pub boot_sector_signature : ℕ

-- The structure laid over the 512 bytes that are read into it.
unfoldable pub boot_sector_of : List ℕ → Fat16BootSector
boot_sector_of b = record {
  jmp = bytes_from b 0 3;
  oem = bytes_from b 3 8;
  sector_size = short_at b 11;
  sectors_per_cluster = byte_at b 13;
  reserved_sectors = short_at b 14;
  number_of_fats = byte_at b 16;
  root_dir_entries = short_at b 17;
  total_sectors_short = short_at b 19;
  media_descriptor = byte_at b 21;
  fat_size_sectors = short_at b 22;
  sectors_per_track = short_at b 24;
  number_of_heads = short_at b 26;
  hidden_sectors = long_at b 28;
  total_sectors_long = long_at b 32;
  drive_number = byte_at b 36;
  current_head = byte_at b 37;
  boot_signature = byte_at b 38;
  volume_id = long_at b 39;
  volume_label = bytes_from b 43 11;
  fs_type = bytes_from b 54 8;
  boot_code = bytes_from b 62 448;
  boot_sector_signature = short_at b 510;
}

-- A directory entry of 32 bytes.
pub record Fat16Entry : Type 0 where
  pub filename : List ℕ
  pub ext : List ℕ
  pub attributes : ℕ
  pub reserved : List ℕ
  pub modify_time : ℕ
  pub modify_date : ℕ
  pub starting_cluster : ℕ
  pub file_size : ℕ

unfoldable pub entry_of_bytes : List ℕ → Fat16Entry
entry_of_bytes b = record {
  filename = bytes_from b 0 8;
  ext = bytes_from b 8 3;
  attributes = byte_at b 11;
  reserved = bytes_from b 12 10;
  modify_time = short_at b 22;
  modify_date = short_at b 24;
  starting_cluster = short_at b 26;
  file_size = long_at b 28;
}
