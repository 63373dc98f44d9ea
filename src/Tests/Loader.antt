-- ===== src/Tests/Loader.antt =====
-- The theorems on loading a file at a floppy with a file of two clusters.
use rml.Base.{
  ℕ, ◌+◌, ◌-◌, ◌*◌, ◌%◌, false, List, [], ◌∷◌, inl, inr, codes, replicate, ◌==◌, if◌then◌else◌, inl,
  inr,
}
use rml.Kernel.{Kernel, Machine}
use rml.Fs.Layout.{Fat16Entry}
use rml.Tests.Disk.{kernel, boot}

-- A floppy whose table has a file in the clusters 2 and 3.
abbrev table_sector : List ℕ
table_sector = 0xf0 ∷ 0xff ∷ 0xff ∷ 0x03 ∷ 0xf0 ∷ 0xff ∷ replicate 506 0

abbrev files_disk : ℕ → List ℕ
files_disk lba = if lba == 1 then table_sector else replicate 512 (lba % 256)

abbrev files_machine : Machine
files_machine = record {
  bios = λ drive c h s buf. (false, files_disk ((c * 2 + h) * 18 + (s - 1)));
  stale_sector = [];
  stale_count = 0;
}

abbrev links : ℕ → ℕ
links i = if i == 2 then 3 else 0xfff

abbrev large_clusters : Kernel
large_clusters = record kernel { bs = record boot { sectors_per_cluster = 8 } }

abbrev two_clusters : Fat16Entry
two_clusters = record {
  filename = codes "INIT    ";
  ext = codes "   ";
  attributes = 0;
  reserved = replicate 10 0;
  modify_time = 0;
  modify_date = 0;
  starting_cluster = 2;
  file_size = 8192;
}
