-- ===== src/Fs/Volume.antt =====
-- The mounted volume: what fs/msdos/fs.c reads through descriptors 4 (the drive) and 5 (the root
-- directory). A buffer that a read fills is written with zeros for its old content.
pub mod Sections
pub mod Chain
pub mod Memory
pub mod Load
use rml.Base.{
  ℕ, zero, suc, ◌+◌, ◌-◌, ◌*◌, ◌/◌, ◌%◌, ◌^◌, u32, bit_and, ℤ, pos, Bool, true, false, List, [],
  ◌∷◌, replicate, set, fetch, modify, ◌==◌, ltb, leb, Option, none, some, if◌then◌else◌, Outcome,
  ok, stop, bounds, div_zero, no_fuel, ◌>>=◌, codes, literal,
}
use rml.Files.{FileDescriptor, SectionPositions}
use rml.Console.{Console, printk, print_uint, line}
use rml.Kernel.{Kernel, Machine, read, lseek, open_file}
use rml.Fs.Layout.{Fat16BootSector, Fat16Entry, boot_sector_of, entry_of_bytes, long_at}
use rml.Fs.Entry.{
  SyscallFileEntry, get_entry_type, is_file, first_byte, extract_file_name, listing_of,
}

-- Fuel for `read`: the root directory is one descriptor above the drive.
abbrev pub depth : ℕ
depth = 2

unfoldable pub open_drive : Kernel → Outcome (ℤ × Kernel)
open_drive k = open_file (literal "/dev/fdb") 0 k

-- `read` after a seek of drive B.
unfoldable pub read_at : Machine → ℕ → List ℕ → ℕ → Kernel → Outcome (List ℕ × Kernel)
read_at m position buf count k = do
  (_, k1) ← lseek 4 position 0 k
  (_, buf', k2) ← read m depth 4 buf count 0 k1
  ok (buf', k2)

-- The three sections that `read_boot_sector` computes. A sector size of 0 is a divide error.
unfoldable pub sections_of : Fat16BootSector → Outcome SectionPositions
sections_of bs =
    let fat_start = u32 (bs.sector_size * bs.reserved_sectors) in
    let root_start = u32 (fat_start + bs.sector_size * bs.fat_size_sectors * bs.number_of_fats) in
    let root_sectors = bs.root_dir_entries * 32 / bs.sector_size in
    if bs.sector_size == 0
    then stop div_zero
    else ok (record {
      fat_section_start = fat_start;
      root_directory_start = root_start;
      data_section_start = u32 (root_start + bs.sector_size * root_sectors);
    })

unfoldable pub read_boot_sector : Machine → Kernel → Outcome Kernel
unfolding read_at sections_of
read_boot_sector m k = do
  (buf, k1) ← read_at m 0 (replicate 512 0) 512 k
  let bs = boot_sector_of buf
  s ← sections_of bs
  ok (record k1 { bs = bs; s_pos = s })

unfoldable pub read_fat : Machine → List ℕ → Kernel → Outcome (List ℕ × Kernel)
unfolding read_at
read_fat m fatcache k =
    read_at m k.s_pos.fat_section_start fatcache (k.bs.number_of_fats * k.bs.fat_size_sectors) k

unfoldable pub read_root_dir : Machine → List ℕ → Kernel → Outcome (List ℕ × Kernel)
unfolding read_at
read_root_dir m rootcache k =
    read_at m k.s_pos.root_directory_start rootcache (32 * k.bs.root_dir_entries) k

abbrev pub cluster_size : Fat16BootSector → ℕ
cluster_size bs = bs.sector_size * bs.sectors_per_cluster

-- Where a cluster begins; `cluster_num - 2` is unsigned.
abbrev pub cluster_start : Kernel → ℕ → ℕ
cluster_start k cluster_num =
    u32 (k.s_pos.data_section_start + cluster_size k.bs * u32 (cluster_num + 2 ^ 32 - 2))

unfoldable pub read_cluster : Machine → List ℕ → ℕ → Kernel → Outcome (List ℕ × Kernel)
unfolding read_at
read_cluster m buffer cluster_num k =
    read_at m (cluster_start k cluster_num) buffer (cluster_size k.bs) k

-- The entry of an odd cluster is the high 12 bits of its two bytes, that of an even one the low 12.
unfoldable pub next_of : ℕ → ℕ → ℕ
next_of curr_cluster word =
    if bit_and curr_cluster 0x0001 == 0 then bit_and word 0x0fff else word / 2 ^ 4

unfoldable pub get_next_cluster : Machine → ℕ → Kernel → Outcome (ℕ × Kernel)
unfolding read_at next_of
get_next_cluster m curr_cluster k = do
  let cluster_entry = u32 (curr_cluster + curr_cluster / 2)
  (buf, k1) ← read_at m (u32 (k.s_pos.fat_section_start + cluster_entry)) (replicate 4 0) 2 k
  ok (next_of curr_cluster (long_at buf 0), k1)

-- `load_to_memory` of kernel/kernio.c: `words` words to the segment from offset `di` on, which wraps
-- at 64K; the loop instruction takes a count of 0 for 65536.
unfoldable pub store_words : ℕ → ℕ → ℕ → List ℕ → (ℕ → ℕ) → Outcome (ℕ → ℕ)
store_words zero segment di buffer ram = ok ram
store_words (suc words) segment di [] ram = stop bounds
store_words (suc words) segment di (a ∷ []) ram = stop bounds
store_words (suc words) segment di (a ∷ b ∷ buffer) ram =
    store_words words segment ((di + 2) % 2 ^ 16) buffer λ p.
      if p == segment * 16 + di
      then a
      else if p == segment * 16 + (di + 1) % 2 ^ 16
      then b
      else ram p

unfoldable pub load_to_memory : ℕ → ℕ → List ℕ → ℕ → (ℕ → ℕ) → Outcome (ℕ → ℕ)
unfolding store_words
load_to_memory segment prog_offset buffer count ram =
    let words = count / 2 % 2 ^ 16 in
    store_words (if words == 0 then 2 ^ 16 else words) (segment % 2 ^ 16) (prog_offset % 2 ^ 16)
      buffer ram

-- The loop of `load_file_content`, at a cluster and an offset. The array `clust_buf` has 4096 bytes.
unfoldable pub load_clusters : Machine → ℕ → ℕ → ℕ → ℕ → List ℕ → Kernel → Outcome Kernel
unfolding read_cluster get_next_cluster load_to_memory
load_clusters m zero curr segment offset clust_buf k = stop no_fuel
load_clusters m (suc fuel) curr segment offset clust_buf k = do
  (buf, k1) ← read_cluster m clust_buf curr k
  ram ← load_to_memory segment offset buf 4096 k1.ram
  (next, k2) ← get_next_cluster m curr (record k1 { ram = ram })
  let again = load_clusters m fuel next segment (u32 (offset + 4096)) buf k2
  if ltb next 0x0ff8 then again else ok k2

unfoldable pub load_file_content :
    Machine → ℕ → Fat16Entry → ℕ → ℕ → List ℕ → Kernel → Outcome Kernel
unfolding load_clusters
load_file_content m fuel file segment offset clust_buf k =
    load_clusters m fuel file.starting_cluster segment offset clust_buf k

-- The loop of `print_file`; its array has 4097 bytes.
unfoldable pub print_clusters : Machine → ℕ → ℕ → List ℕ → Kernel → Outcome Kernel
unfolding read_cluster get_next_cluster
print_clusters m zero curr clust_buf k = stop no_fuel
print_clusters m (suc fuel) curr clust_buf k = do
  (buf, k1) ← read_cluster m clust_buf curr k
  con ← printk (set buf 4096 0) k1.console
  (next, k2) ← get_next_cluster m curr (record k1 { console = con })
  let again = print_clusters m fuel next (set buf 4096 0) k2
  if ltb next 0x0ff8 then again else ok k2

unfoldable pub print_file : Machine → ℕ → Fat16Entry → List ℕ → Kernel → Outcome Kernel
unfolding print_clusters
print_file m fuel file clust_buf k = do
  k1 ← print_clusters m fuel file.starting_cluster clust_buf k
  con ← printk (13 ∷ 10 ∷ line (codes "EOF")) k1.console
  ok (record k1 { console = con })
