-- ===== src/Fs/Mount.antt =====
-- `mount` of kernel/kernio.c: the drive, the boot sector, the table and the root directory.
use mathlib.Core.List.{append-nil}
use rml.Base.{
  ℕ, zero, suc, ◌*◌, ◌≤◌, ◌<◌, pos, true, List, [], ◌∷◌, ◌++◌, length, take-append_self, drop,
  replicate, update_at, get_elem?, get_elem?-update_at, length-update_at, some, if◌then◌else◌,
  Outcome, ok, ◌>>=◌, codes, literal, ◌≡◌, refl, ap, ◌∙◌, arith, inl,
}
use rml.Clib.Text.{strcmp}
use rml.Clib.Text.Scan.{
  text_of, has_nul, lexicographic, strcmp-eq-lexicographic, lexicographic_refl,
}
use rml.Block.{sectors_for}
use rml.Block.Transfer.{Serves, image}
use rml.Files.{FileDescriptor, SectionPositions, is_zero, open_drive_entry, open_root_entry}
use rml.Files.Laws.{device_of, entry_of, open_in_lem}
use rml.Kernel.{Kernel, Machine, open_file}
use rml.Kernel.Io.{IsDevice, CanRead, bytes_at}
use rml.Fs.Layout.{Fat16BootSector, boot_sector_of}
use rml.Fs.Volume.{open_drive, read_boot_sector, read_fat, sections_of}
use rml.Fs.Volume.Chain.{after_seek_read, read_at_lem}
use rml.Fs.Volume.Load.{IsDevice-after}

-- `fat_table` is the array of 1024 bytes on the stack.
unfoldable pub mount : Machine → List ℕ → List ℕ → Kernel → Outcome (ℕ × Kernel)
mount m filename fat_table k = do
  order ← strcmp filename (literal "/dev/fdb")
  k' ←
      (if is_zero order
        then (do
          (_, k1) ← open_drive k
          k2 ← read_boot_sector m k1
          (_, k3) ← read_fat m fat_table k2
          (_, k4) ← open_file (literal "/") 0 k3
          ok k4)
        else ok k)
  ok (0, k')

is_drive :
    (filename : List ℕ)
    → has_nul filename ≡ true
    → text_of filename ≡ codes "/dev/fdb"
    → strcmp filename (literal "/dev/fdb") ≡ ok (pos 0)
unfolding text_of has_nul
is_drive filename ended named =
    strcmp-eq-lexicographic filename (literal "/dev/fdb") ended refl
    ∙ ap (λ t. ok (lexicographic t (codes "/dev/fdb"))) named
    ∙ ap (λ o. ok o) (lexicographic_refl (codes "/dev/fdb"))

pub some_at : {A : Type 0} (t : List A) (i : ℕ) → i < length t → (d : A) × (get_elem? t i ≡ some d)
some_at [] i h = absurd (omega arith)
some_at (x ∷ t) zero h = (x, refl)
some_at (x ∷ t) (suc i) h = some_at t i (omega arith)

pub open_file_lem :
    (path : List ℕ) (fd : ℕ) (k : Kernel)
    → has_nul path ≡ true
    → length k.fd_list ≡ 6
    → device_of (text_of path) ≡ some fd
    → open_file path 0 k
      ≡ ok (pos fd, record k { fd_list = update_at k.fd_list fd (entry_of k.s_pos fd) })
unfolding open_file
open_file_lem path fd k h six known = rw (open_in_lem k.s_pos path k.fd_list h six, known)

open_drive_lem :
    (k : Kernel)
    → length k.fd_list ≡ 6
    → open_drive k ≡ ok (pos 4, record k { fd_list = update_at k.fd_list 4 open_drive_entry })
unfolding open_drive text_of has_nul device_of lexicographic entry_of
open_drive_lem k six = open_file_lem (literal "/dev/fdb") 4 k refl six refl

pub open_root_lem :
    (k : Kernel)
    → length k.fd_list ≡ 6
    → open_file (literal "/") 0 k
      ≡ ok (pos 5, record k { fd_list = update_at k.fd_list 5 (open_root_entry k.s_pos) })
unfolding text_of has_nul device_of lexicographic entry_of
open_root_lem k six = open_file_lem (literal "/") 5 k refl six refl

length-after : (p n : ℕ) (k : Kernel) → length (after_seek_read p n k).fd_list ≡ length k.fd_list
length-after p n k = length-update_at _ 4 _ ∙ length-update_at k.fd_list 4 _

-- The kernel once the drive is open, and once the boot sector is read.
abbrev with_drive : Kernel → Kernel
with_drive k = record k { fd_list = update_at k.fd_list 4 open_drive_entry }

abbrev with_boot : Fat16BootSector → SectionPositions → Kernel → Kernel
with_boot bs s k = record (after_seek_read 0 512 k) { bs = bs; s_pos = s }

drive-IsDevice : (k : Kernel) → length k.fd_list ≡ 6 → IsDevice 4 (with_drive k)
drive-IsDevice k six =
    let (d, found) = some_at k.fd_list 4 (omega arith) in
    (open_drive_entry d, ground (arith, get_elem?-update_at k.fd_list 4 4 open_drive_entry), refl)

-- What a mounted volume is: the kernel has the boot sector and the sections, descriptor 4 is a
-- device, and descriptor 5 of the six is the root directory's stretch of it, at its beginning.
pub record IsMounted (bs : Fat16BootSector) (s : SectionPositions) (k : Kernel) : Type 0 where
  pub boot_sector : k.bs ≡ bs
  pub sections : k.s_pos ≡ s
  pub drive : IsDevice 4 k
  pub root : FileDescriptor
  pub root_at : get_elem? k.fd_list 5 ≡ some (open_root_entry s root)
  pub size : length k.fd_list ≡ 6

-- The root directory's descriptor on a kernel that has read the volume.
root_opened :
    (k : Kernel)
    → length k.fd_list ≡ 6
    → IsDevice 4 k
    → IsMounted k.bs k.s_pos
        (record k { fd_list = update_at k.fd_list 5 (open_root_entry k.s_pos) })
root_opened k six (d4, found4, own) =
    let (d, found) = some_at k.fd_list 5 (omega arith) in
    record {
      boot_sector = refl;
      sections = refl;
      drive =
          (d4, ground (arith, get_elem?-update_at k.fd_list 5 4 (open_root_entry k.s_pos)), own);
      root = d;
      root_at = ground (arith, get_elem?-update_at k.fd_list 5 5 (open_root_entry k.s_pos));
      size = length-update_at k.fd_list 5 (open_root_entry k.s_pos) ∙ six;
    }

module _ (m : Machine) {disk : ℕ → List ℕ} (served : Serves m.bios 1 disk) where
  first_sector : bytes_at disk 0 512 ≡ disk 0
  unfolding image sectors_for
  first_sector = take-append_self 512 (disk 0) [] (served.size 0)

  boot_lem :
      (s : SectionPositions) (k : Kernel)
      → IsDevice 4 k
      → sections_of (boot_sector_of (disk 0)) ≡ ok s
      → read_boot_sector m k ≡ ok (with_boot (boot_sector_of (disk 0)) s k)
  unfolding read_boot_sector
  boot_lem s k device placed =
      let read =
        read_at_lem m served 0 512 (replicate 512 0) k device
          (record {
            track = omega arith;
            in_step = inl (omega arith);
            on_disk = omega arith;
            some_bytes = omega arith;
          })
          (omega arith) in
      let sector : bytes_at disk 0 512 ++ drop 512 (replicate 512 0) ≡ disk 0 =
        append-nil (bytes_at disk 0 512) ∙ first_sector in
      rw (read, sector, placed)

  -- Let the path be /dev/fdb, the table have its six descriptors, the boot sector of the disk give
  -- the sections `s`, and `read_drive` be able to read the bytes that `read_fat` asks for, which fit
  -- the array. `mount` returns 0 and leaves the volume mounted: the boot sector and the sections are
  -- those of the disk, descriptor 4 is the drive and descriptor 5 the root directory on it. But for
  -- the table of descriptors and those two nothing changes.
  pub mount_lem :
      (filename fat_table : List ℕ) (s : SectionPositions) (k : Kernel)
      → has_nul filename ≡ true
      → text_of filename ≡ codes "/dev/fdb"
      → length k.fd_list ≡ 6
      → sections_of (boot_sector_of (disk 0)) ≡ ok s
      → CanRead s.fat_section_start
          ((boot_sector_of (disk 0)).number_of_fats * (boot_sector_of (disk 0)).fat_size_sectors)
      → (boot_sector_of (disk 0)).number_of_fats * (boot_sector_of (disk 0)).fat_size_sectors
        ≤ length fat_table
      → (k' : Kernel) × (mount m filename fat_table k ≡ ok (0, k'))
        × IsMounted (boot_sector_of (disk 0)) s k'
        × (k' ≡ record k { fd_list = k'.fd_list; bs = k'.bs; s_pos = k'.s_pos })
  unfolding mount read_fat
  mount_lem filename fat_table s k ended named six placed can fits =
      let order = is_drive filename ended named in
      let bs = boot_sector_of (disk 0) in
      let count = bs.number_of_fats * bs.fat_size_sectors in
      let k1 = with_drive k in
      let k2 = with_boot bs s k1 in
      let k3 = after_seek_read s.fat_section_start count k2 in
      let device1 = drive-IsDevice k six in
      let device2 = IsDevice-after 0 512 k1 device1 in
      let device3 = IsDevice-after s.fat_section_start count k2 device2 in
      let size3 : length k3.fd_list ≡ 6 =
        length-after s.fat_section_start count k2
        ∙ length-after 0 512 k1
        ∙ length-update_at k.fd_list 4 open_drive_entry
        ∙ six in
      (
        record k3 { fd_list = update_at k3.fd_list 5 (open_root_entry s) },
        rw (
          order,
          open_drive_lem k six,
          boot_lem s k1 device1 placed,
          read_at_lem m served s.fat_section_start count fat_table k2 device2 can fits,
          open_root_lem k3 size3,
        ),
        root_opened k3 size3 device3,
        refl,
      )
