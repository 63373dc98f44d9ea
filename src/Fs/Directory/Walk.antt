-- ===== src/Fs/Directory/Walk.antt =====
-- The entries that `read_entry` and `get_root_next_file` of fs/msdos/fs.c give, against the disk.
use mathlib.Core.List.{append-nil}
use rml.Base.{
  ℕ, zero, suc, ◌+◌, ◌*◌, ◌/◌, ◌%◌, ◌≤◌, ◌<◌, u32, pos, true, false, List, [], ◌∷◌, replicate,
  get_elem?, fetch_lem, leb, none, some, ok, ◌≡◌, ◌≢◌, sym, subst, ap, ◌∙◌, arith, inr,
}
use rml.Block.Transfer.{Serves}
use rml.Files.{FileDescriptor}
use rml.Kernel.{Kernel, Machine, advanced}
use rml.Kernel.Io.{IsDevice, CanRead, bytes_at, read_root}
use rml.Fs.Layout.{Fat16Entry, entry_of_bytes}
use rml.Fs.Directory.{read_entry, get_root_next_file}

-- A directory of `n` entries from the position `start` on: it begins with a sector, lies on the disk
-- and touches no last sector of a track.
pub record IsPlaced (start n : ℕ) : Type 0 where
  pub aligned : start % 512 ≡ 0
  pub on_disk : start + 32 * n ≤ 2880 * 512
  pub tracks : (i : ℕ) → i < n → (start + 32 * i) / 512 % 18 ≢ 17

-- Descriptor 5 stands at position `p` of the stretch of drive B from `start` on.
pub record RootAt (start p : ℕ) (k : Kernel) : Type 0 where
  pub root : FileDescriptor
  pub found : get_elem? k.fd_list 5 ≡ some root
  pub below : root.pfd ≡ pos 4
  pub offset : root.pfd_offset ≡ start
  pub position : root.at ≡ p
  pub drive : IsDevice 4 k

-- Entry `i` of the directory on the disk, and the `n` entries from `i` on.
abbrev pub dir_entry : (ℕ → List ℕ) → ℕ → ℕ → Fat16Entry
dir_entry disk start i = entry_of_bytes (bytes_at disk (start + 32 * i) 32)

unfoldable pub dir_entries : (ℕ → List ℕ) → ℕ → ℕ → ℕ → List Fat16Entry
dir_entries disk start i zero = []
dir_entries disk start i (suc n) = dir_entry disk start i ∷ dir_entries disk start (i + 1) n

entry-CanRead : (start n i : ℕ) → IsPlaced start n → i < n → CanRead (start + 32 * i) 32
entry-CanRead start n i placed h = record {
  track = placed.tracks i h;
  in_step = inr (omega (arith, placed.aligned));
  on_disk = omega (arith, placed.on_disk);
  some_bytes = omega arith;
}

module _ (m : Machine) {disk : ℕ → List ℕ} (served : Serves m.bios 1 disk) where
  -- Reading an entry moves descriptor 5 to the next one, and leaves all but the table of descriptors.
  pub read_entry_lem :
      (start n i : ℕ) (k : Kernel)
      → IsPlaced start n
      → i < n
      → RootAt start (32 * i) k
      → (k' : Kernel) × (read_entry m k ≡ ok (dir_entry disk start i, k'))
        × RootAt start (32 * (i + 1)) k'
        × (k' ≡ record k { fd_list = k'.fd_list })
  unfolding read_entry
  read_entry_lem start n i k placed h at =
      let place : u32 (at.root.pfd_offset + at.root.at) ≡ start + 32 * i =
        omega (arith, at.offset, at.position, placed.on_disk) in
      let can = subst (λ p. CanRead p 32) (sym place) (entry-CanRead start n i placed h) in
      let (k', run, moved, drive, rest) =
        read_root m served 0 32 (replicate 32 0) k at.root at.found at.below at.drive can
          (omega arith) in
      let bytes =
        append-nil (bytes_at disk (u32 (at.root.pfd_offset + at.root.at)) 32)
        ∙ ap (λ p. bytes_at disk p 32) place in
      (
        k',
        rw run (ap (λ b. ok (entry_of_bytes b, k')) bytes),
        record {
          root = advanced 32 at.root;
          found = moved;
          below = at.below;
          offset = at.offset;
          position = omega (arith, at.position, placed.on_disk);
          drive = drive;
        },
        rest,
      )

  -- Let descriptor 5 stand at entry `i` of a directory of `n` entries, the number that the boot sector
  -- gives. `get_root_next_file` returns that entry of the disk and moves on by one, if there is one.
  pub get_root_next_file_lem :
      (start n i : ℕ) (k : Kernel)
      → IsPlaced start n
      → k.bs.root_dir_entries ≡ n
      → i < n
      → RootAt start (32 * i) k
      → (k' : Kernel) × (get_root_next_file m k ≡ ok (some (dir_entry disk start i), k'))
        × RootAt start (32 * (i + 1)) k'
        × (k' ≡ record k { fd_list = k'.fd_list })
  unfolding get_root_next_file
  get_root_next_file_lem start n i k placed count h at =
      let (k', run, moved, rest) = read_entry_lem start n i k placed h at in
      let inside : leb (u32 (at.root.at + 32)) (k.bs.root_dir_entries * 32) ≡ true =
        ground (arith, at.position, placed.on_disk, count) in
      (k', rw (fetch_lem k.fd_list 5 at.root at.found, inside, run), moved, rest)

  pub get_root_next_file_end :
      (start n : ℕ) (k : Kernel)
      → IsPlaced start n
      → k.bs.root_dir_entries ≡ n
      → RootAt start (32 * n) k
      → get_root_next_file m k ≡ ok (none, k)
  unfolding get_root_next_file
  get_root_next_file_end start n k placed count at =
      let outside : leb (u32 (at.root.at + 32)) (k.bs.root_dir_entries * 32) ≡ false =
        ground (arith, at.position, placed.on_disk, count) in
      rw (fetch_lem k.fd_list 5 at.root at.found, outside)
