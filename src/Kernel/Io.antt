-- ===== src/Kernel/Io.antt =====
-- `open`, `lseek` and `read` of kernel/kernio.c against the image of the floppy in drive B.
use mathlib.Core.Option
use rml.Base.{
  ℕ, zero, suc, ◌+◌, ◌*◌, ◌/◌, ◌%◌, ◌≤◌, ◌<◌, u32, pos, List, [], ◌∷◌, ◌++◌, length, take, drop,
  update_at, get_elem?, get_elem?-update_at, length-update_at, modify_lem, fetch_lem, some, ok,
  ◌>>=◌, ◌≡◌, ◌≢◌, refl, ap, ◌∙◌, arith,
}
use rml.Block.{sectors_for}
use rml.Block.Transfer.{Serves, image, InStep, read_drive_lem}
use rml.Files.{FileDescriptor, minus_one, lseek_in}
use rml.Kernel.{Kernel, Machine, read, read_device, lseek, on_table, advanced, print_errors, index}

abbrev pub at_offset : ℕ → FileDescriptor → FileDescriptor
at_offset p d = record d { at = p }

-- Descriptor `fd` of the kernel stands for a device of its own.
abbrev pub IsDevice : ℕ → Kernel → Type 0
IsDevice fd k = (d : FileDescriptor) × (get_elem? k.fd_list fd ≡ some d) × (d.pfd ≡ minus_one)

pub lt_of_some :
    (fd : ℕ) (t : List FileDescriptor) (d : FileDescriptor)
    → get_elem? t fd ≡ some d
    → fd < length t
lt_of_some fd [] d e = cc
lt_of_some zero (x ∷ t) d e = omega arith
lt_of_some (suc fd) (x ∷ t) d e = omega (arith, lt_of_some fd t d e)

-- The kernel after reading `count` bytes through `fd`.
abbrev pub after_read : ℕ → ℕ → Kernel → Kernel
after_read fd count k = record k { fd_list = update_at k.fd_list fd (advanced count) }

-- The bytes of a disk: `count` of them from position `p` on.
abbrev pub bytes_at : (ℕ → List ℕ) → ℕ → ℕ → List ℕ
bytes_at disk p count = take count (drop (p % 512) (image disk (p / 512) (sectors_for count)))

-- A read that `read_drive` can do: in a sector that is not the last of its track, from the start of
-- a sector or inside it, and on the disk.
pub record CanRead (p count : ℕ) : Type 0 where
  pub track : p / 512 % 18 ≢ 17
  pub in_step : InStep p count
  pub on_disk : p + count ≤ 2880 * 512
  pub some_bytes : 0 < count

-- `read` of a descriptor with one below it is a seek and a `read` of that.
read_below :
    (m : Machine) (fuel fd under count pid : ℕ) (buf : List ℕ) (k k2 : Kernel) (d : FileDescriptor)
    (bytes : List ℕ)
    → get_elem? k.fd_list fd ≡ some d
    → d.pfd ≡ pos under
    → (lseek under (u32 (d.pfd_offset + d.at)) pid k >>= λ s.
        read m (suc fuel) under buf count 0 s.1)
      ≡ ok (count, bytes, k2)
    → fd < length k2.fd_list
    → read m (suc (suc fuel)) fd buf count pid k ≡ ok (count, bytes, after_read fd count k2)
unfolding read index
read_below m fuel fd under count pid buf k k2 d bytes found below done size =
    rw (fetch_lem k.fd_list fd d found, below, done)
      (rw (modify_lem k2.fd_list fd (advanced count) size))

module _ (m : Machine) {disk : ℕ → List ℕ} (served : Serves m.bios 1 disk) where
  -- Let descriptor 4 be a device. `read` of drive B returns the count; it stores exactly the bytes
  -- of the disk from the descriptor's position on, moves the position on by the count and changes
  -- nothing else.
  pub read_floppy :
      (fuel count pid : ℕ) (buf : List ℕ) (k : Kernel) (d : FileDescriptor)
      → get_elem? k.fd_list 4 ≡ some d
      → d.pfd ≡ minus_one
      → CanRead d.at count
      → count ≤ length buf
      → read m (suc fuel) 4 buf count pid k
        ≡ ok (count, bytes_at disk d.at count ++ drop count buf, after_read 4 count k)
  unfolding read read_device print_errors
  read_floppy fuel count pid buf k d found own can fits =
      let stored =
        read_drive_lem served d.at count m.stale_sector buf can.track can.in_step can.on_disk
          can.some_bytes fits in
      rw (fetch_lem k.fd_list 4 d found, own, stored)
        (rw (modify_lem k.fd_list 4 (advanced count) (lt_of_some 4 k.fd_list d found)))

  -- The kernel seeks drive B and reads: what the file system does for every one of its reads.
  pub seek_read :
      (fuel p count : ℕ) (buf : List ℕ) (k : Kernel)
      → IsDevice 4 k
      → CanRead p count
      → count ≤ length buf
      → (lseek 4 p 0 k >>= λ s. read m (suc fuel) 4 buf count 0 s.1)
        ≡ ok (
          count,
          bytes_at disk p count ++ drop count buf,
          after_read 4 count (record k { fd_list = update_at k.fd_list 4 (at_offset p) }),
        )
  unfolding lseek lseek_in
  seek_read fuel p count buf k (d, found, own) can fits =
      let sought = record k { fd_list = update_at k.fd_list 4 (at_offset p) } in
      let there : get_elem? sought.fd_list 4 ≡ some (at_offset p d) =
        get_elem?-update_at k.fd_list 4 4 (at_offset p)
        ∙ ap (λ o. Option.map (at_offset p) o) found in
      rw (modify_lem k.fd_list 4 (at_offset p) (lt_of_some 4 k.fd_list d found))
        (read_floppy fuel count 0 buf sought (at_offset p d) there own can fits)

  -- Let descriptor 5 stand for a stretch of drive B from `pfd_offset` on, descriptor 4 be a device,
  -- and the place at the offset plus the position of 5 be one that `read_drive` can read, with a
  -- count that fits the buffer. The kernel's `read` of 5 returns the count, stores the bytes of the
  -- disk at that place, moves the position of 5 on by the count, and changes only the table of
  -- descriptors, where 4 is still a device.
  pub read_root :
      (fuel count : ℕ) (buf : List ℕ) (k : Kernel) (d : FileDescriptor)
      → get_elem? k.fd_list 5 ≡ some d
      → d.pfd ≡ pos 4
      → IsDevice 4 k
      → CanRead (u32 (d.pfd_offset + d.at)) count
      → count ≤ length buf
      → (k' : Kernel) × (read m (suc (suc fuel)) 5 buf count 0 k
          ≡ ok (count, bytes_at disk (u32 (d.pfd_offset + d.at)) count ++ drop count buf, k'))
        × (get_elem? k'.fd_list 5 ≡ some (advanced count d))
        × IsDevice 4 k'
        × (k' ≡ record k { fd_list = k'.fd_list })
  unfolding index
  read_root fuel count buf k d found below (d4, found4, own) can fits =
      let p = u32 (d.pfd_offset + d.at) in
      let t1 = update_at k.fd_list 4 (at_offset p) in
      let t2 = update_at t1 4 (advanced count) in
      let k2 = record k { fd_list = t2 } in
      let size : length t2 ≡ length k.fd_list =
        length-update_at t1 4 (advanced count) ∙ length-update_at k.fd_list 4 (at_offset p) in
      (
        after_read 5 count k2,
        read_below m fuel 5 4 count 0 buf k k2 d (bytes_at disk p count ++ drop count buf) found
            below (seek_read fuel p count buf k (d4, found4, own) can fits)
            (omega (arith, size, lt_of_some 5 k.fd_list d found)),
        ground (
          arith,
          get_elem?-update_at t2 5 5 (advanced count),
          get_elem?-update_at t1 4 5 (advanced count),
          get_elem?-update_at k.fd_list 4 5 (at_offset p),
        ),
        (
          advanced count (at_offset p d4),
          ground (
            arith,
            get_elem?-update_at t2 5 4 (advanced count),
            get_elem?-update_at t1 4 4 (advanced count),
            get_elem?-update_at k.fd_list 4 4 (at_offset p),
          ),
          own,
        ),
        refl,
      )

-- A process seeks one of its descriptors: the kernel's table, which `read` goes by, stays as it was.
pub lseek_of_process :
    (i fd offset r : ℕ) (k k' : Kernel)
    → lseek fd offset (suc i) k ≡ ok (r, k')
    → (k'.fd_list ≡ k.fd_list) × (k'.keys ≡ k.keys) × (k'.console ≡ k.console)
unfolding lseek on_table
lseek_of_process i fd offset r k k' e = ground arith
