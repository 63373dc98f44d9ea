-- ===== src/Fs/Volume/Chain.antt =====
-- The FAT12 table that `get_next_cluster` of fs/msdos/fs.c reads, and the clusters.
use rml.Base.{
  ℕ, ◌+◌, ◌*◌, ◌/◌, ◌%◌, ◌≤◌, ◌<◌, u32, List, [], ◌∷◌, ◌++◌, length, drop, update_at, replicate,
  ◌⊎◌, inl, inr, ◌==◌, if◌then◌else◌, ok, ◌>>=◌, ◌≡◌, subst, bind_assoc, sym, ap, ◌∙◌, arith,
}
use rml.Base.Masks.{bit_and-1, bit_and-ones}
use rml.Block.Transfer.{Serves}
use rml.Kernel.{Kernel, Machine, lseek, read}
use rml.Kernel.Io.{IsDevice, CanRead, at_offset, bytes_at, after_read, seek_read}
use rml.Fs.Layout.{long_at}
use rml.Fs.Volume.{read_at, read_cluster, get_next_cluster, next_of, cluster_start, cluster_size}

-- The byte at a position of the FAT12 table with the entries `e`: two entries of 12 bits take three
-- bytes, the low one first.
abbrev pub packed : (ℕ → ℕ) → ℕ → ℕ
packed e i =
    let low = e (i / 3 * 2) in
    let high = e (i / 3 * 2 + 1) in
    if i % 3 == 0 then low % 256 else if i % 3 == 1 then low / 256 + high % 16 * 16 else high / 16

-- The two bytes that the table has for a cluster, as the number on a little-endian machine.
abbrev pub word_for : (ℕ → ℕ) → ℕ → ℕ
word_for e c = packed e (c + c / 2) + packed e (c + c / 2 + 1) * 256

packed-low : (e : ℕ → ℕ) (q : ℕ) → packed e (q * 3) ≡ e (q * 2) % 256
packed-low e q =
    let third : q * 3 / 3 ≡ q = omega arith in
    let rest : q * 3 % 3 ≡ 0 = omega arith in rw (third, rest)

packed-middle :
    (e : ℕ → ℕ) (q : ℕ) → packed e (q * 3 + 1) ≡ e (q * 2) / 256 + e (q * 2 + 1) % 16 * 16
packed-middle e q =
    let third : (q * 3 + 1) / 3 ≡ q = omega arith in
    let rest : (q * 3 + 1) % 3 ≡ 1 = omega arith in rw (third, rest)

packed-high : (e : ℕ → ℕ) (q : ℕ) → packed e (q * 3 + 2) ≡ e (q * 2 + 1) / 16
packed-high e q =
    let third : (q * 3 + 2) / 3 ≡ q = omega arith in
    let rest : (q * 3 + 2) % 3 ≡ 2 = omega arith in rw (third, rest)

parity : (c : ℕ) → (c ≡ c / 2 * 2) ⊎ (c ≡ c / 2 * 2 + 1)
parity c = ground arith

even_word :
    (e : ℕ → ℕ) (q : ℕ)
    → word_for e (q * 2) ≡ e (q * 2) % 256 + (e (q * 2) / 256 + e (q * 2 + 1) % 16 * 16) * 256
even_word e q =
    let here : q * 2 + q * 2 / 2 ≡ q * 3 = omega arith in
    rw (here, packed-low e q, packed-middle e q)

odd_word :
    (e : ℕ → ℕ) (q : ℕ)
    → word_for e (q * 2 + 1) ≡ e (q * 2) / 256 + e (q * 2 + 1) % 16 * 16 + e (q * 2 + 1) / 16 * 256
odd_word e q =
    let here : q * 2 + 1 + (q * 2 + 1) / 2 ≡ q * 3 + 1 = omega arith in
    let after : q * 3 + 1 + 1 ≡ q * 3 + 2 = omega arith in
    rw (here, after, packed-middle e q, packed-high e q)

next_of-even :
    (e : ℕ → ℕ) (q : ℕ) → ((i : ℕ) → e i < 4096) → next_of (q * 2) (word_for e (q * 2)) ≡ e (q * 2)
unfolding next_of
next_of-even e q h =
    let w = word_for e (q * 2) in
    ground (arith, bit_and-1 (q * 2), bit_and-ones 12 w, even_word e q, h (q * 2))

next_of-odd :
    (e : ℕ → ℕ) (q : ℕ)
    → ((i : ℕ) → e i < 4096)
    → next_of (q * 2 + 1) (word_for e (q * 2 + 1)) ≡ e (q * 2 + 1)
unfolding next_of
next_of-odd e q h =
    let w = word_for e (q * 2 + 1) in
    ground (arith, bit_and-1 (q * 2 + 1), odd_word e q, h (q * 2), h (q * 2 + 1))

-- For a table of entries below 4096, the decoding in `get_next_cluster` takes every cluster's entry
-- out of its two bytes, on even and on odd clusters.
pub next_of_lem : (e : ℕ → ℕ) (c : ℕ) → ((i : ℕ) → e i < 4096) → next_of c (word_for e c) ≡ e c
next_of_lem e c h = elim (parity c) [
  | inl even ↦ subst (λ n. next_of n (word_for e n) ≡ e n) (sym even) (next_of-even e (c / 2) h)
  | inr odd ↦ subst (λ n. next_of n (word_for e n) ≡ e n) (sym odd) (next_of-odd e (c / 2) h)
]

little_endian : (a b : ℕ) → long_at (a ∷ b ∷ 0 ∷ 0 ∷ []) 0 ≡ a + b * 256
little_endian a b = omega arith

-- The two bytes of the table for a cluster are on the disk.
abbrev pub HasEntry : (ℕ → List ℕ) → Kernel → (ℕ → ℕ) → ℕ → Type 0
HasEntry disk k e c =
    bytes_at disk (u32 (k.s_pos.fat_section_start + u32 (c + c / 2))) 2
    ≡ (packed e (c + c / 2) ∷ packed e (c + c / 2 + 1) ∷ [])

-- The kernel after the file system has read `count` bytes of drive B at `p`.
abbrev pub after_seek_read : ℕ → ℕ → Kernel → Kernel
after_seek_read p count k =
    after_read 4 count (record k { fd_list = update_at k.fd_list 4 (at_offset p) })

module _ (m : Machine) {disk : ℕ → List ℕ} (served : Serves m.bios 1 disk) where
  pub read_at_lem :
      (p count : ℕ) (buf : List ℕ) (k : Kernel)
      → IsDevice 4 k
      → CanRead p count
      → count ≤ length buf
      → read_at m p buf count k
        ≡ ok (bytes_at disk p count ++ drop count buf, after_seek_read p count k)
  unfolding read_at
  read_at_lem p count buf k device can fits =
      sym (bind_assoc (lseek 4 p 0 k) (λ s. read m 2 4 buf count 0 s.1) (λ r. ok (r.1, r.2)))
      ∙ ap (λ o. o >>= λ (r : ℕ × List ℕ × Kernel). ok (r.1, r.2))
          (seek_read m served 1 p count buf k device can fits)

  -- Let descriptor 4 be a device, and `read_drive` able to read the cluster. `read_cluster` stores the
  -- bytes of the disk from the cluster's beginning on, as many as a cluster has, and changes nothing
  -- but the position of drive B.
  pub read_cluster_lem :
      (buffer : List ℕ) (c : ℕ) (k : Kernel)
      → IsDevice 4 k
      → CanRead (cluster_start k c) (cluster_size k.bs)
      → cluster_size k.bs ≤ length buffer
      → read_cluster m buffer c k
        ≡ ok (
          bytes_at disk (cluster_start k c) (cluster_size k.bs) ++ drop (cluster_size k.bs) buffer,
          after_seek_read (cluster_start k c) (cluster_size k.bs) k,
        )
  unfolding read_cluster
  read_cluster_lem buffer c k device can fits =
      read_at_lem (cluster_start k c) (cluster_size k.bs) buffer k device can fits

  -- Let descriptor 4 be a device, and the disk hold the table of the entries `e`, all below 4096, at
  -- the two bytes that belong to the cluster and that `read_drive` can read. `get_next_cluster`
  -- returns the cluster's entry, and changes nothing but the position of drive B.
  pub get_next_cluster_lem :
      (e : ℕ → ℕ) (c : ℕ) (k : Kernel)
      → IsDevice 4 k
      → CanRead (u32 (k.s_pos.fat_section_start + u32 (c + c / 2))) 2
      → ((i : ℕ) → e i < 4096)
      → HasEntry disk k e c
      → get_next_cluster m c k
        ≡ ok (e c, after_seek_read (u32 (k.s_pos.fat_section_start + u32 (c + c / 2))) 2 k)
  unfolding get_next_cluster
  get_next_cluster_lem e c k device can h has =
      let entry =
        read_at_lem (u32 (k.s_pos.fat_section_start + u32 (c + c / 2))) 2 (replicate 4 0) k device
          can (omega arith) in
      rw entry (
        ap (λ v. ok (v, after_seek_read (u32 (k.s_pos.fat_section_start + u32 (c + c / 2))) 2 k))
          (ap (λ bytes. next_of c (long_at (bytes ++ (0 ∷ 0 ∷ [])) 0)) has
            ∙ ap (λ w. next_of c w)
                (little_endian (packed e (c + c / 2)) (packed e (c + c / 2 + 1)))
            ∙ next_of_lem e c h))
