-- ===== src/Fs/Volume/Load.antt =====
-- `load_file_content` of fs/msdos/fs.c: a chain of clusters becomes one stretch of memory.
use mathlib.Core.List.{append-nil}
use rml.Base.{
  ℕ, zero, suc, ◌+◌, ◌*◌, ◌/◌, ◌%◌, ◌^◌, ◌≤◌, ◌<◌, u32, List, [], ◌∷◌, ◌++◌, length, drop,
  update_at, get_elem?-update_at, update_at-update_at, drop_all, length-take, length-append,
  length-drop, ltb, ltb-true, ltb-false, if◌then◌else◌, Outcome, ok, ◌≡◌, subst, sym, ap, ◌∙◌,
  arith, inl, inr,
}
use rml.Block.{sectors_for}
use rml.Block.Transfer.{Serves, image, InStep}
use rml.Files.{FileDescriptor}
use rml.Kernel.{Kernel, Machine, advanced}
use rml.Kernel.Io.{IsDevice, CanRead, at_offset, bytes_at}
use rml.Fs.Layout.{Fat16Entry}
use rml.Fs.Volume.{
  read_cluster, load_to_memory, load_clusters, load_file_content, cluster_start, cluster_size,
}
use rml.Fs.Volume.Chain.{packed, after_seek_read, read_cluster_lem, get_next_cluster_lem}
use rml.Fs.Volume.Memory.{in_place, in_place-join, load_to_memory_lem}

-- Where a volume keeps its table and its clusters.
pub record Places : Type 0 where
  pub fat : ℕ
  pub cluster : ℕ → ℕ

abbrev pub entry_at : Places → ℕ → ℕ
entry_at v c = u32 (v.fat + u32 (c + c / 2))

abbrev pub places_of : Kernel → Places
places_of k = record { fat = k.s_pos.fat_section_start; cluster = λ c. cluster_start k c }

-- A cluster of 4096 bytes whose bytes and whose entry of the table `read_drive` can read.
pub record IsReadable (disk : ℕ → List ℕ) (e : ℕ → ℕ) (v : Places) (c : ℕ) : Type 0 where
  pub bytes : CanRead (v.cluster c) 4096
  pub entry : CanRead (entry_at v c) 2
  pub table :
      bytes_at disk (entry_at v c) 2 ≡ (packed e (c + c / 2) ∷ packed e (c + c / 2 + 1) ∷ [])

-- The chain of `n` clusters and one more from `c` on, the last one marked as the end of the file.
abbrev pub IsChain : (ℕ → List ℕ) → (ℕ → ℕ) → Places → ℕ → ℕ → Type 0
IsChain disk e v zero c = IsReadable disk e v c × (0xff8 ≤ e c)
IsChain disk e v (suc n) c = IsReadable disk e v c × (e c < 0xff8) × IsChain disk e v n (e c)

-- The bytes of those clusters, one after the other.
unfoldable pub file_bytes : (ℕ → List ℕ) → (ℕ → ℕ) → Places → ℕ → ℕ → List ℕ
file_bytes disk e v zero c = bytes_at disk (v.cluster c) 4096
file_bytes disk e v (suc n) c = bytes_at disk (v.cluster c) 4096 ++ file_bytes disk e v n (e c)

pub IsDevice-after : (p n : ℕ) (k : Kernel) → IsDevice 4 k → IsDevice 4 (after_seek_read p n k)
IsDevice-after p n k (d, found, own) =
    let t1 = update_at k.fd_list 4 (at_offset p) in
    (
      advanced n (at_offset p d),
      ground (
        arith,
        get_elem?-update_at t1 4 4 (advanced n),
        get_elem?-update_at k.fd_list 4 4 (at_offset p),
      ),
      own,
    )

-- What `load_clusters` leaves in memory for `count` bytes from `base` on, and in the rest: only the
-- position of descriptor 4 has changed.
abbrev pub Loads : Outcome Kernel → ℕ → ℕ → List ℕ → Kernel → Type 0
Loads r base count bytes k =
    (k' : Kernel) × (position : ℕ) × (r ≡ ok k')
    × ((p : ℕ) → k'.ram p ≡ in_place base count bytes k.ram p)
    × IsDevice 4 k'
    × (k' ≡ record k { fd_list = update_at k.fd_list 4 (at_offset position); ram = k'.ram })

module _ (m : Machine) {disk : ℕ → List ℕ} (served : Serves m.bios 1 disk) where
  length-image : (lba n : ℕ) → length (image disk lba n) ≡ 512 * n
  unfolding image
  length-image lba zero = omega arith
  length-image lba (suc n) = omega (
    arith,
    length-append (disk lba) (image disk (lba + 1) n),
    served.size lba,
    length-image (lba + 1) n,
  )

  length-cluster : (p : ℕ) → InStep p 4096 → length (bytes_at disk p 4096) ≡ 4096
  unfolding sectors_for
  length-cluster p (inl start) =
      length-take 4096 (drop (p % 512) (image disk (p / 512) 8))
        (omega (arith, length-drop (p % 512) (image disk (p / 512) 8), length-image (p / 512) 8))
  length-cluster p (inr inside) = absurd (omega arith)

  -- The cluster fills the whole buffer.
  read_whole :
      (c : ℕ) (buf : List ℕ) (k : Kernel)
      → IsDevice 4 k
      → cluster_size k.bs ≡ 4096
      → CanRead (cluster_start k c) 4096
      → length buf ≡ 4096
      → read_cluster m buf c k
        ≡ ok (bytes_at disk (cluster_start k c) 4096, after_seek_read (cluster_start k c) 4096 k)
  read_whole c buf k device size can fits =
      let p = cluster_start k c in
      read_cluster_lem m served buf c k device (subst (λ n. CanRead p n) (sym size) can)
        (omega (arith, size))
      ∙ ap (λ n. ok (bytes_at disk p n ++ drop n buf, after_seek_read p n k)) size
      ∙ ap (λ t. ok (bytes_at disk p 4096 ++ t, after_seek_read p 4096 k))
          (drop_all 4096 buf (omega arith))
      ∙ ap (λ t. ok (t, after_seek_read p 4096 k)) (append-nil (bytes_at disk p 4096))

  -- The kernel after a round for a cluster that has put the memory `ram` in place.
  abbrev after_round : ℕ → (ℕ → ℕ) → Kernel → Kernel
  after_round c ram k =
      after_seek_read (entry_at (places_of k) c) 2
        (record (after_seek_read (cluster_start k c) 4096 k) { ram = ram })

  -- One round of the loop.
  round :
      (e : ℕ → ℕ) (fuel c segment offset : ℕ) (buf : List ℕ) (k : Kernel) (ram : ℕ → ℕ)
      → ((i : ℕ) → e i < 4096)
      → IsDevice 4 k
      → cluster_size k.bs ≡ 4096
      → IsReadable disk e (places_of k) c
      → length buf ≡ 4096
      → offset + 4096 ≤ 2 ^ 16
      → load_to_memory segment offset (bytes_at disk (cluster_start k c) 4096) 4096 k.ram ≡ ok ram
      → load_clusters m (suc fuel) c segment offset buf k ≡ (
          if ltb (e c) 0xff8
          then load_clusters m fuel
              (e c)
              segment
              (offset + 4096)
              (bytes_at disk (cluster_start k c) 4096)
              (after_round c ram k)
          else ok (after_round c ram k))
  unfolding load_clusters
  round e fuel c segment offset buf k ram small device size can b o stored =
      let k1 = after_seek_read (cluster_start k c) 4096 k in
      let device1 = IsDevice-after (cluster_start k c) 4096 k device in
      let next =
        get_next_cluster_lem m served e c (record k1 { ram = ram }) device1 can.entry small
          can.table in
      let step : u32 (offset + 4096) ≡ offset + 4096 = omega arith in
      rw (read_whole c buf k device size can.bytes b, stored, next, step)

  -- Of the descriptors a round moves descriptor 4 and no other.
  round_moved :
      (c : ℕ) (ram : ℕ → ℕ) (k : Kernel)
      → (after_round c ram k).fd_list
        ≡ update_at k.fd_list 4 (at_offset (u32 (entry_at (places_of k) c + 2)))
  round_moved c ram k =
      let t1 = update_at k.fd_list 4 (at_offset (cluster_start k c)) in
      let t2 = update_at t1 4 (advanced 4096) in
      let seek = at_offset (entry_at (places_of k) c) in
      let there = at_offset (u32 (entry_at (places_of k) c + 2)) in
      update_at-update_at t2 4 seek (advanced 2)
      ∙ update_at-update_at t1 4 (advanced 4096) there
      ∙ update_at-update_at k.fd_list 4 (at_offset (cluster_start k c)) there

  IsDevice-round :
      (c : ℕ) (ram : ℕ → ℕ) (k : Kernel) → IsDevice 4 k → IsDevice 4 (after_round c ram k)
  IsDevice-round c ram k device =
      IsDevice-after (entry_at (places_of k) c) 2
        (record (after_seek_read (cluster_start k c) 4096 k) { ram = ram })
        (IsDevice-after (cluster_start k c) 4096 k device)

  load_clusters_lem :
      (e : ℕ → ℕ) (fuel n c segment offset : ℕ) (buf : List ℕ) (k : Kernel)
      → ((i : ℕ) → e i < 4096)
      → IsDevice 4 k
      → cluster_size k.bs ≡ 4096
      → IsChain disk e (places_of k) n c
      → n < fuel
      → segment < 2 ^ 16
      → offset + 4096 * (n + 1) ≤ 2 ^ 16
      → length buf ≡ 4096
      → Loads
          (load_clusters m fuel c segment offset buf k)
          (segment * 16 + offset)
          (4096 * (n + 1))
          (file_bytes disk e (places_of k) n c)
          k
  unfolding file_bytes
  load_clusters_lem e zero n c segment offset buf k small device size chain f s o b =
      absurd (omega arith)
  load_clusters_lem e (suc fuel) zero c segment offset buf k small device size (can, last) f s o b =
      let bytes = bytes_at disk (cluster_start k c) 4096 in
      let filled = length-cluster (cluster_start k c) can.bytes.in_step in
      let (ram, stored, holds) =
        load_to_memory_lem segment offset 4096 bytes k.ram s (omega arith) (omega arith)
          (omega arith) (omega (arith, filled)) in
      (
        after_round c ram k,
        u32 (entry_at (places_of k) c + 2),
        round e fuel c segment offset buf k ram small device size can b (omega arith) stored
            ∙ ap
                (λ t.
                  if t
                  then load_clusters m fuel (e c) segment (offset + 4096) bytes
                      (after_round c ram k)
                  else ok (after_round c ram k))
                (ltb-false (e c) 0xff8 last),
        holds,
        IsDevice-round c ram k device,
        ap {A = List FileDescriptor} (λ t. record k { fd_list = t; ram = ram })
            (round_moved c ram k),
      )
  load_clusters_lem e (suc fuel) (suc n) c segment offset buf k small device size (can, more, chain)
        f s o b =
      let bytes = bytes_at disk (cluster_start k c) 4096 in
      let filled = length-cluster (cluster_start k c) can.bytes.in_step in
      let (ram, stored, holds) =
        load_to_memory_lem segment offset 4096 bytes k.ram s (omega arith) (omega arith)
          (omega arith) (omega (arith, filled)) in
      let (k', position, run, behind, device', same) =
        load_clusters_lem e fuel n (e c) segment (offset + 4096) bytes (after_round c ram k) small
          (IsDevice-round c ram k device) size chain (omega arith) s (omega arith) filled in
      (
        k',
        position,
        round e fuel c segment offset buf k ram small device size can b (omega arith) stored
            ∙ ap
                (λ t.
                  if t
                  then load_clusters m fuel (e c) segment (offset + 4096) bytes
                      (after_round c ram k)
                  else ok (after_round c ram k))
                (ltb-true (e c) 0xff8 more)
            ∙ run,
        in_place-join (segment * 16 + offset) (segment * 16 + (offset + 4096)) (4096 * (n + 1))
            (4096 * (suc n + 1)) bytes (file_bytes disk e (places_of k) n (e c)) k.ram ram k'.ram
            filled (omega arith) (omega arith) holds behind,
        device',
        same
            ∙ ap {A = List FileDescriptor} (λ t. record k { fd_list = t; ram = k'.ram })
                (ap (λ t. update_at t 4 (at_offset position)) (round_moved c ram k)
                  ∙ update_at-update_at k.fd_list 4 (at_offset (u32 (entry_at (places_of k) c + 2)))
                      (at_offset position)),
      )

  pub load_file_content_lem :
      (e : ℕ → ℕ) (fuel n segment offset : ℕ) (file : Fat16Entry) (buf : List ℕ) (k : Kernel)
      → ((i : ℕ) → e i < 4096)
      → IsDevice 4 k
      → cluster_size k.bs ≡ 4096
      → IsChain disk e (places_of k) n file.starting_cluster
      → n < fuel
      → segment < 2 ^ 16
      → offset + 4096 * (n + 1) ≤ 2 ^ 16
      → length buf ≡ 4096
      → Loads
          (load_file_content m fuel file segment offset buf k)
          (segment * 16 + offset)
          (4096 * (n + 1))
          (file_bytes disk e (places_of k) n file.starting_cluster)
          k
  unfolding load_file_content
  load_file_content_lem e fuel n segment offset file buf k =
      load_clusters_lem e fuel n file.starting_cluster segment offset buf k
