-- ===== src/Block/Transfer.antt =====
-- Reading a drive against the image of its disk.
use mathlib.Core.List.{append_assoc, append-nil}
use rml.Base.{
  ℕ, zero, suc, ◌+◌, ◌-◌, ◌*◌, ◌/◌, ◌%◌, ◌≤◌, ◌<◌, u8, true, false, List, [], ◌++◌, ltb, length,
  take, drop, length-drop, drop-drop, take_all, take-append, take-append_self, drop-append,
  take-append-drop, ok, stop, bounds, ◌≡◌, ◌≢◌, ◌⊎◌, inl, inr, ap, ◌∙◌, arith, Bool-cases, ltb-true,
  ltb-false,
}
use rml.Clib.Text.{memcpy}
use rml.Clib.Text.Copy.{memcpy_lem, memcpy_short_src}
use rml.Block.{Bios, Chs, turn, transfer, sectors_for, read_drive}
use rml.Block.Geometry.{
  StandsAt, lba_to_chs_lem, lba_to_chs_last, other_head, turn-next, OnDisk-StandsAt,
}

-- The BIOS reads the sectors of a disk: each has 512 bytes, and reading a place on the disk does not
-- fail and fills the buffer with the sector there.
pub record Serves (bios : Bios) (drive : ℕ) (disk : ℕ → List ℕ) : Type 0 where
  pub size : (lba : ℕ) → length (disk lba) ≡ 512
  pub reads :
      (c h s : ℕ) (buf : List ℕ)
      → c < 80
      → h < 2
      → 1 ≤ s
      → s ≤ 18
      → bios drive c h s buf ≡ (false, disk ((c * 2 + h) * 18 + (s - 1)))

-- The bytes of `n` sectors of a disk from sector `lba` on.
unfoldable pub image : (ℕ → List ℕ) → ℕ → ℕ → List ℕ
image disk lba zero = []
image disk lba (suc n) = disk lba ++ image disk (lba + 1) n

-- The destination begins with new bytes and keeps the rest.
abbrev pub stored : List ℕ → List ℕ → List ℕ
stored bytes dst = bytes ++ drop (length bytes) dst

module _ {bios : Bios} {drive : ℕ} {disk : ℕ → List ℕ} (d : Serves bios drive disk) where
  reply_at :
      (at : Chs) (lba : ℕ) (buf : List ℕ)
      → StandsAt at lba
      → bios drive (turn at).cylinder (turn at).head (turn at).sector buf ≡ (false, disk lba)
  reply_at at lba buf h =
      d.reads (turn at).cylinder (turn at).head (turn at).sector buf h.0.cylinder_in h.0.head_in
        h.0.sector_from h.0.sector_to
      ∙ ap (λ (k : ℕ). (false, disk k)) h.1

  -- The last round: no more than a sector is left.
  last_round :
      (num_bytes lba : ℕ) (at : Chs) (buf dst : List ℕ)
      → StandsAt at lba
      → num_bytes ≤ 512
      → num_bytes ≤ length dst
      → transfer bios drive 1 at num_bytes 0 buf dst
        ≡ ok (take num_bytes (disk lba) ++ drop num_bytes dst, 0)
  unfolding transfer
  last_round num_bytes lba at buf dst s h g =
      let small : ltb 512 num_bytes ≡ false = ltb-false 512 num_bytes h in
      let copied = memcpy_lem dst (disk lba) num_bytes g (omega (arith, d.size lba)) in
      rw (reply_at at lba buf s, small, copied)
        (rw (take-append-drop 512 (take num_bytes (disk lba) ++ drop num_bytes dst)))

  -- A round with more than a sector left: the sector goes in front of what the others store.
  full_round :
      (n num_bytes lba : ℕ) (at : Chs) (buf dst rest : List ℕ)
      → StandsAt at lba
      → 512 < num_bytes
      → num_bytes ≤ length dst
      → transfer bios drive n
          (record (turn at) { sector = u8 ((turn at).sector + 1) })
          (num_bytes - 512)
          0
          (disk lba)
          (drop 512 dst)
        ≡ ok (rest, 0)
      → transfer bios drive (suc n) at num_bytes 0 buf dst ≡ ok (disk lba ++ rest, 0)
  unfolding transfer
  full_round n num_bytes lba at buf dst rest s h g later =
      let big : ltb 512 num_bytes ≡ true = ltb-true 512 num_bytes h in
      let copied : memcpy dst (disk lba) 512 ≡ ok (disk lba ++ drop 512 dst) =
        memcpy_lem dst (disk lba) 512 (omega arith) (omega (arith, d.size lba))
        ∙ ap (λ t. ok (t ++ drop 512 dst)) (take_all 512 (disk lba) (omega (arith, d.size lba))) in
      rw (reply_at at lba buf s, big, copied)
        (rw (
          drop-append 512 (disk lba) (drop 512 dst) (d.size lba),
          take-append_self 512 (disk lba) (drop 512 dst) (d.size lba),
          later,
        ))

  join :
      (num_bytes lba : ℕ) (more dst : List ℕ)
      → 512 < num_bytes
      → disk lba ++ (take (num_bytes - 512) more ++ drop (num_bytes - 512) (drop 512 dst))
        ≡ take num_bytes (disk lba ++ more) ++ drop num_bytes dst
  join num_bytes lba more dst h =
      let split : 512 + (num_bytes - 512) ≡ num_bytes = omega arith in
      rw (drop-drop (num_bytes - 512) 512 dst, ← append_assoc)
        (rw (← take-append 512 (num_bytes - 512) (disk lba) more (d.size lba), split))

  -- The loop from the start of a sector, with as many rounds as the bytes need.
  transfer_aligned :
      (n num_bytes lba : ℕ) (at : Chs) (buf dst : List ℕ)
      → num_bytes ≤ 512 * n
      → 512 * n < num_bytes + 512
      → lba + n ≤ 2880
      → StandsAt at lba
      → num_bytes ≤ length dst
      → 0 < num_bytes
      → transfer bios drive n at num_bytes 0 buf dst
        ≡ ok (take num_bytes (image disk lba n) ++ drop num_bytes dst, 0)
  unfolding image
  transfer_aligned zero num_bytes lba at buf dst h k l s g z = absurd (omega arith)
  transfer_aligned (suc zero) num_bytes lba at buf dst h k l s g z =
      rw (append-nil (disk lba)) (last_round num_bytes lba at buf dst s (omega arith) g)
  transfer_aligned (suc (suc n)) num_bytes lba at buf dst h k l s g z =
      rw (← join num_bytes lba (image disk (lba + 1) (suc n)) dst (omega arith)) (
        full_round (suc n) num_bytes lba at buf dst _ s (omega arith) g (
          transfer_aligned (suc n) (num_bytes - 512) (lba + 1) _ (disk lba) (drop 512 dst)
            (omega arith) (omega arith) (omega arith) (turn-next at lba s (omega arith))
            (omega (arith, length-drop 512 dst)) (omega arith)))

-- Whether the reads of `read_drive` stay within single sectors: from the start of one, or inside
-- one.
abbrev pub InStep : ℕ → ℕ → Type 0
InStep at count = (at % 512 ≡ 0) ⊎ (at % 512 + count ≤ 512)

short_of :
    (off count : ℕ) (bytes : List ℕ)
    → length bytes ≡ 512
    → 512 < off + count
    → off < 512
    → length (drop off bytes) < count
short_of off count bytes e h o = omega (arith, length-drop off bytes)

sectors_for_bounds :
    (count : ℕ)
    → 0 < count
    → (count ≤ 512 * sectors_for count) × (512 * sectors_for count < count + 512)
unfolding sectors_for
sectors_for_bounds count h = ground arith

module _ {bios : Bios} {drive : ℕ} {disk : ℕ → List ℕ} (d : Serves bios drive disk) where
  -- A read inside one sector.
  read_inside :
      (count off lba : ℕ) (at : Chs) (buf dst : List ℕ)
      → StandsAt at lba
      → off + count ≤ 512
      → 0 < count
      → count ≤ length dst
      → transfer bios drive 1 at count off buf dst
        ≡ ok (take count (drop off (disk lba)) ++ drop count dst, 0)
  unfolding transfer
  read_inside count off lba at buf dst s h z g =
      let small : ltb 512 count ≡ false = ltb-false 512 count (omega arith) in
      let copied =
        memcpy_lem dst (drop off (disk lba)) count g
          (omega (arith, d.size lba, length-drop off (disk lba))) in
      rw (reply_at d at lba buf s, small, copied)
        (rw (take-append-drop (512 - off) (take count (drop off (disk lba)) ++ drop count dst)))

  -- Let the position be in a sector that is not the last of its track, and the read start at a
  -- sector's beginning or lie inside one sector. A count from 1 up that fits the destination and
  -- the disk is read without an error: exactly the bytes of the disk from the position on are
  -- stored, and the rest of the destination stays.
  pub read_drive_lem :
      (at count : ℕ) (buf dst : List ℕ)
      → at / 512 % 18 ≢ 17
      → InStep at count
      → at + count ≤ 2880 * 512
      → 0 < count
      → count ≤ length dst
      → read_drive bios drive at count buf dst
        ≡ ok (
          take count (drop (at % 512) (image disk (at / 512) (sectors_for count)))
              ++ drop count dst,
          0,
        )
  unfolding read_drive image
  read_drive_lem at count buf dst n step h z g =
      let rounds = sectors_for_bounds count z in
      let (place, found, same, on) = lba_to_chs_lem (at / 512) (omega arith) n in
      let here = OnDisk-StandsAt place (at / 512) on same in
      elim step [
        | inl start ↦
            rw (found, start)
              (transfer_aligned d (sectors_for count) count (at / 512) place buf dst rounds.0
                rounds.1 (omega arith) here g z)
        | inr inside ↦
            let one : sectors_for count ≡ 1 = omega arith in
            rw (found, one)
              (rw (append-nil (disk (at / 512)))
                (read_inside count (at % 512) (at / 512) place buf dst here inside z g))
      ]

  first_round_faults :
      (m count off lba : ℕ) (at : Chs) (buf dst : List ℕ)
      → StandsAt at lba
      → 0 < off
      → off < 512
      → 512 < off + count
      → transfer bios drive (suc m) at count off buf dst ≡ stop bounds
  unfolding transfer
  first_round_faults m count off lba at buf dst s o w h = elim (Bool-cases (ltb 512 count)) [
    | inl big ↦ rw (
      reply_at d at lba buf s,
      big,
      memcpy_short_src dst (drop off (disk lba)) 512
          (omega (arith, d.size lba, length-drop off (disk lba))),
    )
    | inr small ↦ rw (
      reply_at d at lba buf s,
      small,
      memcpy_short_src dst (drop off (disk lba)) count
          (short_of off count (disk lba) (d.size lba) h w),
    )
  ]

  -- A read of the 80 cylinders from inside a sector, not at its start, over its end copies from
  -- behind the sector buffer, unless the sector is the last of its track.
  pub read_drive_crossing :
      (at count : ℕ) (buf dst : List ℕ)
      → at / 512 % 18 ≢ 17
      → at % 512 ≢ 0
      → 512 < at % 512 + count
      → at < 2880 * 512
      → read_drive bios drive at count buf dst ≡ stop bounds
  unfolding read_drive
  read_drive_crossing at count buf dst n off h l =
      let rounds = sectors_for_bounds count (omega arith) in
      let (place, found, same, on) = lba_to_chs_lem (at / 512) (omega arith) n in
      let some_round : sectors_for count ≡ suc (sectors_for count - 1) = omega arith in
      rw (found, some_round)
        (first_round_faults (sectors_for count - 1) count (at % 512) (at / 512) place buf dst
          (OnDisk-StandsAt place (at / 512) on same) (omega arith) (omega arith) h)

  -- A read of at least one byte and at most one sector, from the start of the last sector of a track
  -- of the 80 cylinders into an array with room for it, stores the bytes of the sector under the
  -- other head.
  pub read_drive_last :
      (at count : ℕ) (buf dst : List ℕ)
      → at / 512 % 18 ≡ 17
      → at % 512 ≡ 0
      → at < 2880 * 512
      → 0 < count
      → count ≤ 512
      → count ≤ length dst
      → read_drive bios drive at count buf dst
        ≡ ok (take count (disk (other_head (at / 512))) ++ drop count dst, 0)
  unfolding read_drive
  read_drive_last at count buf dst n start l z h g =
      let rounds = sectors_for_bounds count z in
      let (place, found, same, on) = lba_to_chs_last (at / 512) (omega arith) n in
      let one : sectors_for count ≡ 1 = omega arith in
      rw (found, one, start)
        (read_inside count 0 (other_head (at / 512)) place buf dst
          (OnDisk-StandsAt place (other_head (at / 512)) on same) (omega arith) z g)
