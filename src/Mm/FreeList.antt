-- ===== src/Mm/FreeList.antt =====
-- What the kernel may rely on of the segment table (mm/mm.c).
use rml.Base.{
  ℕ, ◌≤◌, true, false, not, ◌&&◌, ◌||◌, [], ◌∷◌, ◌==◌, ◌≡◌, ◌≢◌, refl, sym, subst, arith, ap, ◌∙◌,
}
use rml.Mm.{Segs, init_seg, get_free_seg, release_seg}
use rml.Mm.Laws.{
  addresses, is_seg, is_free, any_free, Distinct, addresses-get_free_seg, addresses-release_seg,
  is_free-get_free_seg, free_after, found_ne, seg_of_free, release_after, holds, is_seg-holds,
}

-- With a free segment in a table of distinct addresses, `get_free_seg` returns the address of one,
-- and afterwards exactly that one is free no more; the addresses stay.
pub get_free_seg_lem :
    (stale : ℕ) (segs : Segs)
    → Distinct (addresses segs)
    → any_free segs ≡ true
    → let (a, segs') = get_free_seg stale segs in
      (is_free a segs ≡ true)
      × ((b : ℕ) → is_free b segs' ≡ (is_free b segs && not (b == a)))
      × (addresses segs' ≡ addresses segs)
get_free_seg_lem stale segs d h = (
  is_free-get_free_seg stale segs h,
  λ b. free_after stale segs b d h,
  addresses-get_free_seg stale segs,
)

-- With no free segment the table stays, and what is returned is the uninitialised variable.
pub get_free_seg_none :
    (stale : ℕ) (segs : Segs) → any_free segs ≡ false → get_free_seg stale segs ≡ (stale, segs)
unfolding get_free_seg any_free
get_free_seg_none stale [] h = refl
get_free_seg_none stale (s ∷ segs) h = ground (arith, get_free_seg_none stale segs)

-- In a table of distinct addresses `release_seg` makes free the segment of that address, if there
-- is one, and no other; the addresses stay.
pub release_seg_lem :
    (a : ℕ) (segs : Segs)
    → Distinct (addresses segs)
    → let segs' = (release_seg a segs).1 in
      ((b : ℕ) → is_free b segs' ≡ ((b == a && is_seg a segs) || is_free b segs))
      × (addresses segs' ≡ addresses segs)
release_seg_lem a segs d = (λ b. release_after a segs b d, addresses-release_seg a segs)

-- If no two segments have one address and a segment is free, releasing the segment that was just
-- taken gives back the whole table.
pub release_seg-get_free_seg :
    (stale : ℕ) (segs : Segs)
    → Distinct (addresses segs)
    → any_free segs ≡ true
    → let (a, segs') = get_free_seg stale segs in (release_seg a segs').1 ≡ segs
unfolding get_free_seg release_seg any_free
release_seg-get_free_seg stale [] d h = refl
release_seg-get_free_seg stale (s ∷ segs) d h =
    ground (arith, release_seg-get_free_seg stale segs d.1, found_ne stale s.address segs)

-- The ten segments of `init_seg`, with those of the processor and of the kernel in use.
pub record IsValid (segs : Segs) : Type 0 where
  pub layout : addresses segs ≡ addresses init_seg
  pub vectors : is_free 0x0000 segs ≡ false
  pub kernel : is_free 0x1000 segs ≡ false

pub Distinct-init : Distinct (addresses init_seg)
unfolding init_seg
Distinct-init = ground arith

pub IsValid-Distinct : {segs : Segs} → IsValid segs → Distinct (addresses segs)
IsValid-Distinct v = subst (λ l. Distinct l) (sym v.layout) Distinct-init

-- `init_seg` establishes the invariant.
pub init_seg-IsValid : IsValid init_seg
unfolding init_seg is_free
init_seg-IsValid = record { layout = refl; vectors = refl; kernel = refl }

holds_init : (a : ℕ) → holds a (addresses init_seg) ≡ true → a ≢ 0 → a ≢ 0x1000 → 0x2000 ≤ a
unfolding holds init_seg
holds_init a h k g = ground arith

-- With a segment free, `get_free_seg` keeps the invariant and hands out a segment of 0x2000 or
-- higher, so neither the processor's nor the kernel's.
pub get_free_seg-IsValid :
    (stale : ℕ) (segs : Segs)
    → IsValid segs
    → any_free segs ≡ true
    → IsValid (get_free_seg stale segs).1 × (0x2000 ≤ (get_free_seg stale segs).0)
get_free_seg-IsValid stale segs v h =
    let after = λ (b : ℕ). free_after stale segs b (IsValid-Distinct v) h in
    let a = (get_free_seg stale segs).0 in
    let was = is_free-get_free_seg stale segs h in
    (
      record {
        layout = addresses-get_free_seg stale segs ∙ v.layout;
        vectors = rw (after 0x0000, v.vectors);
        kernel = rw (after 0x1000, v.kernel);
      },
      holds_init a
          (subst (λ l. holds a l ≡ true) v.layout
            (sym (is_seg-holds a segs) ∙ seg_of_free a segs was))
          (λ e. cc (was, v.vectors, ap (λ (t : ℕ). is_free t segs) e))
          (λ e. cc (was, v.kernel, ap (λ (t : ℕ). is_free t segs) e)),
    )

-- `release_seg` of an address of 0x2000 or higher keeps the invariant.
pub release_seg-IsValid :
    (a : ℕ) (segs : Segs) → 0x2000 ≤ a → IsValid segs → IsValid (release_seg a segs).1
release_seg-IsValid a segs h v =
    let after = λ (b : ℕ). release_after a segs b (IsValid-Distinct v) in
    record {
      layout = addresses-release_seg a segs ∙ v.layout;
      vectors = after 0x0000 ∙ ground (arith, v.vectors);
      kernel = after 0x1000 ∙ ground (arith, v.kernel);
    }
