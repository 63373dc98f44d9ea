-- ===== src/Mm/Laws.antt =====
-- The segment table as the set of its free addresses: what taking and releasing do to that set.
use rml.Base.{
  ℕ, Bool, true, false, not, ◌&&◌, ◌||◌, List, [], ◌∷◌, map, All, ◌==◌, ◌≡◌, ◌≢◌, refl, arith, ap,
}
use rml.Mm.{Segs, get_free_seg, release_seg}

abbrev pub addresses : Segs → List ℕ
addresses segs = map (λ s. s.address) segs

-- `a` is the address of a segment, of a free segment.
unfoldable pub is_seg : ℕ → Segs → Bool
is_seg a [] = false
is_seg a (s ∷ segs) = s.address == a || is_seg a segs

unfoldable pub is_free : ℕ → Segs → Bool
is_free a [] = false
is_free a (s ∷ segs) = (s.address == a && s.used == 0) || is_free a segs

unfoldable pub any_free : Segs → Bool
any_free [] = false
any_free (s ∷ segs) = s.used == 0 || any_free segs

abbrev pub Distinct : List ℕ → Type 0
Distinct [] = Unit
Distinct (a ∷ l) = All (λ b. b ≢ a) l × Distinct l

not_seg : (a : ℕ) (segs : Segs) → All (λ b. b ≢ a) (addresses segs) → is_seg a segs ≡ false
unfolding is_seg
not_seg a [] h = refl
not_seg a (s ∷ segs) h = ground (arith, not_seg a segs h.1)

not_free : (a : ℕ) (segs : Segs) → is_seg a segs ≡ false → is_free a segs ≡ false
unfolding is_seg is_free
not_free a [] h = refl
not_free a (s ∷ segs) h = ground (arith, not_free a segs)

-- Both functions keep the addresses.
pub addresses-get_free_seg :
    (stale : ℕ) (segs : Segs) → addresses (get_free_seg stale segs).1 ≡ addresses segs
unfolding get_free_seg
addresses-get_free_seg stale [] = refl
addresses-get_free_seg stale (s ∷ segs) = ground (arith, addresses-get_free_seg stale segs)

pub addresses-release_seg :
    (a : ℕ) (segs : Segs) → addresses (release_seg a segs).1 ≡ addresses segs
unfolding release_seg
addresses-release_seg a [] = refl
addresses-release_seg a (s ∷ segs) = ground (arith, addresses-release_seg a segs)

-- The segment that is handed out was free.
pub is_free-get_free_seg :
    (stale : ℕ) (segs : Segs)
    → any_free segs ≡ true
    → is_free (get_free_seg stale segs).0 segs ≡ true
unfolding get_free_seg any_free is_free
is_free-get_free_seg stale [] h = ground arith
is_free-get_free_seg stale (s ∷ segs) h = ground (arith, is_free-get_free_seg stale segs)

pub seg_of_free : (a : ℕ) (segs : Segs) → is_free a segs ≡ true → is_seg a segs ≡ true
unfolding is_seg is_free
seg_of_free a [] h = h
seg_of_free a (s ∷ segs) h = ground (arith, seg_of_free a segs)

-- The address that is handed out is that of no other segment in front of it.
pub found_ne :
    (stale a : ℕ) (segs : Segs)
    → any_free segs ≡ true
    → All (λ b. b ≢ a) (addresses segs)
    → (get_free_seg stale segs).0 ≢ a
found_ne stale a segs h d e = cc (
  seg_of_free _ segs (is_free-get_free_seg stale segs h),
  not_seg a segs d,
  ap (λ (t : ℕ). is_seg t segs) e,
)

pub free_after :
    (stale : ℕ) (segs : Segs) (b : ℕ)
    → Distinct (addresses segs)
    → any_free segs ≡ true
    → is_free b (get_free_seg stale segs).1
      ≡ (is_free b segs && not (b == (get_free_seg stale segs).0))
unfolding get_free_seg any_free is_free
free_after stale [] b d h = ground arith
free_after stale (s ∷ segs) b d h = ground (
  arith,
  not_free s.address segs (not_seg s.address segs d.0),
  ap (λ (t : ℕ). is_free t segs),
  free_after stale segs b d.1,
  found_ne stale s.address segs,
)

pub release_after :
    (a : ℕ) (segs : Segs) (b : ℕ)
    → Distinct (addresses segs)
    → is_free b (release_seg a segs).1 ≡ ((b == a && is_seg a segs) || is_free b segs)
unfolding release_seg is_seg is_free
release_after a [] b d = ground arith
release_after a (s ∷ segs) b d = ground (arith, not_seg a segs, release_after a segs b d.1)

-- An address among others.
unfoldable pub holds : ℕ → List ℕ → Bool
holds a [] = false
holds a (b ∷ l) = b == a || holds a l

pub is_seg-holds : (a : ℕ) (segs : Segs) → is_seg a segs ≡ holds a (addresses segs)
unfolding is_seg holds
is_seg-holds a [] = refl
is_seg-holds a (s ∷ segs) = ground (arith, is_seg-holds a segs)
