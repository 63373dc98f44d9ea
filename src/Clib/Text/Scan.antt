-- ===== src/Clib/Text/Scan.antt =====
-- The scanning functions of lib/string.c against the text that an array holds.
use rml.Base.{
  ℕ, zero, suc, ◌-◌, ℤ, pos, negsuc, Bool, true, false, ◌||◌, List, [], ◌∷◌, ◌==◌, ltb,
  if◌then◌else◌, ok, length, take, ◌≡◌, ◌↔◌, refl, arith, ap,
}
use rml.Clib.Text.{strcmp, strncmp, strlen}

-- The characters before the first NUL.
unfoldable pub text_of : List ℕ → List ℕ
text_of [] = []
text_of (c ∷ string) = if c == 0 then [] else c ∷ text_of string

-- There is a NUL in the array.
unfoldable pub has_nul : List ℕ → Bool
has_nul [] = false
has_nul (c ∷ string) = c == 0 || has_nul string

-- Alphabetical order: -1, 0 or 1, a prefix before what it begins.
unfoldable pub lexicographic : List ℕ → List ℕ → ℤ
lexicographic [] [] = pos 0
lexicographic [] (b ∷ t) = negsuc 0
lexicographic (a ∷ s) [] = pos 1
lexicographic (a ∷ s) (b ∷ t) =
    if a == b then lexicographic s t else if ltb a b then negsuc 0 else pos 1

-- On a terminated array `strlen` returns the length of its text.
pub strlen_lem : (s : List ℕ) → has_nul s ≡ true → strlen s ≡ ok (length (text_of s))
unfolding strlen text_of has_nul
strlen_lem [] h = ground arith
strlen_lem (c ∷ s) h = ground (arith, strlen_lem s)

-- On terminated arrays `strcmp` returns, without leaving either array, the alphabetical order of
-- the two texts.
pub strcmp-eq-lexicographic :
    (s t : List ℕ)
    → has_nul s ≡ true
    → has_nul t ≡ true
    → strcmp s t ≡ ok (lexicographic (text_of s) (text_of t))
unfolding strcmp text_of has_nul lexicographic
strcmp-eq-lexicographic [] t h k = ground arith
strcmp-eq-lexicographic (a ∷ s) [] h k = ground arith
strcmp-eq-lexicographic (a ∷ s) (b ∷ t) h k = ground (arith, strcmp-eq-lexicographic s t)

pub lexicographic_eq : (s t : List ℕ) → lexicographic s t ≡ pos 0 → s ≡ t
unfolding lexicographic
lexicographic_eq [] [] h = refl
lexicographic_eq [] (b ∷ t) h = ground arith
lexicographic_eq (a ∷ s) [] h = ground arith
lexicographic_eq (a ∷ s) (b ∷ t) h = ground (arith, lexicographic_eq s t)

pub lexicographic_refl : (s : List ℕ) → lexicographic s s ≡ pos 0
unfolding lexicographic
lexicographic_refl [] = refl
lexicographic_refl (a ∷ s) = ground (arith, lexicographic_refl s)

-- `strncmp` with count `n` returns 0 on terminated arrays exactly when the texts agree in their
-- first `n + 1` characters.
pub strncmp_zero_iff :
    (s t : List ℕ) (n : ℕ)
    → has_nul s ≡ true
    → has_nul t ≡ true
    → (strncmp s t n ≡ ok (pos 0)) ↔ (take (suc n) (text_of s) ≡ take (suc n) (text_of t))
unfolding strncmp text_of has_nul
strncmp_zero_iff [] t n h k = ground arith
strncmp_zero_iff (a ∷ s) [] n h k = ground arith
strncmp_zero_iff (a ∷ s) (b ∷ t) zero h k = ground arith
strncmp_zero_iff (a ∷ s) (b ∷ t) (suc n) h k =
    let back : suc n - 1 ≡ n = omega arith in
    ground (arith, strncmp_zero_iff s t n, ap (strncmp s t) back)
