-- ===== src/Clib/Text/Copy.antt =====
-- The copying functions of lib/string.c: what the destination holds afterwards, and when they
-- leave it.
use rml.Base.{
  ℕ, zero, suc, ◌≤◌, ◌<◌, true, List, [], ◌∷◌, ◌++◌, ok, stop, bounds, length, take, drop,
  replicate, ◌≡◌, refl, arith,
}
use rml.Clib.Text.{strcpy, memcpy, memset}
use rml.Clib.Text.Scan.{text_of, has_nul}

-- The source is terminated and the destination has room for the text and its NUL: `strcpy` ends,
-- the destination begins with the text and a NUL, and what stood behind is unchanged.
pub strcpy_lem :
    (dst src : List ℕ)
    → has_nul src ≡ true
    → length (text_of src) < length dst
    → strcpy dst src ≡ ok (text_of src ++ 0 ∷ drop (suc (length (text_of src))) dst)
unfolding strcpy has_nul text_of
strcpy_lem dst [] h k = ground arith
strcpy_lem [] (c ∷ src) h k = ground arith
strcpy_lem (d ∷ dst) (c ∷ src) h k = ground (arith, strcpy_lem dst src)

-- The source is terminated and the destination has no room for the text and its NUL: `strcpy`
-- writes past the destination's end.
pub strcpy_overflow :
    (dst src : List ℕ)
    → has_nul src ≡ true
    → length dst ≤ length (text_of src)
    → strcpy dst src ≡ stop bounds
unfolding strcpy has_nul text_of
strcpy_overflow dst [] h k = refl
strcpy_overflow [] (c ∷ src) h k = refl
strcpy_overflow (d ∷ dst) (c ∷ src) h k = ground (arith, strcpy_overflow dst src)

-- The text of what `strcpy` leaves is the text of the source.
pub text_of-append_nul : (s r : List ℕ) → text_of (text_of s ++ 0 ∷ r) ≡ text_of s
unfolding text_of
text_of-append_nul [] r = refl
text_of-append_nul (c ∷ s) r = ground (arith, text_of-append_nul s r)

-- `memcpy` of a count that fits both arrays copies exactly that prefix.
pub memcpy_lem :
    (dst src : List ℕ) (n : ℕ)
    → n ≤ length dst
    → n ≤ length src
    → memcpy dst src n ≡ ok (take n src ++ drop n dst)
unfolding memcpy
memcpy_lem dst src zero h k = refl
memcpy_lem dst [] (suc n) h k = absurd (omega arith)
memcpy_lem [] (c ∷ src) (suc n) h k = absurd (omega arith)
memcpy_lem (d ∷ dst) (c ∷ src) (suc n) h k =
    ground (arith, memcpy_lem dst src n (omega arith) (omega arith))

-- `memcpy` of more than the source or the destination holds leaves an array.
pub memcpy_short_src : (dst src : List ℕ) (n : ℕ) → length src < n → memcpy dst src n ≡ stop bounds
unfolding memcpy
memcpy_short_src dst src zero h = absurd (omega arith)
memcpy_short_src dst [] (suc n) h = refl
memcpy_short_src [] (c ∷ src) (suc n) h = refl
memcpy_short_src (d ∷ dst) (c ∷ src) (suc n) h =
    ground (arith, memcpy_short_src dst src n (omega arith))

pub memcpy_short_dst : (dst src : List ℕ) (n : ℕ) → length dst < n → memcpy dst src n ≡ stop bounds
unfolding memcpy
memcpy_short_dst dst src zero h = absurd (omega arith)
memcpy_short_dst dst [] (suc n) h = refl
memcpy_short_dst [] (c ∷ src) (suc n) h = refl
memcpy_short_dst (d ∷ dst) (c ∷ src) (suc n) h =
    ground (arith, memcpy_short_dst dst src n (omega arith))

-- `memset` within the array fills the prefix and leaves the rest.
pub memset_lem :
    (src : List ℕ) (c n : ℕ) → n ≤ length src → memset src c n ≡ ok (replicate n c ++ drop n src)
unfolding memset
memset_lem src c zero h = refl
memset_lem [] c (suc n) h = absurd (omega arith)
memset_lem (d ∷ src) c (suc n) h = ground (arith, memset_lem src c n (omega arith))
