-- ===== src/Clib/Number/RoundTrip.antt =====
-- The decimal texts of `uitoa`, `ultoa` and `itoa`: what they read as, and which numbers do not fit
-- their buffers.
use native.Mathlib.Nat.{pow-suc, one-le-pow}
use rml.Base.{
  ℕ, zero, suc, ◌+◌, ◌-◌, ◌^◌, ◌≤◌, ◌<◌, pos, negsuc, true, List, [], ◌∷◌, ◌++◌, All, length, drop,
  set, length-set, drop-set_self, Outcome, ok, stop, bounds, ◌≡◌, ◌≢◌, refl, arith, ap, ◌∙◌, dec_lt,
}
use rml.Clib.Text.Scan.{text_of, has_nul}
use rml.Clib.Number.{put_digits, put_sign, uitoa, ultoa, itoa}
use rml.Clib.Number.Digits.{IsDigit, Written, read_from, put_digits_lem, put_digits_overflow}

-- The array holds the decimal text of `i` and its NUL, with no digit more than `i` needs.
pub record IsNumeral (i : ℕ) (s : List ℕ) : Type 0 where
  pub ended : has_nul s ≡ true
  pub all_digits : All IsDigit (text_of s)
  pub some_digit : 0 < length (text_of s)
  pub value : read_from 0 (text_of s) ≡ i
  pub shortest : i ≢ 0 → 10 ^ (length (text_of s) - 1) ≤ i

digits_text :
    (ds r : List ℕ) → All IsDigit ds → (text_of (ds ++ 0 ∷ r) ≡ ds) × (has_nul (ds ++ 0 ∷ r) ≡ true)
unfolding text_of has_nul
digits_text [] r h = (refl, refl)
digits_text (c ∷ ds) r h = ground (arith, digits_text ds r h.1)

back : (k : ℕ) → suc k - 1 ≡ k
back k = omega arith

pub Written-IsNumeral :
    (p i : ℕ) (buf : List ℕ) (q : ℕ) (out r : List ℕ)
    → Written p i buf q out
    → drop p buf ≡ 0 ∷ r
    → IsNumeral i (drop q out)
Written-IsNumeral p i buf q out r w e =
    let t = digits_text w.digits r w.all_digits in
    rw (w.place, e)
      (record {
        ended = t.1;
        all_digits = rw (t.0) w.all_digits;
        some_digit = rw (t.0) (omega (arith, w.how_many));
        value = rw (t.0) w.value;
        shortest = rw (t.0, w.how_many) (λ n. rw (ap (λ k. 10 ^ k) (back w.more)) (w.lower n));
      })

-- What one of the functions returned holds the text of `i`.
abbrev pub Prints : Outcome (ℕ × List ℕ) → ℕ → Type 0
Prints r i = (q : ℕ) × (out : List ℕ) × (r ≡ ok (q, out)) × IsNumeral i (drop q out)

put_digits-Prints :
    (p i : ℕ) (buf r : List ℕ)
    → i < 10 ^ p
    → 0 < p
    → p ≤ length buf
    → drop p buf ≡ 0 ∷ r
    → Prints (put_digits p i buf) i
put_digits-Prints p i buf r h k g e =
    let (q, out, run, w) = put_digits_lem p i buf h k g in
    (q, out, run, Written-IsNumeral p i buf q out r w e)

-- Below a million `uitoa` returns the decimal text of its argument, in a buffer of 7 bytes whose
-- last is 0.
pub uitoa-Prints :
    (i : ℕ) (buf : List ℕ)
    → i < 10 ^ 6
    → length buf ≡ 7
    → drop 6 buf ≡ 0 ∷ []
    → Prints (uitoa i buf) i
unfolding uitoa
uitoa-Prints i buf h k e = put_digits-Prints 6 i buf [] h (omega arith) (omega arith) e

-- Every `unsigned long` has its decimal text from `ultoa`, whatever its 12 bytes held before.
pub ultoa-Prints : (i : ℕ) (buf : List ℕ) → i < 2 ^ 32 → length buf ≡ 12 → Prints (ultoa i buf) i
unfolding ultoa
ultoa-Prints i buf h k =
    put_digits-Prints 11 i (set buf 11 0) (drop 12 buf) (omega arith) (omega arith)
      (omega (arith, length-set buf 11 0)) (drop-set_self 11 buf 0 (omega arith))

-- `itoa` of a number from 0 to 999999 returns its decimal text.
pub itoa-Prints : (i : ℕ) (buf : List ℕ) → i < 10 ^ 6 → length buf ≡ 7 → Prints (itoa (pos i) buf) i
unfolding itoa
itoa-Prints i buf h k =
    put_digits-Prints 6 i (set buf 6 0) (drop 7 buf) h (omega arith)
      (omega (arith, length-set buf 6 0)) (drop-set_self 6 buf 0 (omega arith))

ten_pow_mono : (a b : ℕ) → a ≤ b → 10 ^ a ≤ 10 ^ b
ten_pow_mono zero b h = one-le-pow b 10 (omega arith)
ten_pow_mono (suc a) zero h = absurd (omega arith)
ten_pow_mono (suc a) (suc b) h =
    omega (arith, pow-suc 10 a, pow-suc 10 b, ten_pow_mono a b (omega arith))

-- The place that a number of one to five digits leaves free, and one of six does not.
place_left :
    (i more q : ℕ)
    → 10 ^ more ≤ i
    → i < 10 ^ suc more
    → q + suc more ≡ 6
    → (i < 10 ^ 5 → 0 < q) × (10 ^ 5 ≤ i → q ≡ 0)
place_left i more q h k e = elim (dec_lt more 5) [
  | yes l ↦ (λ _. omega arith, λ g. omega (arith, ten_pow_mono (suc more) 5))
  | no g ↦ (λ l. absurd (omega (arith, ten_pow_mono 5 more)), λ _. omega arith)
]

put_sign_lem :
    (q : ℕ) (out : List ℕ)
    → 0 < q
    → q ≤ length out
    → (p : ℕ) × (signed : List ℕ) × (put_sign q out ≡ ok (p, signed))
      × (drop p signed ≡ b'-' ∷ drop q out)
unfolding put_sign
put_sign_lem zero out h k = absurd (omega arith)
put_sign_lem (suc q) out h k = (q, set out q b'-', refl, drop-set_self q out b'-' (omega arith))

-- `itoa` of a number from -99999 to -1 returns a minus sign before the decimal text of its
-- magnitude.
pub itoa_negative :
    (n : ℕ) (buf : List ℕ)
    → n + 1 < 10 ^ 5
    → length buf ≡ 7
    → (q : ℕ) × (out : List ℕ) × (rest : List ℕ) × (itoa (negsuc n) buf ≡ ok (q, out))
      × (drop q out ≡ b'-' ∷ rest)
      × IsNumeral (n + 1) rest
unfolding itoa
itoa_negative n buf h k =
    let start = set buf 6 0 in
    let size : length start ≡ 7 = length-set buf 6 0 ∙ k in
    let (q, out, run, w) =
      put_digits_lem 6 (n + 1) start (omega arith) (omega arith) (omega arith) in
    let free =
      place_left (n + 1) w.more q (w.lower (omega arith)) w.upper
        (omega (arith, w.count, w.how_many)) in
    let (p, signed, sign, at_p) = put_sign_lem q out (free.0 h) (omega (arith, w.count, w.size)) in
    (
      p,
      signed,
      drop q out,
      rw run sign,
      at_p,
      Written-IsNumeral 6 (n + 1) start q out (drop 7 buf) w (drop-set_self 6 buf 0 (omega arith)),
    )

-- A negative number of six digits or more makes `itoa` write in front of its buffer.
pub itoa_overflow :
    (n : ℕ) (buf : List ℕ) → 10 ^ 5 ≤ n + 1 → length buf ≡ 7 → itoa (negsuc n) buf ≡ stop bounds
unfolding itoa put_sign
itoa_overflow n buf h k = elim (dec_lt (n + 1) (10 ^ 6)) [
  | no g ↦ rw (put_digits_overflow 6 (n + 1) (set buf 6 0) (omega arith))
  | yes l ↦
      let (q, out, run, w) =
        put_digits_lem 6 (n + 1) (set buf 6 0) l (omega arith)
          (omega (arith, length-set buf 6 0)) in
      let full =
        place_left (n + 1) w.more q (w.lower (omega arith)) w.upper
          (omega (arith, w.count, w.how_many)) in
      rw (run, full.1 h)
]

-- A number of seven digits or more makes `uitoa`, and `itoa` of it, write in front of the buffer.
pub uitoa_overflow :
    (n : ℕ) (buf : List ℕ)
    → 10 ^ 6 ≤ n
    → (uitoa n buf ≡ stop bounds) × (itoa (pos n) buf ≡ stop bounds)
unfolding uitoa itoa
uitoa_overflow n buf h = (put_digits_overflow 6 n buf h, put_digits_overflow 6 n (set buf 6 0) h)
