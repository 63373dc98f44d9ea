-- ===== src/Clib/Number/Digits.antt =====
-- The digit loop: what it leaves in the buffer, and when it leaves the buffer.
use mathlib.Core.List.{append_assoc}
use native.Mathlib.Nat.{pow-suc, one-le-pow}
use rml.Base.{
  ℕ, zero, suc, ◌+◌, ◌-◌, ◌*◌, ◌/◌, ◌%◌, ◌^◌, ◌≤◌, ◌<◌, List, [], ◌∷◌, ◌++◌, All, length, drop, set,
  length-set, drop-set_self, ◌==◌, ok, stop, bounds, ◌≡◌, ◌≢◌, refl, arith, ◌∙◌, Bool-cases, inl,
  inr,
}
use rml.Clib.Number.{put_digits}

-- The number that decimal digits are read as.
unfoldable pub read_from : ℕ → List ℕ → ℕ
read_from acc [] = acc
read_from acc (c ∷ s) = read_from (acc * 10 + (c - b'0')) s

abbrev pub IsDigit : ℕ → Type 0
IsDigit c = (b'0' ≤ c) × (c ≤ b'9')

-- What the loop has done: from the place that it returns on stand digits that read as the number,
-- then what stood behind the place where it began. There are no more digits than `i` needs.
pub record Written (p i : ℕ) (buf : List ℕ) (q : ℕ) (out : List ℕ) : Type 0 where
  pub digits : List ℕ
  pub all_digits : All IsDigit digits
  pub more : ℕ
  pub how_many : length digits ≡ suc more
  pub value : read_from 0 digits ≡ i
  pub place : drop q out ≡ digits ++ drop p buf
  pub count : q + length digits ≡ p
  pub size : length out ≡ length buf
  pub lower : i ≢ 0 → 10 ^ more ≤ i
  pub upper : i < 10 ^ suc more

read_from-snoc :
    (acc c : ℕ) (s : List ℕ) → read_from acc (s ++ c ∷ []) ≡ read_from acc s * 10 + (c - b'0')
unfolding read_from
read_from-snoc acc c [] = refl
read_from-snoc acc c (d ∷ s) = read_from-snoc (acc * 10 + (d - b'0')) c s

All-snoc : (c : ℕ) (s : List ℕ) → All IsDigit s → IsDigit c → All IsDigit (s ++ c ∷ [])
All-snoc c [] h d = (d, tt)
All-snoc c (x ∷ s) h d = (h.0, All-snoc c s h.1 d)

length-snoc : (c : ℕ) (s : List ℕ) → length (s ++ c ∷ []) ≡ length s + 1
length-snoc c [] = refl
length-snoc c (x ∷ s) = omega (arith, length-snoc c s)

pos_of_digits : (p i : ℕ) → i < 10 ^ p → i ≢ 0 → 0 < p
pos_of_digits zero i h n = absurd (n (omega arith))
pos_of_digits (suc p) i h n = omega arith

-- One more round behind the others.
Written-snoc :
    (p i : ℕ) (buf : List ℕ) (q : ℕ) (out : List ℕ) {next : List ℕ}
    → length next ≡ length buf
    → p < length buf
    → i / 10 ≢ 0
    → drop p next ≡ (b'0' + i % 10) ∷ drop (suc p) buf
    → Written p (i / 10) next q out
    → Written (suc p) i buf q out
Written-snoc p i buf q out size g n at_p w = record {
  digits = w.digits ++ c ∷ [];
  all_digits = All-snoc c w.digits w.all_digits (omega arith);
  more = suc w.more;
  how_many = omega (arith, length-snoc c w.digits, w.how_many);
  value = rw (read_from-snoc 0 c w.digits, w.value) (omega arith);
  place = w.place ∙ rw (at_p, append_assoc w.digits (c ∷ []) (drop (suc p) buf));
  count = omega (arith, length-snoc c w.digits, w.count);
  size = w.size ∙ size;
  lower = λ _. omega (arith, w.lower n, pow-suc 10 w.more);
  upper = omega (arith, w.upper, pow-suc 10 (suc w.more));
}
  where
    c : ℕ
    c = b'0' + i % 10

-- A number of at most `p` digits fits: the loop ends inside the buffer.
pub put_digits_lem :
    (p i : ℕ) (buf : List ℕ)
    → i < 10 ^ p
    → 0 < p
    → p ≤ length buf
    → (q : ℕ) × (out : List ℕ) × (put_digits p i buf ≡ ok (q, out)) × Written p i buf q out
unfolding put_digits read_from
put_digits_lem zero i buf h k g = absurd (omega arith)
put_digits_lem (suc p) i buf h k g =
    let c : ℕ = b'0' + i % 10 in
    let at_p = drop-set_self p buf c g in
    let size = length-set buf p c in
    elim (Bool-cases (i / 10 == 0)) [
      | inl e ↦ (
        p,
        set buf p c,
        ground arith,
        record {
          digits = c ∷ [];
          all_digits = omega arith;
          more = 0;
          how_many = refl;
          value = ground arith;
          place = at_p;
          count = omega arith;
          size = size;
          lower = λ n. omega arith;
          upper = ground arith;
        },
      )
      | inr e ↦
          let (q, out, run, w) =
            put_digits_lem p (i / 10) (set buf p c) (omega (arith, pow-suc 10 p))
              (pos_of_digits p (i / 10) (omega (arith, pow-suc 10 p)) (ground arith))
              (omega (arith, size)) in
          (q, out, ground arith, Written-snoc p i buf q out size g (ground arith) at_p w)
    ]

-- A number of more than `p` digits does not: the loop writes in front of the buffer.
pub put_digits_overflow : (p i : ℕ) (buf : List ℕ) → 10 ^ p ≤ i → put_digits p i buf ≡ stop bounds
unfolding put_digits
put_digits_overflow zero i buf h = refl
put_digits_overflow (suc p) i buf h = ground (
  arith,
  pow-suc 10 p,
  one-le-pow p 10,
  put_digits_overflow p (i / 10) (set buf p (b'0' + i % 10)) (omega (arith, pow-suc 10 p)),
)
