-- ===== src/Base/Masks.antt =====
-- `&` with a mask of consecutive bits, as division and remainder.
use Prim.Native.Nat.{
  ℕ, zero, suc, ◌+◌, ◌*◌, ◌/◌, ◌%◌, ◌^◌, ◌≤◌, ◌<◌, min, bit_and, digits, bit_and-bitwise,
}
use native.Mathlib.Nat.{
  pow-suc, one-le-pow, div-add-mod, mod-lt, mod-eq_of_lt, mul-add-mod_self_right,
  div-div-eq-div-mul, mul-div_cancel,
}
use mathlib.Core.Path.{◌≡◌, refl, sym, ap, ◌∙◌}
use native.Mathlib.Omega.{arith}

-- The binary digits of the conjunction, with fuel; enough fuel is as good as any.
abbrev conj : ℕ → ℕ → ℕ → ℕ
conj fuel a m = digits (λ _. 0) min fuel a m

conj-fuel : (f g a m : ℕ) → a ≤ f → a ≤ g → conj f a m ≡ conj g a m
conj-fuel zero zero zero m p q = refl
conj-fuel zero (suc g) zero m p q = refl
conj-fuel (suc f) zero zero m p q = refl
conj-fuel (suc f) (suc g) zero m p q = refl
conj-fuel f zero (suc a) m p q = absurd (omega arith)
conj-fuel zero (suc g) (suc a) m p q = absurd (omega arith)
conj-fuel (suc f) (suc g) (suc a) m p q =
    ap (λ (t : ℕ). t * 2 + min (suc a % 2) (m % 2))
      (conj-fuel f g (suc a / 2) (m / 2) (omega arith) (omega arith))

-- The lowest binary digit of a conjunction, and the others.
pub bit_and_halves : (a m : ℕ) → bit_and a m ≡ bit_and (a / 2) (m / 2) * 2 + min (a % 2) (m % 2)
bit_and_halves zero m = omega (arith, bit_and-bitwise 0 m, bit_and-bitwise 0 (m / 2))
bit_and_halves (suc a) m =
    let half = suc a / 2 in
    omega (
      arith,
      bit_and-bitwise (suc a) m,
      bit_and-bitwise half (m / 2),
      conj-fuel a half half (m / 2) (omega arith) (omega arith),
    )

-- `a & 0`
zeroes : (n a : ℕ) → a ≤ n → bit_and a 0 ≡ 0
zeroes n zero h = bit_and-bitwise 0 0
zeroes zero (suc a) h = absurd (omega arith)
zeroes (suc n) (suc a) h =
    omega (arith, bit_and_halves (suc a) 0, zeroes n (suc a / 2) (omega arith))

-- A mask of the `k` lowest bits, at the masks of the source.
pub bit_and-1 : (a : ℕ) → bit_and a 1 ≡ a % 2
bit_and-1 a = omega (arith, bit_and_halves a 1, zeroes (a / 2) (a / 2) (omega arith))

-- One more bit at the low end of a mask, set or not.
pub odd_mask : (a m : ℕ) → bit_and a (2 * m + 1) ≡ bit_and (a / 2) m * 2 + a % 2
odd_mask a m =
    let half : (2 * m + 1) / 2 ≡ m = omega arith in
    omega (arith, bit_and_halves a (2 * m + 1), ap (λ (t : ℕ). bit_and (a / 2) t) half)

pub even_mask : (a m : ℕ) → bit_and a (2 * m) ≡ bit_and (a / 2) m * 2
even_mask a m =
    let half : (2 * m) / 2 ≡ m = omega arith in
    omega (arith, bit_and_halves a (2 * m), ap (λ (t : ℕ). bit_and (a / 2) t) half)

-- 2 ^ k - 1, built up from its low end.
abbrev pub ones : ℕ → ℕ
ones zero = 0
ones (suc k) = 2 * ones k + 1

-- A low digit in front of a remainder.
digit_mod : (p a : ℕ) → 0 < p → a / 2 % p * 2 + a % 2 ≡ a % (p * 2)
digit_mod p a h =
    let q = a / 2 in
    let r = q % p * 2 + a % 2 in
    let whole : a ≡ q / p * (p * 2) + r = omega (arith, div-add-mod q p) in
    let small : r < p * 2 = omega (arith, mod-lt q h) in
    sym (
      ap (λ (t : ℕ). t % (p * 2)) whole
      ∙ (mul-add-mod_self_right (q / p) (p * 2) r ∙ mod-eq_of_lt small))

pub bit_and-ones : (k a : ℕ) → bit_and a (ones k) ≡ a % 2 ^ k
bit_and-ones zero a = omega (arith, zeroes a a (omega arith))
bit_and-ones (suc k) a =
    odd_mask a (ones k)
    ∙ (ap (λ (t : ℕ). t * 2 + a % 2) (bit_and-ones k (a / 2))
        ∙ rw (pow-suc 2 k) (digit_mod (2 ^ k) a (one-le-pow k 2 (omega arith))))

-- A mask shifted to the left by `s` takes the bits from `s` on.
abbrev pub shifted : ℕ → ℕ → ℕ
shifted zero m = m
shifted (suc s) m = 2 * shifted s m

shift_once :
    (s a m : ℕ) → bit_and (a / 2 / 2 ^ s) m * 2 ^ s * 2 ≡ bit_and (a / 2 ^ suc s) m * 2 ^ suc s
shift_once s a m =
    let power : 2 * 2 ^ s ≡ 2 ^ suc s = omega (arith, pow-suc 2 s) in
    let place = div-div-eq-div-mul a 2 (2 ^ s) ∙ ap (λ (t : ℕ). a / t) power in
    omega (
      arith,
      ap (λ (t : ℕ). bit_and t m * 2 ^ s * 2) place,
      ap (λ (t : ℕ). bit_and (a / 2 ^ suc s) m * t) power,
    )

pub bit_and-shifted : (s m a : ℕ) → bit_and a (shifted s m) ≡ bit_and (a / 2 ^ s) m * 2 ^ s
bit_and-shifted zero m a =
    let same : a / 1 ≡ a = omega arith in omega (arith, ap (λ (t : ℕ). bit_and t m) same)
bit_and-shifted (suc s) m a =
    even_mask a (shifted s m)
    ∙ (ap (λ (t : ℕ). t * 2) (bit_and-shifted s m (a / 2)) ∙ shift_once s a m)

-- The field of `k` bits from bit `s` on, by its mask and a shift to the right.
pub field_of : (s k a : ℕ) → bit_and a (shifted s (ones k)) / 2 ^ s ≡ a / 2 ^ s % 2 ^ k
field_of s k a =
    ap (λ (t : ℕ). t / 2 ^ s)
      (bit_and-shifted s (ones k) a ∙ ap (λ (t : ℕ). t * 2 ^ s) (bit_and-ones k (a / 2 ^ s)))
    ∙ mul-div_cancel (a / 2 ^ s % 2 ^ k) (one-le-pow s 2 (omega arith))
