-- ===== src/Clib/Text/Pad.antt =====
-- `strncpy` of lib/string.c: how much it copies, and when its padding loop does not end.
use rml.Base.{
  ℕ, zero, suc, ◌+◌, ◌≤◌, ◌<◌, true, List, [], ◌∷◌, ◌++◌, All, ok, stop, no_fuel, length,
  length-set, take, drop, set, ◌≡◌, ◌≢◌, refl, arith,
}
use rml.Clib.Text.{strncpy, strncpy_copy, strncpy_pad}
use rml.Clib.Text.Scan.{text_of, has_nul}

-- No NUL among the first characters: the first loop stops behind the last one it may copy.
copy_full :
    (k i n : ℕ) (dst src : List ℕ)
    → i + k ≡ n
    → All (λ c. c ≢ 0) (take k src)
    → k < length src
    → k < length dst
    → strncpy_copy i n dst src ≡ ok (n, take (suc k) src ++ drop (suc k) dst)
unfolding strncpy_copy
copy_full k i n dst [] e nz h g = absurd (omega arith)
copy_full k i n [] (c ∷ src) e nz h g = absurd (omega arith)
copy_full zero i n (d ∷ dst) (c ∷ src) e nz h g = ground arith
copy_full (suc k) i n (d ∷ dst) (c ∷ src) e nz h g =
    ground
      (arith, copy_full k (i + 1) n dst src (omega arith) nz.1 (omega arith) (omega arith), nz.0)

-- A NUL at `k`, before the count: the first loop stops there.
copy_short :
    (k i n : ℕ) (dst src : List ℕ)
    → length (text_of src) ≡ k
    → has_nul src ≡ true
    → i + k ≤ n
    → k < length dst
    → (out : List ℕ) × (strncpy_copy i n dst src ≡ ok (i + k, out)) × (length out ≡ length dst)
unfolding strncpy_copy text_of has_nul
copy_short k i n dst [] e t h g = ground arith
copy_short k i n [] (c ∷ src) e t h g = absurd (omega arith)
copy_short zero i n (d ∷ dst) (c ∷ src) e t h g = (c ∷ dst, ground arith, refl)
copy_short (suc k) i n (d ∷ dst) (c ∷ src) e t h g =
    let rest =
      copy_short k (i + 1) n dst src (ground arith) (ground arith) (omega arith) (omega arith) in
    (c ∷ rest.0, ground (arith, rest.1), omega (arith, rest.2))

pad_stays :
    (fuel i n : ℕ) (dst : List ℕ) → i < n → i < length dst → strncpy_pad fuel i n dst ≡ stop no_fuel
unfolding strncpy_pad
pad_stays zero i n dst h g = refl
pad_stays (suc fuel) i n dst h g = ground (
  arith,
  length-set dst i 0,
  pad_stays fuel i n (set dst i 0) h (omega (arith, length-set dst i 0)),
)

-- The first `n` characters of the source are no NULs and both arrays hold more than `n`: `strncpy`
-- ends and copies `n + 1` characters.
pub strncpy_lem :
    (fuel n : ℕ) (dst src : List ℕ)
    → All (λ c. c ≢ 0) (take n src)
    → n < length src
    → n < length dst
    → strncpy (suc fuel) dst src n ≡ ok (take (suc n) src ++ drop (suc n) dst)
unfolding strncpy
strncpy_lem fuel n dst src nz h g = ground (arith, copy_full n 0 n dst src (omega arith) nz h g)

-- The source is a text that ends two or more before the count, and the destination has room for
-- the count: `strncpy` ends with no fuel at any fuel, so its padding loop never ends.
pub strncpy_hangs :
    (fuel n : ℕ) (dst src : List ℕ)
    → has_nul src ≡ true
    → length (text_of src) + 1 < n
    → n ≤ length dst
    → strncpy fuel dst src n ≡ stop no_fuel
unfolding strncpy
strncpy_hangs fuel n dst src t h g =
    let k = length (text_of src) in
    let first = copy_short k 0 n dst src refl t (omega arith) (omega arith) in
    ground
      (arith, first.1, pad_stays fuel (0 + k + 1) n first.0 (omega arith) (omega (arith, first.2)))
