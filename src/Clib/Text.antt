-- ===== src/Clib/Text.antt =====
-- lib/string.c. A pointer argument is the array from there on, as a list of bytes; the result of a
-- function that writes is its destination afterwards. `bounds` is an access past an array's end.
pub mod Scan
pub mod Copy
pub mod Pad
use rml.Base.{
  ℕ, zero, suc, ◌+◌, ◌-◌, ℤ, pos, negsuc, Bool, true, false, ◌&&◌, List, [], ◌∷◌, ◌==◌, ltb, not,
  if◌then◌else◌, Outcome, ok, stop, bounds, no_fuel, ◌>>=◌, length, set,
}

-- `do { i++; dst[i] = src[i]; } while (src[i] != 0);`
unfoldable pub strcpy : List ℕ → List ℕ → Outcome (List ℕ)
strcpy dst [] = stop bounds
strcpy [] (c ∷ src) = stop bounds
strcpy (d ∷ dst) (c ∷ src) =
    if c == 0 then ok (c ∷ dst) else do rest ← strcpy dst src; ok (c ∷ rest)

-- The first loop of `strncpy`, from index `i` on: what it leaves, and the last index it wrote.
unfoldable pub strncpy_copy : ℕ → ℕ → List ℕ → List ℕ → Outcome (ℕ × List ℕ)
strncpy_copy i n dst [] = stop bounds
strncpy_copy i n [] (c ∷ src) = stop bounds
strncpy_copy i n (d ∷ dst) (c ∷ src) =
    if not (c == 0) && ltb i n
    then (do (last, rest) ← strncpy_copy (i + 1) n dst src; ok (last, c ∷ rest))
    else ok (i, c ∷ dst)

-- `while (i < n) { dst[i] = 0; }`: the body does not change `i`.
unfoldable pub strncpy_pad : ℕ → ℕ → ℕ → List ℕ → Outcome (List ℕ)
strncpy_pad zero i n dst = stop no_fuel
strncpy_pad (suc fuel) i n dst =
    let again = strncpy_pad fuel i n (set dst i 0) in
    if ltb i n then (if ltb i (length dst) then again else stop bounds) else ok dst

unfoldable pub strncpy : ℕ → List ℕ → List ℕ → ℕ → Outcome (List ℕ)
unfolding strncpy_copy strncpy_pad
strncpy fuel dst src n = do
  (last, out) ← strncpy_copy 0 n dst src
  strncpy_pad fuel (last + 1) n out

unfoldable pub strcmp : List ℕ → List ℕ → Outcome ℤ
strcmp [] dst = stop bounds
strcmp (a ∷ src) [] = stop bounds
strcmp (a ∷ src) (b ∷ dst) =
    let next = strcmp src dst in
    if a == b
    then (if a == 0 then ok (pos 0) else next)
    else ok (if ltb a b then negsuc 0 else pos 1)

-- `left` is `n - i`.
unfoldable pub strncmp : List ℕ → List ℕ → ℕ → Outcome ℤ
strncmp [] dst left = stop bounds
strncmp (a ∷ src) [] left = stop bounds
strncmp (a ∷ src) (b ∷ dst) left =
    let next = strncmp src dst (left - 1) in
    if not (a == 0) && not (b == 0) && a == b && ltb 0 left
    then next
    else ok (if a == b then pos 0 else if a == 0 && not (b == 0) then negsuc 0 else pos 1)

unfoldable pub strlen : List ℕ → Outcome ℕ
strlen [] = stop bounds
strlen (c ∷ string) = if c == 0 then ok 0 else do len ← strlen string; ok (len + 1)

-- A negative count copies nothing, so `n` is the count from 0 up.
unfoldable pub memcpy : List ℕ → List ℕ → ℕ → Outcome (List ℕ)
memcpy dst src zero = ok dst
memcpy dst [] (suc n) = stop bounds
memcpy [] (c ∷ src) (suc n) = stop bounds
memcpy (d ∷ dst) (c ∷ src) (suc n) = do rest ← memcpy dst src n; ok (c ∷ rest)

unfoldable pub memset : List ℕ → ℕ → ℕ → Outcome (List ℕ)
memset src c zero = ok src
memset [] c (suc n) = stop bounds
memset (d ∷ src) c (suc n) = do rest ← memset src c n; ok (c ∷ rest)
