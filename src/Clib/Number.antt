-- ===== src/Clib/Number.antt =====
-- `itoa` and `ultoa` of lib/stdlib.c and `uitoa` of kernel/kernio.c. Each writes its digits from the
-- end of a static buffer downwards; the result is the place of the first and the buffer.
pub mod Digits
pub mod RoundTrip
use rml.Base.{
  ℕ, zero, suc, ◌+◌, ◌/◌, ◌%◌, ℤ, pos, negsuc, List, set, ◌==◌, if◌then◌else◌, Outcome, ok, stop,
  bounds, ◌>>=◌,
}

-- `do { *--p = '0' + (i % 10); i /= 10; } while (i != 0);` from the place `p` of the buffer.
unfoldable pub put_digits : ℕ → ℕ → List ℕ → Outcome (ℕ × List ℕ)
put_digits zero i buf = stop bounds
put_digits (suc p) i buf =
    let written = set buf p (b'0' + i % 10) in
    let again = put_digits p (i / 10) written in if i / 10 == 0 then ok (p, written) else again

-- The buffer has 7 bytes, and nothing stores its last one: it is 0 as static memory is.
unfoldable pub uitoa : ℕ → List ℕ → Outcome (ℕ × List ℕ)
uitoa i buf = put_digits 6 i buf

-- `*--p = '-'`
unfoldable pub put_sign : ℕ → List ℕ → Outcome (ℕ × List ℕ)
put_sign zero buf = stop bounds
put_sign (suc p) buf = ok (p, set buf p b'-')

-- A negative `i` leaves the digits of its magnitude: `%` and `/` of C round towards 0.
unfoldable pub itoa : ℤ → List ℕ → Outcome (ℕ × List ℕ)
unfolding put_sign
itoa (pos n) buf = put_digits 6 n (set buf 6 0)
itoa (negsuc n) buf = do (p, written) ← put_digits 6 (n + 1) (set buf 6 0); put_sign p written

-- `i >= 0` always holds of an unsigned number. The buffer has 12 bytes.
unfoldable pub ultoa : ℕ → List ℕ → Outcome (ℕ × List ℕ)
ultoa i buf = put_digits 11 i (set buf 11 0)
