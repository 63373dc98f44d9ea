-- ===== src/Tests/Text.antt =====
-- The theorems on the C library at concrete inputs.
use rml.Base.{ℕ, negsuc, List, replicate, ok, stop, bounds, codes, literal, ◌≡◌, refl, arith}
use rml.Clib.Text.{strcmp}
use rml.Clib.Text.Scan.{text_of, has_nul, lexicographic, strcmp-eq-lexicographic}
use rml.Clib.Number.{itoa, ultoa}
use rml.Clib.Number.RoundTrip.{Prints, ultoa-Prints, itoa_overflow}
use rml.Console.{Console}

abbrev word : List ℕ
word = literal "ls"

abbrev longer : List ℕ
longer = literal "lsx"

abbrev room : List ℕ
room = replicate 5 9

strcmp-eq-lexicographic_example : strcmp word longer ≡ ok (negsuc 0)
unfolding has_nul text_of lexicographic
strcmp-eq-lexicographic_example = strcmp-eq-lexicographic word longer refl refl

ultoa-Prints_example : Prints (ultoa 4294967295 (replicate 12 9)) 4294967295
ultoa-Prints_example = ultoa-Prints 4294967295 (replicate 12 9) (omega arith) (omega arith)

itoa_overflow_example : itoa (negsuc 99999) (replicate 7 9) ≡ stop bounds
itoa_overflow_example = itoa_overflow 99999 (replicate 7 9) (omega arith) (omega arith)

abbrev blank : Console
blank = record { screen = codes ">"; digits = replicate 7 0 }
