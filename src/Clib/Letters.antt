-- ===== src/Clib/Letters.antt =====
-- lib/ctype.c and lib/utils.c: letters, and whole strings in upper or lower case. A `char` is its
-- byte: the bytes from 128 up are negative there, and no letters either way.
pub mod Laws
use rml.Base.{
  ℕ, zero, suc, ◌+◌, ◌-◌, Bool, ◌&&◌, List, get_elem?, set, Option, none, some, leb, ltb,
  if◌then◌else◌, Outcome, ok, stop, no_fuel, bounds, ◌>>=◌,
}
use rml.Clib.Text.{strlen}

unfoldable pub tolower : ℕ → ℕ
tolower c = if leb b'A' c && leb c b'Z' then b'a' + c - b'A' else c

unfoldable pub toupper : ℕ → ℕ
toupper c = if leb b'a' c && leb c b'z' then b'A' + c - b'a' else c

-- `string[i] = f(string[i])`
unfoldable pub convert_at : (ℕ → ℕ) → ℕ → List ℕ → Outcome (List ℕ)
convert_at f i string = elim (get_elem? string i) [
  | none ↦ stop bounds
  | some c ↦ ok (set string i (f c))
]

-- `for (i = …; i < strlen(string); i++)`: the length is taken again in every round.
unfoldable pub convert : (ℕ → ℕ) → ℕ → ℕ → List ℕ → Outcome (List ℕ)
convert f zero i string = stop no_fuel
convert f (suc fuel) i string = do
  len ← strlen string
  let again = (do next ← convert_at f i string; convert f fuel (i + 1) next)
  if ltb i len then again else ok string

unfoldable pub stolower : ℕ → List ℕ → Outcome (List ℕ)
unfolding convert convert_at tolower
stolower fuel string = convert tolower fuel 0 string

unfoldable pub stoupper : ℕ → List ℕ → Outcome (List ℕ)
unfolding convert convert_at toupper
stoupper fuel string = convert toupper fuel 0 string
