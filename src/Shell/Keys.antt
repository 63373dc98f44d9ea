-- ===== src/Shell/Keys.antt =====
-- What the keys of a command make of the line, and the text in the buffer (utils/shell.c).
use mathlib.Core.List.{append_assoc}
use rml.Base.{
  ℕ, zero, suc, ◌+◌, ◌-◌, ◌≤◌, ◌<◌, Bool, true, false, ◌||◌, List, [], ◌∷◌, ◌++◌, length,
  length-append, take, length-take, length-set, drop, set, set-append, take-append-drop, All, ◌==◌,
  leb, if◌then◌else◌, ◌≡◌, ◌≢◌, refl, sym, ap, ◌∙◌, arith, Bool-cases, inl, inr,
}
use rml.Clib.Text.Scan.{text_of, has_nul}

-- A line without its last character.
abbrev pub erased : List ℕ → List ℕ
erased t = take (length t - 1) t

-- The line that keys make of a line, up to Enter: a character is added at the end, a backspace
-- removes the last one.
unfoldable pub line_of : List ℕ → List ℕ → List ℕ
line_of t [] = t
line_of t (c ∷ keys) =
    let add = line_of (t ++ c ∷ []) keys in
    let remove = line_of (erased t) keys in if c == 13 then t else if c == 8 then remove else add

-- The longest that a line of length `i` becomes under keys, up to Enter.
unfoldable pub peak : ℕ → List ℕ → ℕ
peak i [] = i
peak i (c ∷ keys) =
    let add = peak (i + 1) keys in
    let remove = peak (i - 1) keys in
    if c == 13 then i else if c == 8 then (if leb i remove then remove else i) else add

-- Enter is among the keys; the keys behind the first Enter.
unfoldable pub enters : List ℕ → Bool
enters [] = false
enters (c ∷ keys) = c == 13 || enters keys

unfoldable pub behind_enter : List ℕ → List ℕ
behind_enter [] = []
behind_enter (c ∷ keys) = let later = behind_enter keys in if c == 13 then keys else later

pub peak_from : (i : ℕ) (keys : List ℕ) → i ≤ peak i keys
unfolding peak
peak_from i [] = omega arith
peak_from i (c ∷ keys) = ground (arith, peak_from (i + 1) keys)

All-take : (n : ℕ) (t : List ℕ) → All (λ c. c ≢ 0) t → All (λ c. c ≢ 0) (take n t)
All-take zero t h = tt
All-take (suc n) [] h = tt
All-take (suc n) (x ∷ t) h = (h.0, All-take n t h.1)

All-snoc : (t : List ℕ) (c : ℕ) → All (λ d. d ≢ 0) t → c ≢ 0 → All (λ d. d ≢ 0) (t ++ c ∷ [])
All-snoc [] c h k = (k, tt)
All-snoc (x ∷ t) c h k = (h.0, All-snoc t c h.1 k)

pub erased_rest : (t r : List ℕ) → erased t ++ (drop (length t - 1) t ++ r) ≡ t ++ r
erased_rest t r =
    sym (append_assoc (erased t) (drop (length t - 1) t) r)
    ∙ ap (λ l. l ++ r) (take-append-drop (length t - 1) t)

pub length-erased : (t : List ℕ) → length (erased t) ≡ length t - 1
length-erased t = length-take (length t - 1) t (omega arith)

pub no_nul_kept :
    (keys t : List ℕ)
    → All (λ c. c ≢ 0) t
    → All (λ c. c ≢ 0) keys
    → All (λ c. c ≢ 0) (line_of t keys)
unfolding line_of
no_nul_kept [] t h k = h
no_nul_kept (c ∷ keys) t h k = elim (Bool-cases (c == 13)) [
  | inl enter ↦ rw enter h
  | inr other ↦ elim (Bool-cases (c == 8)) [
    | inl back ↦ rw (other, back) (no_nul_kept keys (erased t) (All-take (length t - 1) t h) k.1)
    | inr char ↦ rw (other, char) (no_nul_kept keys (t ++ c ∷ []) (All-snoc t c h k.0) k.1)
  ]
]

pub line_fits : (t keys : List ℕ) → length (line_of t keys) ≤ peak (length t) keys
unfolding line_of peak
line_fits t [] = omega arith
line_fits t (c ∷ keys) = ground (
  arith,
  line_fits (erased t) keys,
  line_fits (t ++ c ∷ []) keys,
  ap (λ i. peak i keys) (length-erased t),
  ap (λ i. peak i keys) (length-append t (c ∷ [])),
)

ended_text :
    (line r : List ℕ)
    → All (λ c. c ≢ 0) line
    → (text_of (line ++ 0 ∷ r) ≡ line) × (has_nul (line ++ 0 ∷ r) ≡ true)
unfolding text_of has_nul
ended_text [] r h = (refl, refl)
ended_text (c ∷ line) r h = ground (arith, ended_text line r h.1)

-- The NUL behind a line that is shorter than the buffer.
pub ended :
    (line rest : List ℕ)
    → All (λ c. c ≢ 0) line
    → length line < length (line ++ rest)
    → let buf = set (line ++ rest) (length line) 0 in
      (text_of buf ≡ line) × (has_nul buf ≡ true) × (length buf ≡ length (line ++ rest))
ended line [] z h = absurd (omega (arith, length-append line []))
ended line (x ∷ r) z h =
    let text = ended_text line r z in
    (
      ap text_of (set-append line x 0 r) ∙ text.0,
      ap has_nul (set-append line x 0 r) ∙ text.1,
      length-set (line ++ x ∷ r) (length line) 0,
    )
