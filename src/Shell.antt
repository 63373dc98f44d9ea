-- ===== src/Shell.antt =====
-- The line editor of utils/shell.c: the loop that reads a command. `getchar` takes the next key, and
-- `putchar` and `printf` append to the screen.
pub mod Keys
pub mod Line
use rml.Base.{
  ℕ, zero, suc, ◌+◌, ◌-◌, Bool, ◌&&◌, List, [], ◌∷◌, ◌++◌, length, set, ◌==◌, ltb, if◌then◌else◌,
  Outcome, ok, stop, bounds, blocked, ◌>>=◌,
}

-- `i`, `buf` and what the user sees.
pub record Editor : Type 0 where
  pub i : ℕ
  pub buf : List ℕ
  pub screen : List ℕ

-- The body of the inner loop, for a key that is not Enter.
unfoldable pub press : ℕ → Editor → Outcome Editor
press c s =
    if c == 8 && s.i == 0
    then ok s
    else if c == 8
    then ok (record s { i = s.i - 1; screen = s.screen ++ 8 ∷ 32 ∷ 8 ∷ [] })
    else if ltb s.i (length s.buf)
    then ok (record s { i = s.i + 1; buf = set s.buf s.i c; screen = s.screen ++ c ∷ [] })
    else stop bounds

-- `while ((in = getchar()) != 13) …`: what it leaves, and the keys behind Enter.
unfoldable pub edit : List ℕ → Editor → Outcome (Editor × List ℕ)
unfolding press
edit [] s = stop blocked
edit (c ∷ keys) s = if c == 13 then ok (s, keys) else (do s' ← press c s; edit keys s')

-- From the prompt to the NUL behind the command.
unfoldable pub read_line : List ℕ → List ℕ → List ℕ → Outcome (List ℕ × List ℕ × List ℕ)
unfolding edit
read_line keys buf screen = do
  (s, keys') ← edit keys (record { i = 0; buf = buf; screen = screen ++ 13 ∷ 10 ∷ b'#' ∷ 32 ∷ [] })
  if ltb s.i (length s.buf)
      then ok (set s.buf s.i 0, s.screen ++ 13 ∷ 10 ∷ [], keys')
      else stop bounds
