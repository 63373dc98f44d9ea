-- ===== src/User/Editor.antt =====
-- How the shell of utils/shell.c reads a command: its loop over `getchar`, `putchar` and `printf`.
pub mod Keyboard
pub mod Refines
pub mod Command
use rml.Base.{
  ℕ, zero, suc, ◌+◌, ◌-◌, ◌&&◌, List, [], set, length, ltb, literal, ◌==◌, if◌then◌else◌, Outcome,
  ok, stop, bounds, no_fuel, ◌>>=◌,
}
use rml.Console.{line}
use rml.User.{User, Os}
use rml.User.Stdio.{putchar, getchar}
use rml.User.Utils.{print}

-- `i`, `buf` and the program's state.
abbrev pub Input : Type 0
Input = ℕ × List ℕ × User

module _ (o : Os) where
  -- The body of the inner loop for a key that is not Enter.
  unfoldable pub press_key : ℕ → ℕ → List ℕ → User → Outcome Input
  press_key c i buf u =
      if c == 8 && i == 0
      then ok (i, buf, u)
      else if c == 8
      then (do u1 ← putchar o c u; u2 ← putchar o b' ' u1; u3 ← putchar o c u2; ok (i - 1, buf, u3))
      else (do
        u1 ← putchar o c u
        (if ltb i (length buf) then ok (i + 1, set buf i c, u1) else stop bounds))

  -- `while ((in = getchar()) != 13) …`, each round with its own fuel. `stale` is the old content of
  -- the variable of `getchar`.
  unfoldable pub input_loop : ℕ → ℕ → ℕ → List ℕ → User → Outcome Input
  unfolding press_key
  input_loop zero stale i buf u = stop no_fuel
  input_loop (suc fuel) stale i buf u = do
    (c, u1) ← getchar o stale u
    let next = (do (i', buf', u2) ← press_key c i buf u1; input_loop fuel stale i' buf' u2)
    if c == 13 then ok (i, buf, u1) else next

  -- From the prompt to the NUL behind the command. Each round of the loop takes a key, so that the
  -- keys to come bound it.
  unfoldable pub read_command : ℕ → List ℕ → User → Outcome (List ℕ × User)
  read_command stale buf u = do
    u1 ← print o (line []) u
    u2 ← print o (literal "# ") u1
    (i, buf', u3) ← input_loop (suc (length u.kernel.keys)) stale 0 buf u2
    u4 ← print o (line []) u3
    (if ltb i (length buf') then ok (set buf' i 0, u4) else stop bounds)
