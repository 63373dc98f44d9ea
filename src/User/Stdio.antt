-- ===== src/User/Stdio.antt =====
-- lib/stdio.c: formatted output and characters over the system calls.
use rml.Base.{
  ℕ, ◌+◌, ℤ, Bool, true, false, ◌&&◌, List, [], ◌∷◌, drop, ◌==◌, if◌then◌else◌, Outcome, ok, stop,
  bounds, ◌>>=◌, get_or, replicate,
}
use rml.Clib.Text.{strlen, strcpy}
use rml.Clib.Number.{itoa}
use rml.User.{User, Os, mywrite, myread}

-- An argument of `printf`, as `va_arg` takes it: a string from its pointer on, or an int.
pub data Arg : Type 0 where
  string : List ℕ → Arg
  int : ℤ → Arg

unfoldable pub next_string : List Arg → Outcome (List ℕ × List Arg)
next_string (string s ∷ args) = ok (s, args)
next_string _ = stop bounds

unfoldable pub next_int : List Arg → Outcome (ℤ × List Arg)
next_int (int i ∷ args) = ok (i, args)
next_int _ = stop bounds

module _ (o : Os) where
  unfoldable pub putchar : ℕ → User → Outcome User
  putchar c u = do (_, u1) ← mywrite o 1 (c ∷ []) 1 u; ok u1

  -- `stale` is the old content of `in`.
  unfoldable pub getchar : ℕ → User → Outcome (ℕ × User)
  getchar stale u = do (_, buf, u1) ← myread o 0 (stale ∷ []) 1 u; ok (get_or buf 0 stale, u1)

  unfoldable pub fgetc : ℕ → ℕ → User → Outcome (ℕ × User)
  unfolding getchar
  fgetc fd stale u = if fd == 0 then getchar stale u else ok (0, u)

  unfoldable pub fputc : ℕ → ℕ → User → Outcome (ℕ × User)
  fputc c fd u = do (_, u1) ← mywrite o fd (c ∷ []) 1 u; ok (0, u1)

  -- `for (sval = …; *sval; sval++) putchar(*sval);`
  unfoldable pub put_string : List ℕ → User → Outcome User
  unfolding putchar
  put_string [] u = stop bounds
  put_string (c ∷ s) u = if c == 0 then ok u else (do u1 ← putchar c u; put_string s u1)

  -- The case of `%d`; `strnum` has 7 bytes.
  unfoldable pub put_int : ℤ → User → Outcome User
  put_int i u = do
    (p, buf) ← itoa i u.itoa_buf
    strnum ← strcpy (replicate 7 0) (drop p buf)
    len ← strlen strnum
    (_, u1) ← mywrite o 1 strnum len (record u { itoa_buf = buf })
    ok u1

  -- The loop of `vfprintf` at place `i` of the template; `pending` says that the `switch` behind a %
  -- comes first. With another letter it does nothing, and the letter is printed as any other.
  unfoldable pub vfprintf_from : ℕ → Bool → List ℕ → List Arg → User → Outcome (ℕ × User)
  unfolding putchar put_string put_int next_string next_int
  vfprintf_from i pending [] args u = stop bounds
  vfprintf_from i pending (c ∷ template) args u =
      if pending && c == b's'
      then (do
        (s, args') ← next_string args
        u1 ← put_string s u
        vfprintf_from (i + 1) false template args' u1)
      else if pending && c == b'd'
      then (do
        (n, args') ← next_int args
        u1 ← put_int n u
        vfprintf_from (i + 1) false template args' u1)
      else if c == 0
      then ok (i, u)
      else if c == b'%'
      then vfprintf_from (i + 1) true template args u
      else (do u1 ← putchar c u; vfprintf_from (i + 1) false template args u1)

  unfoldable pub vfprintf : ℕ → List ℕ → List Arg → User → Outcome (ℕ × User)
  unfolding vfprintf_from
  vfprintf fd template args u = if fd == 1 then vfprintf_from 0 false template args u else ok (0, u)

  unfoldable pub fprintf : ℕ → List ℕ → List Arg → User → Outcome (ℕ × User)
  unfolding vfprintf
  fprintf fd format args u = vfprintf fd format args u

  unfoldable pub printf : List ℕ → List Arg → User → Outcome (ℕ × User)
  unfolding vfprintf
  printf format args u = vfprintf 1 format args u
