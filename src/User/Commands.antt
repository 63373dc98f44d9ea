-- ===== src/User/Commands.antt =====
-- The commands of utils/shell.c, and its loop.
use rml.Base.{
  ℕ, zero, suc, ◌+◌, Bool, List, [], ◌++◌, set, literal, ◌==◌, if◌then◌else◌, Outcome, ok, stop,
  no_fuel, ◌>>=◌,
}
use rml.Clib.Text.{strcmp}
use rml.Files.{is_zero}
use rml.Console.{line}
use rml.User.{User, Os, call_int, halt, reboot, user_time, system}
use rml.User.Stdio.{putchar, getchar}
use rml.User.Utils.{print}
use rml.User.Editor.{read_command}

-- `strcmp(buf, name) == 0`
unfoldable pub is_command : List ℕ → List ℕ → Outcome Bool
is_command buf name = do order ← strcmp buf name; ok (is_zero order)

module _ (o : Os) where
  -- `for (j = 0; j < 10; j++) …` of the command ccc from `j` on, with `n` rounds left.
  unfoldable pub echo_keys : ℕ → ℕ → ℕ → List ℕ → User → Outcome (List ℕ × User)
  echo_keys stale zero j buf u = ok (buf, u)
  echo_keys stale (suc n) j buf u = do
    (c, u1) ← getchar o stale u
    u2 ← putchar o c u1
    echo_keys stale n (j + 1) (set buf j c) u2

  unfoldable pub unknown_command : List ℕ → List ℕ → User → Outcome (List ℕ × User)
  unknown_command behind buf u = do
    (retcode, u1) ← system o (buf ++ behind) u
    u2 ←
        (if retcode == 0
          then ok u1
          else (do u2 ← print o buf u1; print o (literal ": command not found") u2))
    ok (buf, u2)

  unfoldable pub ccc_command : ℕ → List ℕ → User → Outcome (List ℕ × User)
  unfolding echo_keys
  ccc_command stale buf u = do
    (buf', u1) ← echo_keys stale 10 0 buf u
    u2 ← print o (line []) u1
    u3 ← print o (set buf' 10 0) u2
    ok (set buf' 10 0, u3)

  -- The choice of a command, with its tests taken first: whether the shell ends, and the buffer. `behind` is the memory behind
  -- the buffer, `stale` the old content of the variable of `getchar`.
  unfoldable pub run_command : ℕ → List ℕ → List ℕ → User → Outcome (Bool × List ℕ × User)
  unfolding ccc_command
  run_command stale behind buf u = do
    is_syscall ← is_command buf (literal "syscall")
    is_aaa ← is_command buf (literal "aaa")
    is_bbb ← is_command buf (literal "bbb")
    is_ccc ← is_command buf (literal "ccc")
    is_halt ← is_command buf (literal "halt")
    is_reboot ← is_command buf (literal "reboot")
    is_exit ← is_command buf (literal "exit")
    is_date ← is_command buf (literal "date")
    (buf', u') ←
        (if is_syscall
          then (do u1 ← call_int o u; ok (buf, u1))
          else if is_aaa
          then (do u1 ← print o (literal "Hello kernel!") u; ok (buf, u1))
          else if is_bbb
          then (do u1 ← putchar o b'S' u; ok (buf, u1))
          else if is_ccc
          then ccc_command stale buf u
          else if is_halt
          then (do u1 ← halt o u; ok (buf, u1))
          else if is_reboot
          then (do u1 ← reboot o u; ok (buf, u1))
          else if is_exit
          then ok (buf, u)
          else if is_date
          then (do u1 ← user_time o u; ok (buf, u1))
          else unknown_command behind buf u)
    ok (is_exit, buf', u')

  -- One round of the shell: a command is read, and run.
  unfoldable pub shell_round : ℕ → List ℕ → List ℕ → User → Outcome (Bool × List ℕ × User)
  unfolding run_command
  shell_round stale behind buf u = do
    (buf', u1) ← read_command o stale buf u
    run_command stale behind buf' u1

  -- The loop, for so many rounds.
  unfoldable pub shell : ℕ → ℕ → List ℕ → List ℕ → User → Outcome User
  unfolding shell_round
  shell zero stale behind buf u = stop no_fuel
  shell (suc rounds) stale behind buf u = do
    (ends, buf', u1) ← shell_round stale behind buf u
    let again = shell rounds stale behind buf' u1
    if ends then ok u1 else again
