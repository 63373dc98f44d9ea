-- ===== src/Console.antt =====
-- The screen: `write` and `printk` of kernel/kernio.c, and `get_process_list` of kernel/sched.c.
-- `b_putchar`, a BIOS call, appends one byte to the screen.
pub mod Laws
pub mod Numbers
pub mod Lines
use rml.Base.{
  ℕ, zero, suc, ◌+◌, Bool, ◌||◌, List, [], ◌∷◌, ◌++◌, drop, ◌==◌, if◌then◌else◌, Outcome, ok, stop,
  bounds, ◌>>=◌, codes, literal,
}
use rml.Clib.Text.{strlen}
use rml.Clib.Number.{uitoa}
use rml.Sched.{ProcessDesc, Processes, ProcState, ready, wait, running, sleep}

-- What has been printed, and the static buffer of `uitoa`.
pub record Console : Type 0 where
  pub screen : List ℕ
  pub digits : List ℕ

-- `for (i = 0; i < count; i++) b_putchar(buf[i]);`
unfoldable pub put_chars : List ℕ → ℕ → Console → Outcome Console
put_chars buf zero con = ok con
put_chars [] (suc count) con = stop bounds
put_chars (c ∷ buf) (suc count) con =
    put_chars buf count (record con { screen = con.screen ++ c ∷ [] })

unfoldable pub write : ℕ → List ℕ → ℕ → Console → Outcome (ℕ × Console)
unfolding put_chars
write fd buf count con =
    if fd == 1 || fd == 2
    then (do con' ← put_chars buf count con; ok (count, con'))
    else ok (count, con)

unfoldable pub printk : List ℕ → Console → Outcome Console
printk string con = do len ← strlen string; (_, con') ← write 1 string len con; ok con'

-- `printk(uitoa(i))`
unfoldable pub print_uint : ℕ → Console → Outcome Console
print_uint i con = do
  (p, digits) ← uitoa i con.digits
  printk (drop p digits) (record con { digits = digits })

-- A string of the source that ends in \r\n.
abbrev pub line : List ℕ → List ℕ
line s = s ++ 13 ∷ 10 ∷ 0 ∷ []

unfoldable pub state_name : ProcState → List ℕ
state_name ready = literal "READY"
state_name wait = literal "WAIT"
state_name running = literal "RUNNING"
state_name sleep = literal "UNKNOWN"

-- The line of `get_process_list` for one process.
unfoldable pub print_process : ProcessDesc → Console → Outcome Console
unfolding state_name
print_process d con = do
  c1 ← printk (literal "root") con
  c2 ← printk (literal " ") c1
  c3 ← print_uint d.pid c2
  c4 ← printk (literal " ") c3
  c5 ← print_uint d.ppid c4
  c6 ← printk (literal " ") c5
  c7 ← print_uint d.cs c6
  c8 ← printk (literal " ") c7
  c9 ← printk (state_name d.state) c8
  c10 ← printk (literal " ") c9
  c11 ← print_uint d.size c10
  c12 ← printk (literal " ") c11
  c13 ← printk d.name c12
  printk (line []) c13

unfoldable pub print_processes : List ProcessDesc → Console → Outcome Console
print_processes [] con = ok con
print_processes (d ∷ table) con = do
  con' ← (if d.pid == 0 then ok con else print_process d con)
  print_processes table con'

unfoldable pub get_process_list : Processes → Console → Outcome Console
unfolding print_processes
get_process_list p con = do
  con' ← printk (line (codes "USER PID PPID CS STAT SIZE NAME")) con
  print_processes p.table con'
