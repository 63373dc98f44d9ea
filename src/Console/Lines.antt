-- ===== src/Console/Lines.antt =====
-- What the kernel's printing code puts on the screen, as a grammar: `get_process_list` of
-- kernel/sched.c and `time` of kernel/kernel.c.
use mathlib.Core.List.{append-nil, append_assoc}
use rml.Base.{
  ℕ, ◌^◌, ◌<◌, true, List, [], ◌∷◌, ◌++◌, All, codes, literal, ◌==◌, Bool-cases, inl, inr,
  if◌then◌else◌, Outcome, ok, ◌>>=◌, ◌≡◌, refl, sym, ap, ◌∙◌,
}
use rml.Clib.Text.Scan.{text_of, has_nul}
use rml.Clib.Number.RoundTrip.{IsNumeral}
use rml.Sched.{ProcessDesc, Processes, ProcState, ready, wait, running, sleep}
use rml.Console.{
  Console, printk, print_uint, line, state_name, print_process, print_processes, get_process_list,
}
use rml.Console.Laws.{printk_lem}
use rml.Console.Numbers.{IsReady, print_uint_lem}

-- A text; the decimal digits of a number; one after the other.
abbrev pub Exactly : List ℕ → List ℕ → Type 0
Exactly t s = s ≡ t

abbrev pub Decimal : ℕ → List ℕ → Type 0
Decimal n s = (digits : List ℕ) × IsNumeral n digits × (s ≡ text_of digits)

infixr 6 ◌followed_by◌
abbrev pub ◌followed_by◌ : (List ℕ → Type 0) → (List ℕ → Type 0) → List ℕ → Type 0
◌followed_by◌ P Q s = (a : List ℕ) × (b : List ℕ) × (s ≡ a ++ b) × P a × Q b

-- From a console that is ready the code ends, and puts a text of the form behind the screen.
abbrev pub Writes : (List ℕ → Type 0) → (Console → Outcome Console) → Type 0
Writes P f =
    (con : Console)
    → IsReady con
    → (con' : Console) × (s : List ℕ) × (f con ≡ ok con')
      × P s
      × (con'.screen ≡ con.screen ++ s)
      × IsReady con'

module _ {P Q : List ℕ → Type 0} {f g : Console → Outcome Console} where
  infixr 6 ◌then_write◌
  pub ◌then_write◌ : Writes P f → Writes Q g → Writes (P followed_by Q) (λ con. f con >>= g)
  ◌then_write◌ p q con r =
      let (c1, s1, run1, a, screen1, r1) = p con r in
      let (c2, s2, run2, b, screen2, r2) = q c1 r1 in
      (
        c2,
        s1 ++ s2,
        ap (λ o. o >>= g) run1 ∙ run2,
        (s1, s2, refl, a, b),
        screen2 ∙ ap (λ t. t ++ s2) screen1 ∙ append_assoc con.screen s1 s2,
        r2,
      )

pub printk-Writes : (s : List ℕ) → has_nul s ≡ true → Writes (Exactly (text_of s)) (printk s)
printk-Writes s h con r = (
  record con { screen = con.screen ++ text_of s },
  text_of s,
  printk_lem s con h,
  refl,
  refl,
  record { size = r.size; last = r.last },
)

pub print_uint-Writes : (n : ℕ) → n < 10 ^ 6 → Writes (Decimal n) (print_uint n)
print_uint-Writes n h con r =
    let (s, con', run, numeral, screen, r') = print_uint_lem n con h r in
    (con', text_of s, run, (s, numeral, refl), screen, r')

-- A process that `get_process_list` can print: numbers of at most six digits and a terminated name.
pub record IsPrintable (d : ProcessDesc) : Type 0 where
  pub pid : d.pid < 10 ^ 6
  pub ppid : d.ppid < 10 ^ 6
  pub segment : d.cs < 10 ^ 6
  pub size : d.size < 10 ^ 6
  pub name : has_nul d.name ≡ true

abbrev pub state_text : ProcState → List ℕ
state_text ready = codes "READY"
state_text wait = codes "WAIT"
state_text running = codes "RUNNING"
state_text sleep = codes "UNKNOWN"

abbrev pub Space : List ℕ → Type 0
Space = Exactly (32 ∷ [])

-- The line of a process.
abbrev pub ProcessLine : ProcessDesc → List ℕ → Type 0
ProcessLine d =
    Exactly (codes "root")
    followed_by Space
    followed_by Decimal d.pid
    followed_by Space
    followed_by Decimal d.ppid
    followed_by Space
    followed_by Decimal d.cs
    followed_by Space
    followed_by Exactly (state_text d.state)
    followed_by Space
    followed_by Decimal d.size
    followed_by Space
    followed_by Exactly (text_of d.name)
    followed_by Exactly (13 ∷ 10 ∷ [])

-- A line for each slot that is taken, in the order of the table.
abbrev pub ProcessLines : List ProcessDesc → List ℕ → Type 0
ProcessLines [] = Exactly []
ProcessLines (d ∷ table) =
    if d.pid == 0 then ProcessLines table else ProcessLine d followed_by ProcessLines table

state_name-Writes :
    (state : ProcState) → Writes (Exactly (state_text state)) (printk (state_name state))
unfolding state_name text_of has_nul
state_name-Writes ready = printk-Writes (literal "READY") refl
state_name-Writes wait = printk-Writes (literal "WAIT") refl
state_name-Writes running = printk-Writes (literal "RUNNING") refl
state_name-Writes sleep = printk-Writes (literal "UNKNOWN") refl

pub Space-Writes : Writes Space (printk (literal " "))
unfolding text_of has_nul
Space-Writes = printk-Writes (literal " ") refl

pub line-Writes : Writes (Exactly (13 ∷ 10 ∷ [])) (printk (line []))
unfolding text_of has_nul
line-Writes = printk-Writes (line []) refl

print_process-Writes : (d : ProcessDesc) → IsPrintable d → Writes (ProcessLine d) (print_process d)
unfolding print_process text_of has_nul
print_process-Writes d h =
    printk-Writes (literal "root") refl
    then_write Space-Writes
    then_write print_uint-Writes d.pid h.pid
    then_write Space-Writes
    then_write print_uint-Writes d.ppid h.ppid
    then_write Space-Writes
    then_write print_uint-Writes d.cs h.segment
    then_write Space-Writes
    then_write state_name-Writes d.state
    then_write Space-Writes
    then_write print_uint-Writes d.size h.size
    then_write Space-Writes
    then_write printk-Writes d.name h.name
    then_write line-Writes

nothing-Writes : Writes (Exactly []) (λ con. ok con)
nothing-Writes con r = (con, [], refl, refl, sym (append-nil con.screen), r)

print_processes-Writes :
    (table : List ProcessDesc)
    → All IsPrintable table
    → Writes (ProcessLines table) (print_processes table)
unfolding print_processes
print_processes-Writes [] h = nothing-Writes
print_processes-Writes (d ∷ table) h = elim (Bool-cases (d.pid == 0)) [
  | inl free ↦ (rw free (print_processes-Writes table h.1))
  | inr taken ↦ (rw taken (print_process-Writes d h.0 then_write print_processes-Writes table h.1))
]

-- The console's buffer for digits is ready; the numbers of every process have at most six digits
-- and its name is terminated. `get_process_list` ends and puts behind the screen the heading and,
-- in the order of the table, one line for each slot in use and none for the free ones: root, the
-- pid, the parent's pid, the code segment, the state, the size and the name, in decimal and with
-- spaces between.
pub get_process_list_lem :
    (p : Processes) (con : Console)
    → All IsPrintable p.table
    → IsReady con
    → (con' : Console) × (s : List ℕ) × (get_process_list p con ≡ ok con')
      × (Exactly (codes "USER PID PPID CS STAT SIZE NAME" ++ 13 ∷ 10 ∷ [])
            followed_by ProcessLines p.table)
          s
      × (con'.screen ≡ con.screen ++ s)
      × IsReady con'
unfolding get_process_list text_of has_nul
get_process_list_lem p con h r =
    (printk-Writes (line (codes "USER PID PPID CS STAT SIZE NAME")) refl
        then_write print_processes-Writes p.table h)
      con r
