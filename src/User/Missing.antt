-- ===== src/User/Missing.antt =====
-- A command that names no program: utils/shell.c, the wrapper, `dispatch` and `run_program` together.
use mathlib.Core.List.{append-nil, append_assoc}
use rml.Base.{
  ℕ, zero, suc, ◌+◌, ◌≤◌, ◌<◌, true, false, List, [], ◌∷◌, ◌++◌, map, All, take, drop, drop_all,
  length, length-append, length-take, codes, none, ◌==◌, ok, ◌≡◌, ◌≢◌, refl, sym, ap, ◌∙◌, subst,
  arith,
}
use rml.Block.Transfer.{Serves}
use rml.Clib.Text.{memcpy}
use rml.Clib.Text.Copy.{memcpy_lem}
use rml.Clib.Text.Scan.{text_of, has_nul}
use rml.Clib.Letters.{toupper}
use rml.Console.Numbers.{Extends}
use rml.Mm.Laws.{addresses, Distinct, any_free}
use rml.Sched.{set_running_proc, get_running_proc}
use rml.Sched.Running.{switched, set_running_proc_lem}
use rml.Kernel.{Kernel}
use rml.Params.{put_bytes, long_bytes}
use rml.Fs.Directory.Walk.{dir_entries}
use rml.Fs.Entry.Names.{first_named}
use rml.Syscall.{System, ClockBytes, dispatch}
use rml.Program.{run_program}
use rml.Program.Load.{HasFiles, file_named, upper, length-map, run_program_missing}
use rml.User.{User, Os, syscall, user_run_program, system}
use rml.Params.Laws.{length-put_bytes}
use rml.User.Laws.{shown}
use rml.User.Stdio.{printf}
use rml.User.Printf.{IsRunning}
use rml.User.Template.{plain, template_of, args_of, IsItem, StandFor, printf_lem}
use rml.User.Utils.{print}
use rml.User.Commands.{unknown_command}

-- The kernel of these files, for programs that programs run at most `nesting` deep.
abbrev pub os_of : System → ℕ → ClockBytes → Os
os_of s nesting clock = record {
  system = s;
  run_program = run_program s (suc nesting);
  clock = clock;
}

text_tail : (s : List ℕ) → length (text_of s) + length (drop (length (text_of s)) s) ≡ length s
unfolding text_of
text_tail [] = refl
text_tail (c ∷ s) = ground (arith, text_tail s)

length-upper : (s : List ℕ) → length (upper s) ≡ length s
length-upper s = omega (
  arith,
  length-append (map toupper (text_of s)) (drop (length (text_of s)) s),
  length-map toupper (text_of s),
  text_tail s,
)

-- A text without NUL and without %.
abbrev pub IsPlain : List ℕ → Type 0
IsPlain text = All (λ c. (c ≢ 0) × (c ≢ b'%')) text

plain_template :
    (text : List ℕ) → (template_of (map plain text) ≡ text) × (args_of (map plain text) ≡ [])
unfolding template_of args_of
plain_template [] = (refl, refl)
plain_template (c ∷ text) = (ap (λ t. c ∷ t) (plain_template text).0, (plain_template text).1)

plain-IsItem : (text : List ℕ) → IsPlain text → All IsItem (map plain text)
plain-IsItem [] h = tt
plain-IsItem (c ∷ text) h = (h.0, plain-IsItem text h.1)

plain-StandFor : (text out : List ℕ) → StandFor (map plain text) out → out ≡ text
plain-StandFor [] out h = h
plain-StandFor (c ∷ text) out (s, rest, joined, one, stand) =
    joined ∙ ap (λ t. t ++ rest) one ∙ ap (λ t. c ∷ t) (plain-StandFor text rest stand)

message-IsPlain : IsPlain (codes ": command not found")
message-IsPlain = ground arith

text_of-take :
    (n : ℕ) (text tail : List ℕ)
    → IsPlain text
    → length text < n
    → (text_of (take n (text ++ 0 ∷ tail)) ≡ text) × (has_nul (take n (text ++ 0 ∷ tail)) ≡ true)
unfolding text_of has_nul
text_of-take zero text tail h k = absurd (omega arith)
text_of-take (suc n) [] tail h k = (refl, refl)
text_of-take (suc n) (c ∷ text) tail h k =
    let not_nul : (c == 0) ≡ false = ground (arith, h.0.0) in
    let (same, ended) = text_of-take n text tail h.1 (omega (arith, k)) in
    ((rw not_nul (ap (λ t. c ∷ t) same)), (rw not_nul ended))

-- `printf` of a plain text shows it.
pub print_lem :
    (o : Os) (text behind : List ℕ) (u : User)
    → IsRunning u
    → IsPlain text
    → (u' : User) × (print o (text ++ 0 ∷ behind) u ≡ ok u')
      × (u'.kernel ≡ shown text u.kernel)
      × IsRunning u'
unfolding print
print_lem o text behind u running h =
    let (n, u', out, run, stand, kernel, running') =
      printf_lem o (map plain text) behind u running (plain-IsItem text h) in
    let (same, none_left) = plain_template text in
    let prints : printf o (text ++ 0 ∷ behind) [] u ≡ ok (n, u') =
      ap (λ t. printf o (t ++ 0 ∷ behind) [] u) (sym same)
      ∙ ap (λ a. printf o (template_of (map plain text) ++ 0 ∷ behind) a u) (sym none_left)
      ∙ run in
    (
      u',
      (rw prints refl),
      kernel ∙ ap (λ t. shown t u.kernel) (plain-StandFor text out stand),
      running',
    )

module _ (s : System) {disk : ℕ → List ℕ} (served : Serves s.machine.bios 1 disk) where
  -- `system` of a command that names no file, from the process `i + 1`.
  system_missing :
      (nesting fuel start i : ℕ) (clock : ClockBytes) (command : List ℕ) (u : User)
      → s.fuel ≡ suc fuel
      → HasFiles s disk start u.kernel
      → IsRunning u
      → 576 ≤ length command
      → has_nul (take 576 command) ≡ true
      → length (text_of (take 576 command)) < s.fuel
      → Distinct (addresses u.kernel.segs)
      → any_free u.kernel.segs ≡ true
      → u.kernel.processes.current ≡ suc i
      → i < length u.kernel.processes.table
      → file_named disk start u.kernel (take 576 command) ≡ none
      → (u' : User) × (system (os_of s nesting clock) command u ≡ ok (1, u'))
        × Extends u.kernel.console u'.kernel.console
        × IsRunning u'
        × (u'.kernel ≡ record u.kernel {
          fd_list = u'.kernel.fd_list;
          console = u'.kernel.console;
          processes = switched i u.kernel.processes;
        })
  unfolding system user_run_program syscall dispatch get_running_proc
  system_missing nesting fuel start i clock command u some_fuel files running long ended short
        distinct free current inside missing =
      let block = take 576 command in
      let size : length block ≡ 576 = length-take 576 command long in
      let copied : memcpy u.sysparam command 576 ≡ ok block =
        memcpy_lem u.sysparam command 576 (omega (arith, running.block)) long
        ∙ ap (λ t. ok (block ++ t)) (drop_all 576 u.sysparam (omega (arith, running.block)))
        ∙ ap ok (append-nil block) in
      let (k1, run, root, more, rest) =
        run_program_missing s served nesting fuel start block u.kernel some_fuel files ended short
          distinct free missing in
      let runs : set_running_proc u.kernel.processes.current k1.processes
          ≡ ok (switched i u.kernel.processes) =
        ap (λ c. set_running_proc c k1.processes) current
        ∙ ap (λ q. set_running_proc (suc i) q.processes) rest
        ∙ set_running_proc_lem i u.kernel.processes inside (omega (arith, current, inside)) in
      let answer = put_bytes 0 (long_bytes 1) (upper block) in
      let answer_size : length answer ≡ 576 =
        length-put_bytes 0 (long_bytes 1) (upper block) (omega (arith, length-upper block, size))
        ∙ length-upper block
        ∙ size in
      (
        record u {
          kernel = record k1 { processes = switched i u.kernel.processes };
          sysparam = answer;
        },
        (rw (copied, run, runs) refl),
        more,
        record { block = answer_size; digits = running.digits; long_digits = running.long_digits },
        ap {A = Kernel} (λ q. record q { processes = switched i u.kernel.processes }) rest,
      )

  -- Process `i + 1`, the shell, with its block and the buffers of `itoa` and `ultoa`, is running and in the
  -- process table; the mounted volume is as `HasFiles` says; the buffer holds a text without % and
  -- a NUL, the text is shorter than 576 characters and the fuel, and the buffer with the memory
  -- behind it has 576 bytes; a segment is free, no two segments have one address, and no file of
  -- the volume has the name in capitals. The command ends, and the screen ends with the text and ":
  -- command not found"; of the kernel, only the table of descriptors, the screen and the states of
  -- processes have changed.
  pub unknown_command_lem :
      (nesting fuel start i : ℕ) (clock : ClockBytes) (text rest behind : List ℕ) (u : User)
      → s.fuel ≡ suc fuel
      → HasFiles s disk start u.kernel
      → IsRunning u
      → IsPlain text
      → 576 ≤ length (text ++ 0 ∷ rest ++ behind)
      → length text < 576
      → length text < s.fuel
      → Distinct (addresses u.kernel.segs)
      → any_free u.kernel.segs ≡ true
      → u.kernel.processes.current ≡ suc i
      → i < length u.kernel.processes.table
      → first_named u.kernel.bs.root_dir_entries
          (map toupper text)
          (dir_entries disk start 0 u.kernel.bs.root_dir_entries)
        ≡ none
      → (u' : User) × (before : List ℕ) × (unknown_command
            (os_of s nesting clock)
            behind
            (text ++ 0 ∷ rest)
            u
          ≡ ok (text ++ 0 ∷ rest, u'))
        × (u'.kernel.console.screen
            ≡ u.kernel.console.screen ++ before ++ text ++ codes ": command not found")
        × (u'.kernel ≡ record u.kernel {
          fd_list = u'.kernel.fd_list;
          console = u'.kernel.console;
          processes = switched i u.kernel.processes;
        })
  unfolding unknown_command
  unknown_command_lem nesting fuel start i clock text rest behind u some_fuel files running h long
        fits short distinct free current inside missing =
      let o = os_of s nesting clock in
      let command = (text ++ 0 ∷ rest) ++ behind in
      let joined : command ≡ text ++ 0 ∷ (rest ++ behind) = append_assoc text (0 ∷ rest) behind in
      let (text_eq', ended') = text_of-take 576 text (rest ++ behind) h fits in
      let text_eq : text_of (take 576 command) ≡ text =
        ap (λ t. text_of (take 576 t)) joined ∙ text_eq' in
      let ended : has_nul (take 576 command) ≡ true =
        ap (λ t. has_nul (take 576 t)) joined ∙ ended' in
      let n = u.kernel.bs.root_dir_entries in
      let none_named : file_named disk start u.kernel (take 576 command) ≡ none =
        ap (λ t. first_named n (map toupper t) (dir_entries disk start 0 n)) text_eq ∙ missing in
      let (u1, run1, more, running1, kernel1) =
        system_missing nesting fuel start i clock command u some_fuel files running long ended
          (subst (λ t. length t < s.fuel) (sym text_eq) short) distinct free current inside
          none_named in
      let (u2, run2, kernel2, running2) = print_lem o text rest u1 running1 h in
      let (u3, run3, kernel3, running3) =
        print_lem o (codes ": command not found") [] u2 running2 message-IsPlain in
      let whole =
        kernel3
        ∙ ap (λ q. shown (codes ": command not found") q) kernel2
        ∙ ap (λ q. shown (codes ": command not found") (shown text q)) kernel1 in
      (
        u3,
        more.text,
        (rw (run1, run2, run3) refl),
        ap (λ q. q.console.screen) kernel3
            ∙ ap (λ q. q.console.screen ++ codes ": command not found") kernel2
            ∙ ap (λ t. t ++ text ++ codes ": command not found") more.screen,
        whole
            ∙ ap {A = Kernel}
                (λ q. record u.kernel {
                  fd_list = q.fd_list;
                  console = q.console;
                  processes = switched i u.kernel.processes;
                })
                (sym whole),
      )
