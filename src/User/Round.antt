-- ===== src/User/Round.antt =====
-- A round of the shell on a command that names no program: the keyboard, the system calls, the
-- directory on the disk and the screen together.
use rml.Base.{
  ℕ, zero, suc, ◌≤◌, ◌<◌, true, false, List, [], ◌∷◌, ◌++◌, map, All, drop, length, length-append,
  codes, literal, none, get_elem?, ℤ, pos, negsuc, ok, ◌≡◌, ◌≢◌, refl, sym, ap, ◌∙◌, subst, arith,
}
use rml.Block.Transfer.{Serves}
use rml.Clib.Text.Scan.{text_of, has_nul, lexicographic, lexicographic_eq, strcmp-eq-lexicographic}
use rml.Clib.Letters.{toupper}
use rml.Files.{FileDescriptor, is_zero}
use rml.Mm.Laws.{addresses, Distinct, any_free}
use rml.Sched.Running.{switched}
use rml.Kernel.{Kernel}
use rml.Fs.Directory.Walk.{dir_entries}
use rml.Fs.Entry.Names.{first_named}
use rml.Shell.Keys.{line_of, peak, enters, behind_enter, line_fits}
use rml.Syscall.{System, ClockBytes}
use rml.Program.Load.{HasFiles}
use rml.User.{User, Os}
use rml.User.Commands.{is_command, unknown_command, run_command, shell_round}
use rml.User.Missing.{IsPlain, os_of, unknown_command_lem}
use rml.User.Editor.Refines.{Listens}
use rml.User.Editor.Command.{read_command_lem}

-- The words that the shell knows.
abbrev pub builtins : List (List ℕ)
builtins =
    codes "syscall"
    ∷ codes "aaa"
    ∷ codes "bbb"
    ∷ codes "ccc"
    ∷ codes "halt"
    ∷ codes "reboot"
    ∷ codes "exit"
    ∷ codes "date"
    ∷ []

not_zero : (z : ℤ) → z ≢ pos 0 → is_zero z ≡ false
not_zero (pos zero) h = absurd (h refl)
not_zero (pos (suc n)) h = refl
not_zero (negsuc n) h = refl

-- A command that is another word.
is_command-false :
    (buf word : List ℕ)
    → has_nul buf ≡ true
    → has_nul word ≡ true
    → text_of buf ≢ text_of word
    → is_command buf word ≡ ok false
unfolding is_command
is_command-false buf word ended ended' other =
    rw
      (
        strcmp-eq-lexicographic buf word ended ended',
        not_zero (lexicographic (text_of buf) (text_of word))
            (λ e. other (lexicographic_eq (text_of buf) (text_of word) e)),
      )
      refl

-- A terminated array is its text, a NUL and a rest.
pub split_at_nul :
    (b : List ℕ) → has_nul b ≡ true → b ≡ text_of b ++ 0 ∷ drop (suc (length (text_of b))) b
unfolding text_of has_nul
split_at_nul [] h = cc
split_at_nul (c ∷ b) h = ground (arith, split_at_nul b)

-- Typing leaves the volume as `load` needs it.
HasFiles-typed :
    (s : System) {disk : ℕ → List ℕ} (start : ℕ) (k : Kernel) (t : List FileDescriptor)
    (screen keys : List ℕ)
    → ((i : ℕ) → get_elem? t (suc i) ≡ get_elem? k.fd_list (suc i))
    → HasFiles s disk start k
    → HasFiles s disk start
        (record k { fd_list = t; keys = keys; console = record k.console { screen = screen } })
HasFiles-typed s start k t screen keys others files =
    let (d, found, own) = files.root.drive in
    record {
      placed = files.placed;
      small = files.small;
      room = files.room;
      named = files.named;
      place = files.place;
      root = record {
        root = files.root.root;
        found = others 4 ∙ files.root.found;
        below = files.root.below;
        offset = files.root.offset;
        position = files.root.position;
        drive = (d, others 3 ∙ found, own);
      };
      ready = record { size = files.ready.size; last = files.ready.last };
    }

-- None of the shell's own words: the command goes on to `system`.
run_command_other :
    (o : Os) (stale : ℕ) (behind buf : List ℕ) (u u' : User)
    → has_nul buf ≡ true
    → All (λ w. text_of buf ≢ w) builtins
    → unknown_command o behind buf u ≡ ok (buf, u')
    → run_command o stale behind buf u ≡ ok (false, buf, u')
unfolding run_command text_of has_nul
run_command_other o stale behind buf u u' ended other run =
    let (h1, (h2, (h3, (h4, (h5, (h6, (h7, (h8, _)))))))) = other in
    rw
      (
        is_command-false buf (literal "syscall") ended refl h1,
        is_command-false buf (literal "aaa") ended refl h2,
        is_command-false buf (literal "bbb") ended refl h3,
        is_command-false buf (literal "ccc") ended refl h4,
        is_command-false buf (literal "halt") ended refl h5,
        is_command-false buf (literal "reboot") ended refl h6,
        is_command-false buf (literal "exit") ended refl h7,
        is_command-false buf (literal "date") ended refl h8,
        run,
      )
      refl

module _ (s : System) {disk : ℕ → List ℕ} (served : Serves s.machine.bios 1 disk) where
  -- The shell is process `i + 1`, running and in the process table; it has its block and the buffers of
  -- `itoa` and `ultoa`, descriptor 0
  -- of the kernel is a device, its buffer has 50 bytes and 526 bytes of memory behind it; the
  -- volume is as `HasFiles` says; a segment is free and no two segments have one address. The keys
  -- have an Enter and no NUL and never make a line of 50 characters; the line that they make has no
  -- %, is none of the shell's words, and no file of the volume has it, in capitals, as its name; the
  -- fuel is above 0 and at least 50. A round of the shell ends and the shell goes on: the screen
  -- ends with the line and ": command not found", the keys behind Enter are left, and of the kernel,
  -- segments and memory included, only the table of descriptors, the screen, the keys and the
  -- states of processes have changed.
  pub shell_round_missing :
      (nesting fuel start i stale : ℕ) (clock : ClockBytes) (buf behind : List ℕ) (u : User)
      → s.fuel ≡ suc fuel
      → 50 ≤ s.fuel
      → HasFiles s disk start u.kernel
      → Listens u
      → length buf ≡ 50
      → 526 ≤ length behind
      → enters u.kernel.keys ≡ true
      → All (λ c. c ≢ 0) u.kernel.keys
      → peak 0 u.kernel.keys < 50
      → IsPlain (line_of [] u.kernel.keys)
      → All (λ w. line_of [] u.kernel.keys ≢ w) builtins
      → Distinct (addresses u.kernel.segs)
      → any_free u.kernel.segs ≡ true
      → u.kernel.processes.current ≡ suc i
      → i < length u.kernel.processes.table
      → first_named u.kernel.bs.root_dir_entries
          (map toupper (line_of [] u.kernel.keys))
          (dir_entries disk start 0 u.kernel.bs.root_dir_entries)
        ≡ none
      → (u' : User) × (buf' : List ℕ) × (before : List ℕ) × (shell_round
            (os_of s nesting clock)
            stale
            behind
            buf
            u
          ≡ ok (false, buf', u'))
        × (u'.kernel.console.screen
            ≡ before ++ line_of [] u.kernel.keys ++ codes ": command not found")
        × (u'.kernel ≡ record u.kernel {
          fd_list = u'.kernel.fd_list;
          console = u'.kernel.console;
          keys = behind_enter u.kernel.keys;
          processes = switched i u.kernel.processes;
        })
        × (length buf' ≡ 50)
  unfolding shell_round
  shell_round_missing nesting fuel start i stale clock buf behind u some_fuel fifty files listens
        size long enter no_nul room plain other distinct free current inside missing =
      let o = os_of s nesting clock in
      let line = line_of [] u.kernel.keys in
      let (buf', screen, u1, read, text, ended, size', typing) =
        read_command_lem o stale buf u listens enter no_nul (omega (arith, size)) in
      let rest = drop (suc (length line)) buf' in
      let split : buf' ≡ line ++ 0 ∷ rest =
        split_at_nul buf' ended ∙ ap (λ t. t ++ 0 ∷ drop (suc (length t)) buf') text in
      let short : length line < 50 = omega (arith, line_fits [] u.kernel.keys) in
      let typed : Kernel = record u.kernel {
        fd_list = u1.kernel.fd_list;
        keys = behind_enter u.kernel.keys;
        console = record u.kernel.console { screen = screen };
      } in
      let same : u1.kernel ≡ typed = typing.kernel in
      let files1 =
        subst (λ k. HasFiles s disk start k) (sym same)
          (HasFiles-typed s start u.kernel u1.kernel.fd_list screen (behind_enter u.kernel.keys)
            typing.others files) in
      let long_enough : 576 ≤ length (line ++ 0 ∷ rest ++ behind) =
        omega
          (arith, length-append (line ++ 0 ∷ rest) behind, ap length split, size, size', long) in
      let (u2, before, run, ends, kernel2) =
        unknown_command_lem s served nesting fuel start i clock line rest behind u1 some_fuel files1
          typing.listens.running plain long_enough (omega arith) (omega (arith, fifty))
          (subst (λ k. Distinct (addresses k.segs)) (sym same) distinct)
          (ap {A = Kernel} (λ k. any_free k.segs) same ∙ free)
          (ap {A = Kernel} (λ k. k.processes.current) same ∙ current)
          (subst (λ k. i < length k.processes.table) (sym same) inside)
          (ap {A = Kernel}
              (λ k.
                first_named k.bs.root_dir_entries (map toupper line)
                  (dir_entries disk start 0 k.bs.root_dir_entries))
              same
            ∙ missing) in
      (
        u2,
        buf',
        u1.kernel.console.screen ++ before,
        (rw read (
            run_command_other o stale behind buf' u1 u2 ended
              (subst (λ t. All (λ w. t ≢ w) builtins) (sym text) other)
              (subst (λ b. unknown_command o behind b u1 ≡ ok (b, u2)) (sym split) run))),
        ends,
        kernel2
            ∙ ap {A = Kernel}
                (λ k. record k {
                  fd_list = u2.kernel.fd_list;
                  console = u2.kernel.console;
                  processes = switched i k.processes;
                })
                same,
        size' ∙ size,
      )
