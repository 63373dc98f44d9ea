-- ===== src/Tests/Rounds.antt =====
-- The theorems on the shell's rounds and on programs that make system calls at concrete inputs.
use rml.Base.{
  ℕ, ◌++◌, ◌∷◌, [], List, true, false, map, length, length-replicate, replicate, take, codes,
  literal, none, ok, ◌>>=◌, ap, ◌≡◌, refl, arith,
}
use rml.Block.{sectors_for}
use rml.Block.Transfer.{image}
use rml.Clib.Letters.{toupper}
use rml.Clib.Text.Scan.{text_of, has_nul, lexicographic}
use rml.Console.{write, line}
use rml.Mm.{init_seg, get_free_seg}
use rml.Mm.FreeList.{Distinct-init}
use rml.Sched.Running.{switched}
use rml.Sched.Table.{first_free}
use rml.Kernel.{Kernel}
use rml.Kernel.Frame.{pids_of}
use rml.Fs.Layout.{entry_of_bytes}
use rml.Fs.Entry.{get_entry_type}
use rml.Fs.Entry.Names.{first_named, up_to_space}
use rml.Fs.Directory.Walk.{dir_entries}
use rml.Program.{run_calls, run_program}
use rml.Program.Load.{HasFiles, upper}
use rml.Program.Returns.{CallsEnd, Runs, run_program_returns}
use rml.Shell.{read_line}
use rml.Shell.Keys.{line_of, peak, enters, behind_enter}
use rml.Syscall.{System, Program, exit, call, dispatch}
use rml.User.{User}
use rml.User.Laws.{put_chars_lem, shown}
use rml.User.Commands.{shell_round}
use rml.User.Missing.{os_of}
use rml.User.Round.{shell_round_missing}
use rml.User.Editor.{read_command}
use rml.User.Editor.Refines.{Listens, Typing}
use rml.User.Editor.Command.{Reads, read_command-read_line, read_command_lem}
use rml.Tests.Root.{
  root_disk, root_served, root-IsPlaced, root_start, root-IsReady, root-IsNamed, root_entry,
  plain_entry, shell_entry,
}
use rml.Tests.Programs.{
  test_system, slot, program_kernel, some_free, one_free, one_link, one_link_small, shell-IsChain,
  has_shell, shell_user, no_clock,
}

-- A typing error and its correction, Enter, and a key behind it.
abbrev keys : List ℕ
keys = codes "lx" ++ 8 ∷ codes "s" ++ 13 ∷ codes "q"

abbrev roomy_system : System
roomy_system = record test_system { fuel = 60 }

abbrev typing_user : User
typing_user = record shell_user { kernel = record shell_user.kernel { keys = keys } }

typing_files : HasFiles roomy_system root_disk 1536 typing_user.kernel
typing_files = record {
  placed = root-IsPlaced;
  small = omega arith;
  room = omega arith;
  named = root-IsNamed;
  place = 0;
  root = record {
    root = root_entry;
    found = refl;
    below = refl;
    offset = refl;
    position = refl;
    drive = root_start.drive;
  };
  ready = root-IsReady;
}

listens : Listens typing_user
listens = record {
  running = record { block = length-replicate {A = ℕ} 576 0; digits = refl; long_digits = refl };
  keyboard = (plain_entry, refl, refl);
}

read_command-read_line_example :
    Reads typing_user
      (read_line keys (replicate 4 9) [])
      (read_command (os_of roomy_system 0 no_clock) 0 (replicate 4 9) typing_user)
read_command-read_line_example =
    read_command-read_line (os_of roomy_system 0 no_clock) 0 (replicate 4 9) typing_user listens

read_command_lem_example :
    (buf' : List ℕ) × (screen' : List ℕ) × (u' : User) × (read_command
        (os_of roomy_system 0 no_clock)
        0
        (replicate 4 9)
        typing_user
      ≡ ok (buf', u'))
    × (text_of buf' ≡ codes "ls")
    × (has_nul buf' ≡ true)
    × (length buf' ≡ 4)
    × Typing screen' (codes "q") typing_user u'
unfolding line_of peak enters behind_enter
read_command_lem_example =
    read_command_lem (os_of roomy_system 0 no_clock) 0 (replicate 4 9) typing_user listens refl
      (ground arith) (omega arith)

no_file_typed :
    first_named 2 (map toupper (line_of [] keys)) (dir_entries root_disk 1536 0 2) ≡ none
unfolding line_of first_named toupper up_to_space lexicographic dir_entries image sectors_for
    entry_of_bytes get_entry_type
no_file_typed = refl

shell_round_missing_example :
    (u' : User) × (buf' : List ℕ) × (before : List ℕ) × (shell_round
        (os_of roomy_system 0 no_clock)
        0
        (replicate 526 0)
        (replicate 50 0)
        typing_user
      ≡ ok (false, buf', u'))
    × (u'.kernel.console.screen ≡ before ++ codes "ls" ++ codes ": command not found")
    × (u'.kernel ≡ record typing_user.kernel {
      fd_list = u'.kernel.fd_list;
      console = u'.kernel.console;
      keys = codes "q";
      processes = switched 0 typing_user.kernel.processes;
    })
    × (length buf' ≡ 50)
unfolding line_of peak enters behind_enter
shell_round_missing_example =
    shell_round_missing roomy_system root_served 0 59 1536 0 0 no_clock (replicate 50 0)
      (replicate 526 0) typing_user refl (omega arith) typing_files listens
      (length-replicate {A = ℕ} 50 0) (omega (arith, length-replicate {A = ℕ} 526 0)) refl
      (ground arith) (omega arith) (ground arith) (ground arith) Distinct-init some_free refl
      (omega arith) no_file_typed

-- A program that makes one system call.
abbrev one_call : Program
one_call = call 0 [] no_clock (λ params. exit)

abbrev calling_system : System
calling_system = record test_system { farcall = λ segment ram. one_call }

calling_files : HasFiles calling_system root_disk 1536 program_kernel
calling_files = record {
  placed = root-IsPlaced;
  small = omega arith;
  room = omega arith;
  named = root-IsNamed;
  place = 0;
  root = record {
    root = root_entry;
    found = refl;
    below = refl;
    offset = refl;
    position = refl;
    drive = root_start.drive;
  };
  ready = root-IsReady;
}

one_call_ends : (name : List ℕ) (k : Kernel) → CallsEnd calling_system 0 one_call name k
unfolding run_calls dispatch write
one_call_ends name k = (
  [],
  shown (take 14 (line (codes "system call!"))) k,
  ap (λ r. r >>= λ con. ok ([], record k { console = con }))
      (put_chars_lem (line (codes "system call!")) 14 k.console (omega arith)),
)

run_program_returns_example :
    (params : List ℕ) × (k' : Kernel) × (run_program calling_system 1
        (literal "shell")
        program_kernel
      ≡ ok (0, record { name = upper (literal "shell"); params = params }, k'))
    × Runs calling_system 0
        (literal "shell")
        (record { retcode = 0; pid = 1; segment = 0x2000; name = upper (literal "shell") })
        program_kernel
        params
    × (k'.segs ≡ init_seg)
    × (pids_of k'.processes.table ≡ replicate 9 0)
    × (k'.processes.current ≡ 1)
unfolding text_of has_nul get_free_seg init_seg first_free
run_program_returns_example =
    run_program_returns calling_system root_served one_link 0 7 1536 0 0 (literal "shell")
      shell_entry program_kernel refl calling_files refl (omega arith) (omega arith)
      (refl, (refl, (refl, (refl, (refl, (refl, (refl, (refl, (refl, tt))))))))) refl
      (slot, refl, refl) (omega arith) has_shell one_link_small refl shell-IsChain (omega arith)
      (omega arith) (length-replicate {A = ℕ} 4096 0) (omega arith) one_free
      (λ k1 k3 loaded entered memory rest starts. one_call_ends (upper (literal "shell")) k3)
