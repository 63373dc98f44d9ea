-- ===== src/Tests/Programs.antt =====
-- The theorems on loading and running programs at the floppy of Tests/Root.
use rml.Base.{
  codes, [], ◌∷◌, map, ℕ, ◌<◌, true, [], ◌∷◌, replicate, literal, inl, inr, none, some, ok, ◌==◌,
  if◌then◌else◌, ◌≡◌, refl, arith,
}
use rml.Block.{sectors_for}
use rml.Block.Transfer.{image}
use rml.Clib.Text.Scan.{text_of, has_nul, lexicographic}
use rml.Clib.Letters.{toupper}
use rml.Console.Numbers.{Extends}
use rml.Mm.{init_seg}
use rml.Mm.Laws.{any_free}
use rml.Mm.FreeList.{Distinct-init}
use rml.Sched.{ProcessDesc, ready, init_processes}
use rml.Kernel.{Kernel}
use rml.Kernel.Frame.{allocation, pids_of}
use rml.Fs.Layout.{entry_of_bytes}
use rml.Fs.Entry.{get_entry_type}
use rml.Fs.Entry.Names.{first_named, up_to_space}
use rml.Fs.Volume.Load.{IsChain, places_of}
use rml.Fs.Directory.Walk.{RootAt, dir_entries}
use rml.Tests.Boot.{closed}
use rml.User.{User}
use rml.Syscall.{ClockBytes, System, exit, only_name}
use rml.Program.{run_program}
use rml.Program.Slots.{free_segs, free_slots}
use rml.Program.Restores.{HasFree, run_program_lem}
use rml.Program.Load.{HasFiles, file_named, upper, run_program_missing}
use rml.Start.{rounds, rounds_lem}
use rml.Tests.Root.{
  root_disk, root_machine, root_served, root_kernel, root-IsPlaced, root_start, root-IsReady,
  root-IsNamed, root_entry, shell_entry,
}

abbrev pub test_system : System
test_system = record {
  machine = root_machine;
  farcall = λ segment ram. exit;
  stale_segment = 0;
  stale_pid = 0;
  stale_files = shell_entry ∷ shell_entry ∷ [];
  stale_cluster = replicate 4096 0;
  fuel = 8;
}

abbrev pub slot : ProcessDesc
slot = record {
  pid = 0;
  name = replicate 32 0;
  ss = 0;
  ds = 0;
  cs = 0;
  ip = 0;
  ppid = 0;
  size = 0;
  state = ready;
  files_table = replicate 6 closed;
}

abbrev pub program_kernel : Kernel
program_kernel = record root_kernel {
  segs = init_seg;
  processes = record { table = replicate 9 slot; current = 0 };
}

pub files : HasFiles test_system root_disk 1536 program_kernel
files = record {
  placed = root-IsPlaced;
  small = omega arith;
  room = omega arith;
  named = root-IsNamed;
  place = 0;
  root = record {
    root = root_entry;
    found = refl;
    below = refl;
    offset = refl;
    position = refl;
    drive = root_start.drive;
  };
  ready = root-IsReady;
}

pub some_free : any_free init_seg ≡ true
unfolding any_free init_seg
some_free = refl

no_ls : file_named root_disk 1536 program_kernel (literal "ls") ≡ none
unfolding first_named text_of toupper up_to_space lexicographic dir_entries image sectors_for
    entry_of_bytes get_entry_type
no_ls = refl

run_program_missing_example :
    (k' : Kernel) × (run_program test_system 1 (literal "ls") program_kernel
      ≡ ok (1, only_name (literal "LS"), k'))
    × RootAt 1536 64 k'
    × Extends program_kernel.console k'.console
    × (k' ≡ record program_kernel { fd_list = k'.fd_list; console = k'.console })
unfolding text_of has_nul toupper
run_program_missing_example =
    run_program_missing test_system root_served 0 7 1536 (literal "ls") program_kernel refl files
      refl (omega arith) Distinct-init some_free no_ls

ls_run :
    (k' : Kernel) × (run_program test_system 1 (literal "ls") program_kernel
      ≡ ok (1, only_name (upper (literal "ls")), k'))
unfolding text_of has_nul
ls_run =
    let (k', run, _, _, _) =
      run_program_missing test_system root_served 0 7 1536 (literal "ls") program_kernel refl files
        refl (omega arith) Distinct-init some_free no_ls in
    (k', run)

pub one_free : HasFree 1 (allocation program_kernel)
unfolding free_segs free_slots init_seg
one_free = record { distinct = Distinct-init; segments = omega arith; slots = omega arith }

run_program_lem_example :
    (ls_run.0.segs ≡ init_seg) × (pids_of ls_run.0.processes.table ≡ replicate 9 0)
run_program_lem_example =
    run_program_lem test_system 1 (literal "ls") program_kernel 1 (only_name (upper (literal "ls")))
      ls_run.0 one_free ls_run.1

one_round : (k' : Kernel) × (rounds test_system 1 1 (literal "ls") program_kernel ≡ ok k')
unfolding rounds init_processes
one_round = (ls_run.0, (rw ls_run.1 refl))

rounds_lem_example : one_round.0.segs ≡ init_seg
rounds_lem_example =
    rounds_lem test_system 1 1 (literal "ls") program_kernel one_round.0 refl refl (omega arith)
      one_round.1

abbrev pub one_link : ℕ → ℕ
one_link i = if i == 2 then 0xfff else 0

pub one_link_small : (i : ℕ) → one_link i < 4096
one_link_small i = ground arith

pub shell-IsChain : IsChain root_disk one_link (places_of program_kernel) 0 2
unfolding image sectors_for
shell-IsChain = (
  record {
    bytes = record {
      track = omega arith;
      in_step = inl (omega arith);
      on_disk = omega arith;
      some_bytes = omega arith;
    };
    entry = record {
      track = omega arith;
      in_step = inr (omega arith);
      on_disk = omega arith;
      some_bytes = omega arith;
    };
    table = refl;
  },
  omega arith,
)

pub has_shell : file_named root_disk 1536 program_kernel (literal "shell") ≡ some shell_entry
unfolding first_named text_of toupper up_to_space lexicographic dir_entries image sectors_for
    entry_of_bytes get_entry_type
has_shell = refl

-- The shell runs as process 1.
abbrev pub shell_user : User
shell_user = record {
  kernel = record program_kernel { processes = record { table = replicate 9 slot; current = 1 } };
  sysparam = replicate 576 0;
  itoa_buf = replicate 7 0;
  ultoa_buf = replicate 12 0;
}

shell_files : HasFiles test_system root_disk 1536 shell_user.kernel
shell_files = record {
  placed = root-IsPlaced;
  small = omega arith;
  room = omega arith;
  named = root-IsNamed;
  place = 0;
  root = record {
    root = root_entry;
    found = refl;
    below = refl;
    offset = refl;
    position = refl;
    drive = root_start.drive;
  };
  ready = root-IsReady;
}

abbrev pub no_clock : ClockBytes
no_clock = record { hours = 0; minutes = 0; seconds = 0; century = 0; year = 0; month = 0; day = 0 }

pub no_file_ls : first_named 2 (map toupper (codes "ls")) (dir_entries root_disk 1536 0 2) ≡ none
unfolding first_named toupper up_to_space lexicographic dir_entries image sectors_for entry_of_bytes
    get_entry_type
no_file_ls = refl
