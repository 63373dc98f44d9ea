-- ===== src/Program.antt =====
-- `load` and `run_program` of kernel/kernel.c.
pub mod Slots
pub mod Restores
pub mod Load
pub mod Exits
pub mod Returns
use rml.Base.{
  ℕ, zero, suc, List, ◌==◌, Option, none, some, if◌then◌else◌, Outcome, ok, stop, no_fuel, ◌>>=◌,
  literal,
}
use rml.Mm.{get_free_seg, release_seg}
use rml.Clib.Letters.{stoupper}
use rml.Sched.{register_proc, unregister_proc, get_running_proc}
use rml.Kernel.{Kernel, open_file}
use rml.Fs.Layout.{Fat16Entry}
use rml.Fs.Entry.{get_file}
use rml.Fs.Directory.{get_root_files}
use rml.Fs.Volume.{load_file_content}
use rml.Syscall.{System, Program, exit, call, Left, only_name, with_running, dispatch}

-- What `load` gives back: `retcode`, `*pid`, `*seg` and the name, which it turns into capitals.
pub record Loaded : Type 0 where
  pub retcode : ℕ
  pub pid : ℕ
  pub segment : ℕ
  pub name : List ℕ

-- What a variable holds after a call that may not set it.
abbrev pub get_or_stale : ℕ → Option ℕ → ℕ
get_or_stale stale none = stale
get_or_stale stale (some i) = i

module _ (s : System) where
  -- `load`, from the entry that `get_file` finds on.
  unfoldable pub load_found : Option Fat16Entry → ℕ → List ℕ → Kernel → Outcome (Loaded × Kernel)
  load_found none segment name k =
      ok (record { retcode = 1; pid = s.stale_pid; segment = segment; name = name }, k)
  load_found (some currfile) segment name k = do
    k1 ← load_file_content s.machine s.fuel currfile segment 0 s.stale_cluster k
    (pid, p) ←
        register_proc
          (record {
            name = name;
            cs = segment;
            ds = segment;
            ss = segment;
            entry_point = 0;
            ppid = get_running_proc k1.processes;
            size = currfile.file_size;
          })
          k1.processes
    ok (
      record { retcode = 0; pid = get_or_stale s.stale_pid pid; segment = segment; name = name },
      record k1 { processes = p },
    )

  unfoldable pub load : List ℕ → Kernel → Outcome (Loaded × Kernel)
  unfolding load_found
  load name k = do
    let (segment, segs) = get_free_seg s.stale_segment k.segs
    (file_list, k1) ← get_root_files s.machine s.stale_files (record k { segs = segs })
    name' ← stoupper s.fuel name
    found ← get_file s.fuel k1.bs.root_dir_entries file_list name'
    load_found found segment name' k1

  -- What a program does, call by call. Every call brings its own block, which stands in the kernel's
  -- `params` with what `dispatch` writes there, until the next call.
  unfoldable pub run_calls :
      (List ℕ → Kernel → Outcome (ℕ × Left × Kernel))
      → Program
      → List ℕ
      → Kernel
      → Outcome (List ℕ × Kernel)
  unfolding dispatch
  run_calls run exit params k = ok (params, k)
  run_calls run (call service given clock next) params k = do
    (params', k1) ← dispatch s run service given clock k
    run_calls run (next params') params' k1

  -- The body of `run_program` for a program that was loaded. Before its first call `params` holds
  -- the name, which a system call passed; `startk` has its name elsewhere and no use for the block.
  unfoldable pub run_loaded :
      (List ℕ → Kernel → Outcome (ℕ × Left × Kernel)) → Loaded → Kernel → Outcome (List ℕ × Kernel)
  unfolding run_calls
  run_loaded run l k = do
    k1 ← with_running l.pid k
    (_, k2) ← open_file (literal "/dev/stdin") l.pid k1
    (_, k3) ← open_file (literal "/dev/stdout") l.pid k2
    (params, k4) ← run_calls run (s.farcall l.segment k3.ram) l.name k3
    p ← unregister_proc l.pid k4.processes
    ok (params, record k4 { processes = p })

  -- `run_program`, with fuel for the programs that programs run: its result, what it
  -- leaves of the name, and the kernel.
  unfoldable pub run_program : ℕ → List ℕ → Kernel → Outcome (ℕ × Left × Kernel)
  unfolding load run_loaded
  run_program zero name k = stop no_fuel
  run_program (suc nesting) name k = do
    (l, k1) ← load name k
    (params, k2) ←
        (if l.retcode == 0 then run_loaded (run_program nesting) l k1 else ok (l.name, k1))
    ok (
      l.retcode,
      record { name = l.name; params = params },
      record k2 { segs = (release_seg l.segment k2.segs).1 },
    )
