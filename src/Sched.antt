-- ===== src/Sched.antt =====
-- kernel/sched.c and include/linux/sched.h: the table of processes.
pub mod Table
pub mod Running
use rml.Base.{
  ℕ, zero, suc, ◌+◌, ◌-◌, List, [], ◌∷◌, map, modify, ◌==◌, Option, none, some, if◌then◌else◌,
  Outcome, ok, stop, bounds, ◌>>=◌,
}
use rml.Clib.Text.{strcpy}
use rml.Files.{FileDescriptor}

pub data ProcState : Type 0 where
  ready wait running sleep : ProcState

-- `ProcessDesc`
pub record ProcessDesc : Type 0 where
  pub pid : ℕ
  pub name : List ℕ
  pub ss : ℕ
  pub ds : ℕ
  pub cs : ℕ
  pub ip : ℕ
  pub ppid : ℕ
  pub size : ℕ
  pub state : ProcState
  pub files_table : List FileDescriptor

abbrev pub num_processes : ℕ
num_processes = 9

-- `processes` and `running_proc`
pub record Processes : Type 0 where
  pub table : List ProcessDesc
  pub current : ℕ

abbrev pub clear_pid : ProcessDesc → ProcessDesc
clear_pid d = record d { pid = 0 }

unfoldable pub init_processes : Processes → Processes
init_processes p = record { table = map clear_pid p.table; current = 0 }

abbrev pub with_state : ProcState → ProcessDesc → ProcessDesc
with_state state d = record d { state = state }

-- `processes[pid - 1].state = state`; with 0 the index is -1.
unfoldable pub set_state : ℕ → ProcState → List ProcessDesc → Outcome (List ProcessDesc)
set_state zero state table = stop bounds
set_state (suc i) state table = modify table i (with_state state)

unfoldable pub set_running_proc : ℕ → Processes → Outcome Processes
unfolding set_state
set_running_proc pid p = do
  table ← (if p.current == 0 then ok p.table else set_state p.current ready p.table)
  table' ← set_state pid running table
  ok (record { table = table'; current = pid })

unfoldable pub get_running_proc : Processes → ℕ
get_running_proc p = p.current

-- The arguments of `register_proc`.
pub record NewProc : Type 0 where
  pub name : List ℕ
  pub cs : ℕ
  pub ds : ℕ
  pub ss : ℕ
  pub entry_point : ℕ
  pub ppid : ℕ
  pub size : ℕ

-- What is stored into a free slot `i`, but for the name.
abbrev pub filled : ℕ → NewProc → ProcessDesc → List ℕ → ProcessDesc
filled i a d name = record d {
  pid = i + 1;
  name = name;
  ss = a.ss;
  ds = a.ds;
  cs = a.cs;
  ip = a.entry_point;
  ppid = a.ppid;
  size = a.size;
  state = ready;
}

-- `register_proc` from slot `i` on: the pid, or none for -1, and the slots.
unfoldable pub register_from :
    ℕ → NewProc → List ProcessDesc → Outcome (Option ℕ × List ProcessDesc)
register_from i a [] = ok (none, [])
register_from i a (d ∷ table) =
    let next = (do (found, rest) ← register_from (i + 1) a table; ok (found, d ∷ rest)) in
    if d.pid == 0
    then (do name ← strcpy d.name a.name; ok (some (i + 1), filled i a d name ∷ table))
    else next

unfoldable pub register_proc : NewProc → Processes → Outcome (Option ℕ × Processes)
unfolding register_from
register_proc a p = do
  (found, table) ← register_from 0 a p.table
  ok (found, record p { table = table })

unfoldable pub unregister_proc : ℕ → Processes → Outcome Processes
unregister_proc zero p = stop bounds
unregister_proc (suc i) p = do table ← modify p.table i clear_pid; ok (record p { table = table })
