-- ===== src/Sched/Running.antt =====
-- Which process is running (kernel/sched.c).
use rml.Base.{
  ℕ, zero, suc, ◌+◌, ◌-◌, ◌≤◌, ◌<◌, List, length, get_elem?, update_at, modify_lem,
  get_elem?-update_at, length-update_at, ◌==◌, some, if◌then◌else◌, ok, ◌≡◌, refl, arith,
  Bool-cases, inl, inr,
}
use rml.Sched.{
  ProcessDesc, Processes, ProcState, ready, running, set_state, with_state, set_running_proc,
}

-- No process but the current one is in the state RUNNING.
abbrev pub OneRunning : Processes → Type 0
OneRunning p =
    (i : ℕ) (d : ProcessDesc) → get_elem? p.table i ≡ some d → d.state ≡ running → p.current ≡ i + 1

-- The table after `set_running_proc`: the process that was current is READY, the new one RUNNING.
abbrev pub switched : ℕ → Processes → Processes
switched i p = record {
  table =
      update_at
        (if p.current == 0 then p.table else update_at p.table (p.current - 1) (with_state ready)) i
        (with_state running);
  current = suc i;
}

set_state_lem :
    (c : ℕ) (state : ProcState) (table : List ProcessDesc)
    → 0 < c
    → c ≤ length table
    → set_state c state table ≡ ok (update_at table (c - 1) (with_state state))
unfolding set_state
set_state_lem zero state table h k = absurd (omega arith)
set_state_lem (suc c) state table h k =
    let back : suc c - 1 ≡ c = omega arith in rw back (modify_lem table c (with_state state) k)

-- For a pid from 1 to the length of the table, and a current process in it or none,
-- `set_running_proc` ends and changes exactly the states of those two processes.
pub set_running_proc_lem :
    (i : ℕ) (p : Processes)
    → i < length p.table
    → p.current ≤ length p.table
    → set_running_proc (suc i) p ≡ ok (switched i p)
unfolding set_running_proc
set_running_proc_lem i p h k = elim (Bool-cases (p.current == 0)) [
  | inl e ↦ rw (e, modify_lem p.table i (with_state running) h)
  | inr e ↦ rw (
    e,
    set_state_lem p.current ready p.table (ground arith) k,
    modify_lem (update_at p.table (p.current - 1) (with_state ready)) i (with_state running)
        (omega (arith, length-update_at p.table (p.current - 1) (with_state ready))),
  )
]

switched-OneRunning : (i : ℕ) (p : Processes) → OneRunning p → OneRunning (switched i p)
switched-OneRunning i p one j d found state = ground (
  arith,
  get_elem?-update_at p.table (p.current - 1) j (with_state ready),
  get_elem?-update_at (update_at p.table (p.current - 1) (with_state ready)) i j
      (with_state running),
  get_elem?-update_at p.table i j (with_state running),
  one j d,
)

-- For a pid from 1 to the length of the table, and a current process in it or none,
-- `set_running_proc` ends, makes that process the current one, and keeps the invariant that no other
-- than the current one is RUNNING.
pub set_running_proc-OneRunning :
    (i : ℕ) (p : Processes)
    → i < length p.table
    → p.current ≤ length p.table
    → OneRunning p
    → (q : Processes) × (set_running_proc (suc i) p ≡ ok q) × (q.current ≡ suc i) × OneRunning q
set_running_proc-OneRunning i p h k one =
    (switched i p, set_running_proc_lem i p h k, refl, switched-OneRunning i p one)
