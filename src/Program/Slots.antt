-- ===== src/Program/Slots.antt =====
-- The free segments and the free slots of the process table, as `load` takes them and `run_program`
-- gives them back (kernel/kernel.c).
use rml.Base.{
  ℕ, zero, suc, ◌+◌, ◌≤◌, true, List, [], ◌∷◌, update_at, modify, ◌==◌, Bool-cases, inl, inr, some,
  if◌then◌else◌, ◌≡◌, refl, sym, ap, ◌∙◌, arith,
}
use rml.Base.Post.{Post, returns, stops, Post-then, Post-bind}
use rml.Clib.Text.{strcpy}
use rml.Mm.{Segs, get_free_seg}
use rml.Mm.Laws.{any_free}
use rml.Sched.{
  ProcessDesc, Processes, NewProc, register_from, register_proc, unregister_proc, clear_pid,
}
use rml.Kernel.Frame.{pids_of}

unfoldable pub free_segs : Segs → ℕ
free_segs [] = 0
free_segs (s ∷ segs) = if s.used == 0 then suc (free_segs segs) else free_segs segs

unfoldable pub free_slots : List ℕ → ℕ
free_slots [] = 0
free_slots (p ∷ pids) = if p == 0 then suc (free_slots pids) else free_slots pids

pub any_free-free_segs : (segs : Segs) → 1 ≤ free_segs segs → any_free segs ≡ true
unfolding any_free free_segs
any_free-free_segs [] h = absurd (omega arith)
any_free-free_segs (s ∷ segs) h = ground (arith, any_free-free_segs segs)

pub free_segs-get_free_seg :
    (stale : ℕ) (segs : Segs)
    → 1 ≤ free_segs segs
    → free_segs (get_free_seg stale segs).1 + 1 ≡ free_segs segs
unfolding get_free_seg free_segs
free_segs-get_free_seg stale [] h = absurd (omega arith)
free_segs-get_free_seg stale (s ∷ segs) h = ground (arith, free_segs-get_free_seg stale segs)

-- Slot `j` of the pids was free and is taken.
pub record Took (j : ℕ) (pids pids' : List ℕ) : Type 0 where
  pub back : update_at pids' j (λ _. 0) ≡ pids
  pub count : free_slots pids' + 1 ≡ free_slots pids

register_from-Took :
    (i : ℕ) (a : NewProc) (table : List ProcessDesc)
    → 1 ≤ free_slots (pids_of table)
    → Post
        (λ r. (j : ℕ) × (r.0 ≡ some (i + j + 1)) × Took j (pids_of table) (pids_of r.1))
        (register_from i a table)
unfolding register_from free_slots update_at
register_from-Took i a [] h = absurd (omega arith)
register_from-Took i a (d ∷ table) h = elim (Bool-cases (d.pid == 0)) [
  | inl free ↦
      let zero_pid : d.pid ≡ 0 = ground (arith, free) in
      rw free (
        Post-then (strcpy d.name a.name) λ name. returns (
          0,
          ap some (omega arith),
          record {
            back = ap (λ p. p ∷ pids_of table) (sym zero_pid);
            count = ground (arith, zero_pid);
          },
        ))
  | inr used ↦ rw used (
      Post-bind (register_from (i + 1) a table)
        (register_from-Took (i + 1) a table (ground (arith, h, used)))
        λ r (j, found, took). returns (
          suc j,
          found ∙ ap some (omega arith),
          record { back = ap (λ l. d.pid ∷ l) took.back; count = ground (arith, took.count, used) },
        ))
]

pub register_proc-Took :
    (a : NewProc) (p : Processes)
    → 1 ≤ free_slots (pids_of p.table)
    → Post
        (λ r.
          (j : ℕ) × (r.0 ≡ some (suc j))
          × Took j (pids_of p.table) (pids_of r.1.table)
          × (r.1.current ≡ p.current))
        (register_proc a p)
unfolding register_proc
register_proc-Took a p h =
    Post-bind (register_from 0 a p.table) (register_from-Took 0 a p.table h)
      λ r (j, found, took). returns (j, found ∙ ap some (omega arith), took, refl)

clear_pid-pids :
    (table : List ProcessDesc) (i : ℕ)
    → Post
        (λ table'. pids_of table' ≡ update_at (pids_of table) i (λ _. 0))
        (modify table i clear_pid)
unfolding modify update_at
clear_pid-pids [] i = stops
clear_pid-pids (d ∷ table) zero = returns refl
clear_pid-pids (d ∷ table) (suc i) =
    Post-bind (modify table i clear_pid) (clear_pid-pids table i)
      (λ t h. returns (ap (λ l. d.pid ∷ l) h))

pub unregister_proc-pids :
    (i : ℕ) (p : Processes)
    → Post
        (λ q. (pids_of q.table ≡ update_at (pids_of p.table) i (λ _. 0)) × (q.current ≡ p.current))
        (unregister_proc (suc i) p)
unfolding unregister_proc
unregister_proc-pids i p =
    Post-bind (modify p.table i clear_pid) (clear_pid-pids p.table i) (λ t h. returns (h, refl))
