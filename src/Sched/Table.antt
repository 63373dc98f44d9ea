-- ===== src/Sched/Table.antt =====
-- Registering and unregistering processes (kernel/sched.c).
use mathlib.Core.Option
use native.Mathlib.Numerals.{add-one}
use rml.Base.{
  ℕ, zero, suc, ◌+◌, ◌≤◌, ◌<◌, true, List, [], ◌∷◌, ◌++◌, map, length, drop, All, update_at,
  modify_lem, length-update_at, ◌==◌, Option, none, some, if◌then◌else◌, ok, stop, bounds, ◌>>=◌,
  ◌≡◌, ◌⊎◌, inl, inr, refl, ap, arith,
}
use rml.Clib.Text.Scan.{text_of, has_nul}
use rml.Clib.Text.Copy.{strcpy_lem, strcpy_overflow}
use rml.Sched.{
  ProcessDesc, Processes, NewProc, filled, register_from, register_proc, unregister_proc, clear_pid,
}

-- The index of the first slot with pid 0.
unfoldable pub first_free : List ProcessDesc → Option ℕ
first_free [] = none
first_free (d ∷ table) = if d.pid == 0 then some 0 else Option.map suc (first_free table)

-- A slot's pid is 0 or its index and one; every name has room for 32 characters.
abbrev pub IsNumbered : ℕ → List ProcessDesc → Type 0
IsNumbered i [] = Unit
IsNumbered i (d ∷ table) = ((d.pid ≡ 0) ⊎ (d.pid ≡ i + 1)) × IsNumbered (i + 1) table

abbrev pub HaveRoom : List ProcessDesc → Type 0
HaveRoom table = All (λ d. length d.name ≡ 32) table

-- The slot that `register_proc` fills.
abbrev pub registered : ℕ → NewProc → ProcessDesc → ProcessDesc
registered i a d = filled i a d (text_of a.name ++ 0 ∷ drop (suc (length (text_of a.name))) d.name)

register_from_lem :
    (i k : ℕ) (a : NewProc) (table : List ProcessDesc)
    → HaveRoom table
    → has_nul a.name ≡ true
    → length (text_of a.name) < 32
    → first_free table ≡ some k
    → register_from i a table ≡ ok (some (i + k + 1), update_at table k (registered (i + k) a))
unfolding register_from first_free update_at
register_from_lem i k a [] r t l f = cc
register_from_lem i zero a (d ∷ table) r t l f =
    let free : d.pid ≡ 0 = ground arith in ground (arith, strcpy_lem d.name a.name t (omega arith))
register_from_lem i (suc k) a (d ∷ table) r t l f =
    let later : first_free table ≡ some k = ground arith in
    let there : i + 1 + k ≡ i + suc k = omega arith in
    let ih = rw there at (register_from_lem (i + 1) k a table r.1 t l later) in ground (arith, ih)

register_from_full :
    (i : ℕ) (a : NewProc) (table : List ProcessDesc)
    → first_free table ≡ none
    → register_from i a table ≡ ok (none, table)
unfolding register_from first_free
register_from_full i a [] f = refl
register_from_full i a (d ∷ table) f = ground (arith, register_from_full (i + 1) a table)

register_from_overflow :
    (i k : ℕ) (a : NewProc) (table : List ProcessDesc)
    → HaveRoom table
    → has_nul a.name ≡ true
    → 32 ≤ length (text_of a.name)
    → first_free table ≡ some k
    → register_from i a table ≡ stop bounds
unfolding register_from first_free
register_from_overflow i k a [] r t l f = cc
register_from_overflow i zero a (d ∷ table) r t l f =
    let free : d.pid ≡ 0 = ground arith in
    ground (arith, strcpy_overflow d.name a.name t (omega arith))
register_from_overflow i (suc k) a (d ∷ table) r t l f =
    let later : first_free table ≡ some k = ground arith in
    ground (arith, register_from_overflow (i + 1) k a table r.1 t l later)

pub register_proc_lem :
    (k : ℕ) (a : NewProc) (p : Processes)
    → HaveRoom p.table
    → has_nul a.name ≡ true
    → length (text_of a.name) < 32
    → first_free p.table ≡ some k
    → register_proc a p
      ≡ ok (some (k + 1), record p { table = update_at p.table k (registered k a) })
unfolding register_proc
register_proc_lem k a p r t l f =
    rw (register_from_lem 0 k a p.table r t l f) (let z : 0 + k ≡ k = omega arith in rw z)

-- With no free slot `register_proc` returns -1 and changes nothing.
pub register_proc_refuses :
    (a : NewProc) (p : Processes) → first_free p.table ≡ none → register_proc a p ≡ ok (none, p)
unfolding register_proc
register_proc_refuses a p f = rw (register_from_full 0 a p.table f)

-- With a free slot, a name of 32 characters or more is written past the end of the slot's field.
pub register_proc_overflow :
    (k : ℕ) (a : NewProc) (p : Processes)
    → HaveRoom p.table
    → has_nul a.name ≡ true
    → 32 ≤ length (text_of a.name)
    → first_free p.table ≡ some k
    → register_proc a p ≡ stop bounds
unfolding register_proc
register_proc_overflow k a p r t l f = rw (register_from_overflow 0 k a p.table r t l f)

first_free-lt : (k : ℕ) (table : List ProcessDesc) → first_free table ≡ some k → k < length table
unfolding first_free
first_free-lt k [] f = cc
first_free-lt zero (d ∷ table) f = omega arith
first_free-lt (suc k) (d ∷ table) f =
    let later : first_free table ≡ some k = ground arith in
    omega (arith, first_free-lt k table later)

IsNumbered-after :
    (i k : ℕ) (a : NewProc) (table : List ProcessDesc)
    → IsNumbered i table
    → IsNumbered i (update_at table k (registered (i + k) a))
unfolding update_at
IsNumbered-after i k a [] n = tt
IsNumbered-after i zero a (d ∷ table) n = (inr (omega arith), n.1)
IsNumbered-after i (suc k) a (d ∷ table) n =
    let there : i + suc k ≡ i + 1 + k = omega arith in
    (n.0, rw there (IsNumbered-after (i + 1) k a table n.1))

IsNumbered-cleared :
    (i k : ℕ) (table : List ProcessDesc)
    → IsNumbered i table
    → IsNumbered i (update_at table k clear_pid)
unfolding update_at
IsNumbered-cleared i k [] n = tt
IsNumbered-cleared i zero (d ∷ table) n = (inl refl, n.1)
IsNumbered-cleared i (suc k) (d ∷ table) n = (n.0, IsNumbered-cleared (i + 1) k table n.1)

abbrev pub pids : List ProcessDesc → List ℕ
pids table = map (λ d. d.pid) table

pids_restored :
    (k : ℕ) (f : ProcessDesc → ProcessDesc) (table : List ProcessDesc)
    → first_free table ≡ some k
    → pids (update_at (update_at table k f) k clear_pid) ≡ pids table
unfolding update_at first_free
pids_restored k f [] e = refl
pids_restored zero f (d ∷ table) e = ground arith
pids_restored (suc k) f (d ∷ table) e = ap (λ t. d.pid ∷ t) (pids_restored k f table (ground arith))

-- Unregistering the process that was just registered gives back the pids of the whole table, the
-- registered slot's among them.
pub unregister_proc-register_proc :
    (k : ℕ) (a : NewProc) (p : Processes)
    → HaveRoom p.table
    → has_nul a.name ≡ true
    → length (text_of a.name) < 32
    → first_free p.table ≡ some k
    → (q : Processes) × ((register_proc a p >>= λ r. unregister_proc (k + 1) r.1) ≡ ok q)
      × (pids q.table ≡ pids p.table)
      × (q.current ≡ p.current)
unfolding unregister_proc
unregister_proc-register_proc k a p r t l f = (
  record p { table = update_at (update_at p.table k (registered k a)) k clear_pid },
  rw (register_proc_lem k a p r t l f, add-one)
      (rw (
        modify_lem (update_at p.table k (registered k a)) k clear_pid
          (omega (arith, first_free-lt k p.table f, length-update_at p.table k (registered k a))))),
  pids_restored k (registered k a) p.table f,
  refl,
)

-- Registering keeps the numbering of the slots, and so does unregistering any of them.
pub registered-IsNumbered :
    (k : ℕ) (a : NewProc) (table : List ProcessDesc)
    → IsNumbered 0 table
    → IsNumbered 0 (update_at table k (registered k a)) × IsNumbered 0 (update_at table k clear_pid)
registered-IsNumbered k a table n = (
  (let z : 0 + k ≡ k = omega arith in rw z at (IsNumbered-after 0 k a table n)),
  IsNumbered-cleared 0 k table n,
)
