-- ===== src/Program/Restores.antt =====
-- Running programs gives back every segment and every process slot (kernel/kernel.c).
use rml.Base.{
  ℕ, zero, suc, ◌≤◌, List, literal, update_at, Option, none, some, Outcome, ok, ◌≡◌, ◌⊎◌, inl, inr,
  refl, sym, ap, ◌∙◌, subst, arith,
}
use rml.Base.Post.{Post, result_of, returns, stops, Post-then, Post-bind}
use rml.Clib.Letters.{stoupper}
use rml.Mm.{Segs, get_free_seg, release_seg}
use rml.Mm.Laws.{addresses, Distinct, addresses-get_free_seg}
use rml.Mm.FreeList.{release_seg-get_free_seg}
use rml.Sched.{register_proc, unregister_proc, get_running_proc}
use rml.Kernel.{Kernel, open_file}
use rml.Kernel.Frame.{Allocation, allocation, pids_of, open_file-Keeps}
use rml.Fs.Layout.{Fat16Entry}
use rml.Fs.Entry.{get_file}
use rml.Fs.Volume.{load_file_content}
use rml.Fs.Directory.{get_root_files}
use rml.Fs.Frame.{get_root_files-Keeps, load_file_content-Keeps}
use rml.Syscall.{System, Program, exit, call, Left, with_running, dispatch}
use rml.Syscall.Frame.{Restores, with_running-Restores, dispatch-Keeps}
use rml.Program.{Loaded, get_or_stale, load_found, load, run_calls, run_loaded, run_program}
use rml.Program.Slots.{
  free_segs, free_slots, any_free-free_segs, free_segs-get_free_seg, Took, register_proc-Took,
  unregister_proc-pids,
}

-- There are `n` free segments and `n` free slots, and no two segments of one address.
pub record HasFree (n : ℕ) (a : Allocation) : Type 0 where
  pub distinct : Distinct (addresses a.segs)
  pub segments : n ≤ free_segs a.segs
  pub slots : n ≤ free_slots a.pids

abbrev pub with_segs : Segs → Kernel → Allocation
with_segs segs k = record (allocation k) { segs = segs }

-- What `load` leaves: the segment is taken; no file was found, or a slot is taken and its pid given.
abbrev pub Missing : ℕ → Segs → Kernel → Loaded × Kernel → Type 0
Missing segment segs k r =
    (r.0.retcode ≡ 1) × (r.0.segment ≡ segment) × (allocation r.1 ≡ with_segs segs k)

abbrev pub Ready : ℕ → Segs → Kernel → Loaded × Kernel → Type 0
Ready segment segs k r =
    (j : ℕ) × (r.0.retcode ≡ 0)
    × (r.0.segment ≡ segment)
    × (r.0.pid ≡ suc j)
    × Took j (pids_of k.processes.table) (pids_of r.1.processes.table)
    × (allocation r.1 ≡ record (with_segs segs k) { pids = pids_of r.1.processes.table })

released :
    (k k2 : Kernel) (segs : Segs) (segment place : ℕ)
    → place ≡ segment
    → (release_seg segment segs).1 ≡ k.segs
    → allocation k2 ≡ record (with_segs segs k) { current = k2.processes.current }
    → Restores k (record k2 { segs = (release_seg place k2.segs).1 })
released k k2 segs segment place same back kept =
    ap {A = Allocation} (λ a. record a { segs = (release_seg place a.segs).1 }) kept
    ∙ ap
        (λ t. record { segs = t; pids = pids_of k.processes.table; current = k2.processes.current })
        (ap (λ t. (release_seg t segs).1) same ∙ back)

-- What stays free while a program runs that has taken a segment and slot `j`.
pub inside-HasFree :
    (stale nesting j : ℕ) (k k1 : Kernel)
    → HasFree (suc nesting) (allocation k)
    → Took j (pids_of k.processes.table) (pids_of k1.processes.table)
    → k1.segs ≡ (get_free_seg stale k.segs).1
    → HasFree nesting (record (allocation k1) { current = suc j })
inside-HasFree stale nesting j k k1 free took same =
    let one : 1 ≤ free_segs k.segs = omega (arith, free.segments) in
    record {
      distinct =
          subst (λ t. Distinct (addresses t)) (sym same)
            (subst Distinct (sym (addresses-get_free_seg stale k.segs)) free.distinct);
      segments =
          subst (λ t. nesting ≤ free_segs t) (sym same)
            (omega (arith, free_segs-get_free_seg stale k.segs one, free.segments));
      slots = omega (arith, took.count, free.slots);
    }

module _ (s : System) where
  load_found-Ready :
      (found : Option Fat16Entry) (segment : ℕ) (name : List ℕ) (segs : Segs) (k k1 : Kernel)
      → 1 ≤ free_slots (pids_of k.processes.table)
      → allocation k1 ≡ with_segs segs k
      → Post
          (λ r. Missing segment segs k r ⊎ Ready segment segs k r)
          (load_found s found segment name k1)
  unfolding load_found get_running_proc
  load_found-Ready none segment name segs k k1 free same = returns (inl (refl, refl, same))
  load_found-Ready (some file) segment name segs k k1 free same =
      Post-bind (load_file_content s.machine s.fuel file segment 0 s.stale_cluster k1)
        (load_file_content-Keeps s.machine s.fuel file segment 0 s.stale_cluster k1)
        λ k2 kept.
          let same2 : allocation k2 ≡ with_segs segs k = kept ∙ same in
          let pids2 : pids_of k2.processes.table ≡ pids_of k.processes.table =
            ap (λ a. a.pids) same2 in
          Post-bind (register_proc _ k2.processes)
            (register_proc-Took _ k2.processes (subst (λ l. 1 ≤ free_slots l) (sym pids2) free))
            λ r (j, found, took, current). returns (
              inr (
                j,
                refl,
                refl,
                ap (get_or_stale s.stale_pid) found,
                subst (λ l. Took j l (pids_of r.1.table)) pids2 took,
                ap (λ c. record { segs = k2.segs; pids = pids_of r.1.table; current = c }) current
                    ∙ ap {A = Allocation} (λ a. record a { pids = pids_of r.1.table }) same2,
              ))

  pub load-Ready :
      (name : List ℕ) (k : Kernel)
      → 1 ≤ free_slots (pids_of k.processes.table)
      → let (segment, segs) = get_free_seg s.stale_segment k.segs in
        Post (λ r. Missing segment segs k r ⊎ Ready segment segs k r) (load s name k)
  unfolding load
  load-Ready name k free =
      let (segment, segs) = get_free_seg s.stale_segment k.segs in
      let taken = record k { segs = segs } in
      Post-bind (get_root_files s.machine s.stale_files taken)
        (get_root_files-Keeps s.machine s.stale_files taken)
        λ r kept. Post-then (stoupper s.fuel name) λ name'.
          Post-then (get_file s.fuel r.1.bs.root_dir_entries r.0 name')
            λ found. load_found-Ready found segment name' segs k r.1 free kept

  -- A program whose calls of `run_program` give back what they take keeps the allocation.
  pub run_calls-Keeps :
      (run : List ℕ → Kernel → Outcome (ℕ × Left × Kernel)) (a : Allocation)
      → ((params : List ℕ) (k : Kernel)
          → allocation k ≡ a
          → Post (λ r. Restores k r.2) (run params k))
      → (p : Program) (params : List ℕ) (k : Kernel) → allocation k ≡ a
      → Post (λ r. allocation r.1 ≡ a) (run_calls s run p params k)
  unfolding run_calls
  run_calls-Keeps run a safe exit params k same = returns same
  run_calls-Keeps run a safe (call service given clock next) params k same =
      Post-bind (dispatch s run service given clock k)
        (dispatch-Keeps s run service given clock k (safe given k same))
        λ r kept. run_calls-Keeps run a safe (next r.0) r.0 r.1 (kept ∙ same)

  -- A loaded program whose slot `j` was free gives the slot back.
  run_loaded-Frees :
      (run : List ℕ → Kernel → Outcome (ℕ × Left × Kernel)) (l : Loaded) (j : ℕ) (pids : List ℕ)
      (k : Kernel)
      → l.pid ≡ suc j
      → Took j pids (pids_of k.processes.table)
      → ((params : List ℕ) (k' : Kernel)
          → allocation k' ≡ record (allocation k) { current = suc j }
          → Post (λ r. Restores k' r.2) (run params k'))
      → Post
          (λ r.
            allocation r.1 ≡ record { segs = k.segs; pids = pids; current = r.1.processes.current })
          (run_loaded s run l k)
  unfolding run_loaded
  run_loaded-Frees run l j pids k pid took safe =
      let inside = record (allocation k) { current = suc j } in
      rw pid (
        Post-bind (with_running (suc j) k) (with_running-Restores (suc j) k) λ k1 h1.
          Post-bind (open_file (literal "/dev/stdin") (suc j) k1)
            (open_file-Keeps (literal "/dev/stdin") (suc j) k1)
            λ r2 h2.
              Post-bind (open_file (literal "/dev/stdout") (suc j) r2.1)
                (open_file-Keeps (literal "/dev/stdout") (suc j) r2.1)
                λ r3 h3.
                  Post-bind (run_calls s run (s.farcall l.segment r3.1.ram) l.name r3.1)
                    (run_calls-Keeps run inside safe (s.farcall l.segment r3.1.ram) l.name r3.1
                      (h3 ∙ h2 ∙ h1))
                    λ r4 h4.
                      Post-bind (unregister_proc (suc j) r4.1.processes)
                        (unregister_proc-pids j r4.1.processes)
                        λ q (h5, _). returns (
                          ap (λ l. record { segs = r4.1.segs; pids = l; current = q.current }) h5
                          ∙ ap {A = Allocation}
                              (λ a. record {
                                segs = a.segs;
                                pids = update_at a.pids j (λ _. 0);
                                current = q.current;
                              })
                              h4
                          ∙ ap (λ l. record { segs = k.segs; pids = l; current = q.current })
                              took.back))

  -- Whatever the programs do, and whatever the names, if at least `nesting` segments and slots are free
  -- and programs run one another at most `nesting` deep: when `run_program` returns, every segment and
  -- every slot of the process table is used or free as it was before.
  pub run_program-Restores :
      (nesting : ℕ) (name : List ℕ) (k : Kernel)
      → HasFree nesting (allocation k)
      → Post (λ r. Restores k r.2) (run_program s nesting name k)
  unfolding run_program
  run_program-Restores zero name k free = stops
  run_program-Restores (suc nesting) name k free =
      let (segment, segs) = get_free_seg s.stale_segment k.segs in
      let one : 1 ≤ free_segs k.segs = omega (arith, free.segments) in
      let some_slot : 1 ≤ free_slots (pids_of k.processes.table) = omega (arith, free.slots) in
      let back : (release_seg segment segs).1 ≡ k.segs =
        release_seg-get_free_seg s.stale_segment k.segs free.distinct
          (any_free-free_segs k.segs one) in
      Post-bind (load s name k) (load-Ready name k some_slot) λ r loaded. elim loaded [
        | inl (missing, place, same) ↦ rw missing (
            returns (
              released k r.1 segs segment r.0.segment place back (
                same
                ∙ ap (λ c. record (with_segs segs k) { current = c })
                    (sym (ap (λ a. a.current) same)))))
        | inr (j, found, place, pid, took, same) ↦
            let free' =
              inside-HasFree s.stale_segment nesting j k r.1 free took (ap (λ a. a.segs) same) in
            let safe : (params : List ℕ) (k' : Kernel)
                → allocation k' ≡ record (allocation r.1) { current = suc j }
                → Post (λ q. Restores k' q.2) (run_program s nesting params k') =
              λ params k' e.
                run_program-Restores nesting params k' (subst (HasFree nesting) (sym e) free') in
            rw found (
              Post-bind (run_loaded s (run_program s nesting) r.0 r.1)
                (run_loaded-Frees (run_program s nesting) r.0 j (pids_of k.processes.table) r.1 pid
                  took safe)
                λ (_, k2) h. returns (
                  released k k2 segs segment r.0.segment place back (
                    h
                    ∙ ap
                        (λ t. record {
                          segs = t;
                          pids = pids_of k.processes.table;
                          current = k2.processes.current;
                        })
                        (ap (λ a. a.segs) same))))
      ]

  -- If at least `nesting` segments and slots are free, no two segments have one address, and programs
  -- run one another at most `nesting` deep, then a run of `run_program` that returns, whatever the
  -- programs do and whether or not the file is found, leaves the segment table as it was and the
  -- pids of the process table as they were.
  pub run_program_lem :
      (nesting : ℕ) (name : List ℕ) (k : Kernel) (retcode : ℕ) (left : Left) (k' : Kernel)
      → HasFree nesting (allocation k)
      → run_program s nesting name k ≡ ok (retcode, left, k')
      → (k'.segs ≡ k.segs) × (pids_of k'.processes.table ≡ pids_of k.processes.table)
  run_program_lem nesting name k retcode left k' free run =
      let same : Restores k k' = result_of (run_program-Restores nesting name k free) run in
      (ap (λ a. a.segs) same, ap (λ a. a.pids) same)
