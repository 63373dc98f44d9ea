-- ===== src/Program/Returns.antt =====
-- `run_program` of kernel/kernel.c for a program whose system calls end: it comes back.
use rml.Base.{
  ℕ, suc, Outcome, ◌>>=◌, ◌+◌, ◌*◌, ◌^◌, ◌≤◌, ◌<◌, true, List, length, length-update_at, update_at,
  modify_lem, literal, some, pos, inl, inr, ok, ◌≡◌, refl, sym, ap, ◌∙◌, subst, arith,
}
use rml.Base.Post.{result_of}
use rml.Block.Transfer.{Serves}
use rml.Clib.Text.Scan.{text_of, has_nul, lexicographic}
use rml.Files.Laws.{device_of}
use rml.Mm.{get_free_seg, release_seg}
use rml.Sched.{clear_pid, unregister_proc}
use rml.Sched.Table.{HaveRoom, first_free, registered}
use rml.Sched.Running.{switched, set_running_proc_lem}
use rml.Kernel.{Kernel, open_file}
use rml.Kernel.Frame.{allocation, pids_of, length-pids, open_file-Keeps}
use rml.Fs.Layout.{Fat16Entry}
use rml.Fs.Volume.{cluster_size}
use rml.Fs.Volume.Memory.{in_place}
use rml.Fs.Volume.Load.{places_of, IsChain, file_bytes}
use rml.Syscall.{System, Program, Left, with_running}
use rml.Syscall.Frame.{with_running-Restores}
use rml.Program.{Loaded, load, run_calls, run_loaded, run_program}
use rml.Program.Restores.{
  HasFree, load-Ready, inside-HasFree, run_calls-Keeps, run_program-Restores, run_program_lem,
}
use rml.Program.Load.{upper, HasFiles, file_named}
use rml.Program.Load.Found.{load_lem}
use rml.Program.Exits.{HasTable, HasTable-update_at, HasTable-switched, open_process, lt_of_slot}

-- Where a program of slot `i` starts: the kernel as `load` left it, but for the process table, with
-- the program as the current process.
pub record Starts (i : ℕ) (k k' : Kernel) : Type 0 where
  pub rest : k' ≡ record k { processes = k'.processes }
  pub current : k'.processes.current ≡ suc i
  pub slot : HasTable i k'.processes.table

-- What `run_program` does before the far call: the process runs, and opens its input and output.
abbrev pub enters : ℕ → Kernel → Outcome Kernel
enters pid k = do
  k1 ← with_running pid k
  (_, k2) ← open_file (literal "/dev/stdin") pid k1
  (_, k3) ← open_file (literal "/dev/stdout") pid k2
  ok k3

-- From a kernel the calls of a program end.
abbrev pub CallsEnd : System → ℕ → Program → List ℕ → Kernel → Type 0
CallsEnd s nesting p name k =
    (params : List ℕ) × (k' : Kernel) × (run_calls s (run_program s nesting) p name k
      ≡ ok (params, k'))

-- `load` gives `l`, the program is entered, and its calls end with the block `params`.
abbrev pub Runs : System → ℕ → List ℕ → Loaded → Kernel → List ℕ → Type 0
Runs s nesting name l k params =
    (k1 : Kernel) × (k3 : Kernel) × (k4 : Kernel) × (load s name k ≡ ok (l, k1))
    × (enters l.pid k1 ≡ ok k3)
    × (run_calls s (run_program s nesting) (s.farcall l.segment k3.ram) l.name k3 ≡ ok (params, k4))

module _ (s : System) where
  -- What `load` leaves free for the programs that the loaded one runs.
  inside_loaded :
      (nesting i : ℕ) (name : List ℕ) (k : Kernel) (r : Loaded × Kernel)
      → HasFree (suc nesting) (allocation k)
      → load s name k ≡ ok r
      → r.0.retcode ≡ 0
      → r.0.pid ≡ suc i
      → HasFree nesting (record (allocation r.1) { current = suc i })
  inside_loaded nesting i name k r free run loaded pid =
      elim (result_of (load-Ready s name k (omega (arith, free.slots))) run) [
        | inl (missing, place, same) ↦ absurd (omega (arith, loaded, missing))
        | inr (j, found, place, pid', took, same) ↦
            let slot : j ≡ i = omega (arith, pid, pid') in
            subst (λ j. HasFree nesting (record (allocation r.1) { current = suc j })) slot
              (inside-HasFree s.stale_segment nesting j k r.1 free took (ap (λ a. a.segs) same))
      ]

  -- The pids and the segments as they are when the program starts.
  started :
      (i : ℕ) (k : Kernel)
      → HasTable i k.processes.table
      → k.processes.current ≤ length k.processes.table
      → (k1 : Kernel) × (k2 : Kernel) × (k3 : Kernel) × (with_running (suc i) k ≡ ok k1)
        × (open_file (literal "/dev/stdin") (suc i) k1 ≡ ok (pos 0, k2))
        × (open_file (literal "/dev/stdout") (suc i) k2 ≡ ok (pos 1, k3))
        × Starts i k k3
        × (allocation k3 ≡ record (allocation k) { current = suc i })
  unfolding has_nul text_of device_of lexicographic
  started i k has low =
      let (d, found, six) = has in
      let inside = lt_of_slot i k.processes.table d found in
      let k1 = record k { processes = switched i k.processes } in
      let run1 : with_running (suc i) k ≡ ok k1 =
        (rw (set_running_proc_lem i k.processes inside low) refl) in
      let (k2, run2, has2, rest2, procs2) =
        open_process i 0 k1 (literal "/dev/stdin") refl refl
          (HasTable-switched i k.processes has) in
      let (k3, run3, has3, rest3, procs3) =
        open_process i 1 k2 (literal "/dev/stdout") refl refl has2 in
      (
        k1,
        k2,
        k3,
        run1,
        run2,
        run3,
        record {
          rest = rest3 ∙ ap {A = Kernel} (λ q. record q { processes = k3.processes }) rest2;
          current = ap (λ p. p.current) procs3 ∙ ap (λ p. p.current) procs2;
          slot = has3;
        },
        result_of (open_file-Keeps (literal "/dev/stdout") (suc i) k2) run3
            ∙ result_of (open_file-Keeps (literal "/dev/stdin") (suc i) k1) run2
            ∙ result_of (with_running-Restores (suc i) k) run1,
      )

  -- A loaded program whose calls end, from `set_running_proc` to `unregister_proc`.
  run_loaded_returns :
      (nesting : ℕ) (l : Loaded) (i : ℕ) (k : Kernel)
      → l.pid ≡ suc i
      → HasTable i k.processes.table
      → k.processes.current ≤ length k.processes.table
      → HasFree nesting (record (allocation k) { current = suc i })
      → ((k3 : Kernel)
          → enters (suc i) k ≡ ok k3
          → Starts i k k3
          → CallsEnd s nesting (s.farcall l.segment k3.ram) l.name k3)
      → (params : List ℕ) × (k' : Kernel) × (run_loaded s (run_program s nesting) l k
          ≡ ok (params, k'))
        × (k'.processes.current ≡ suc i)
        × ((k3 : Kernel) × (k4 : Kernel) × (enters l.pid k ≡ ok k3)
            × (run_calls s (run_program s nesting) (s.farcall l.segment k3.ram) l.name k3
                ≡ ok (params, k4)))
  unfolding run_loaded unregister_proc
  run_loaded_returns nesting l i k pid has low free ends =
      let (k1, k2, k3, run1, run2, run3, starts, kept) = started i k has low in
      let entered : enters (suc i) k ≡ ok k3 = (rw (run1, run2, run3) refl) in
      let (params, k4, run4) = ends k3 entered starts in
      let (d, found, six) = starts.slot in
      let same : allocation k4 ≡ allocation k3 =
        result_of
          (run_calls-Keeps s (run_program s nesting) (allocation k3)
            (λ given k' e.
              run_program-Restores s nesting given k'
                (subst (HasFree nesting) (sym (e ∙ kept)) free))
            (s.farcall l.segment k3.ram) l.name k3 refl)
          run4 in
      let inside : i < length k4.processes.table = omega (
        arith,
        lt_of_slot i k3.processes.table d found,
        length-pids k3.processes.table,
        length-pids k4.processes.table,
        ap (λ a. length a.pids) same,
      ) in
      (
        params,
        record k4 {
          processes = record k4.processes { table = update_at k4.processes.table i clear_pid };
        },
        (rw (pid, run1, run2, run3, run4, modify_lem k4.processes.table i clear_pid inside) refl),
        ap (λ a. a.current) same ∙ starts.current,
        (k3, k4, ap (λ p. enters p k) pid ∙ entered, run4),
      )

module _ (s : System) {disk : ℕ → List ℕ} (served : Serves s.machine.bios 1 disk) where
  -- Let the mounted volume and the file be as `load` needs them: the volume as `HasFiles` says,
  -- with a file of the name in capitals, whose chain of `n + 1` clusters of 4096 bytes `read_drive`
  -- can read and one segment has room for; a terminated name of fewer than 32 characters; a process
  -- table whose names have 32 bytes and whose first free slot is `i`, which has its six
  -- descriptors; a cluster buffer of 4096 bytes, a segment below 2^16, and fuel beyond the name and
  -- the chain. Let the current pid be in the table or 0, more segments and slots than `nesting` be
  -- free, and no two segments have one address. Let the calls of the program that stands in the
  -- segment end, with the programs that it runs going at most `nesting` deep, from the one kernel
  -- where it starts: `k1` is what `load` gives, with the file's clusters in memory, and `k3` is that
  -- once process `i + 1` runs and has opened its input and output. Then `run_program` comes back
  -- with 0; `load` has left the name in capitals, and `params` holds the block that those calls end
  -- with; every segment and every slot is used or free as before, and process `i + 1` is the current
  -- one.
  pub run_program_returns :
      (e : ℕ → ℕ) (nesting fuel start n i : ℕ) (name : List ℕ) (file : Fat16Entry) (k : Kernel)
      → s.fuel ≡ suc fuel
      → HasFiles s disk start k
      → has_nul name ≡ true
      → length (text_of name) < s.fuel
      → length (text_of name) < 32
      → HaveRoom k.processes.table
      → first_free k.processes.table ≡ some i
      → HasTable i k.processes.table
      → k.processes.current ≤ length k.processes.table
      → file_named disk start k name ≡ some file
      → ((c : ℕ) → e c < 4096)
      → cluster_size k.bs ≡ 4096
      → IsChain disk e (places_of k) n file.starting_cluster
      → n < s.fuel
      → 4096 * (n + 1) ≤ 2 ^ 16
      → length s.stale_cluster ≡ 4096
      → (get_free_seg s.stale_segment k.segs).0 < 2 ^ 16
      → HasFree (suc nesting) (allocation k)
      → let (segment, segs) = get_free_seg s.stale_segment k.segs in
        ((k1 k3 : Kernel)
          → load s name k
            ≡ ok (record { retcode = 0; pid = i + 1; segment = segment; name = upper name }, k1)
          → enters (suc i) k1 ≡ ok k3
          → ((p : ℕ)
              → k1.ram p
                ≡ in_place
                    (segment * 16)
                    (4096 * (n + 1))
                    (file_bytes disk e (places_of k) n file.starting_cluster)
                    k.ram
                    p)
          → k1 ≡ record k {
            segs = segs;
            fd_list = k1.fd_list;
            console = k1.console;
            ram = k1.ram;
            processes = k1.processes;
          }
          → Starts i k1 k3
          → CallsEnd s nesting (s.farcall segment k3.ram) (upper name) k3)
        → (params : List ℕ) × (k' : Kernel) × (run_program s (suc nesting) name k
            ≡ ok (0, record { name = upper name; params = params }, k'))
          × Runs s nesting name
              (record { retcode = 0; pid = i + 1; segment = segment; name = upper name })
              k
              params
          × (k'.segs ≡ k.segs)
          × (pids_of k'.processes.table ≡ pids_of k.processes.table)
          × (k'.processes.current ≡ suc i)
  unfolding run_program
  run_program_returns e nesting fuel start n i name file k some_fuel files ended short fits_name
        room slot has low found below size chain enough fits buffer small free ends =
      let (segment, segs) = get_free_seg s.stale_segment k.segs in
      let (k1, run1, memory, procs, rest1) =
        load_lem s served e fuel start n i name file k some_fuel files ended short fits_name room
          slot found below size chain enough fits buffer small in
      let l : Loaded = record { retcode = 0; pid = i + 1; segment = segment; name = upper name } in
      let pid : i + 1 ≡ suc i = omega arith in
      let has1 : HasTable i k1.processes.table =
        subst (λ p. HasTable i p.table) (sym procs)
          (HasTable-update_at i i k.processes.table (registered i _) (λ d. refl) has) in
      let low1 : k1.processes.current ≤ length k1.processes.table =
        subst (λ p. p.current ≤ length p.table) (sym procs)
          (omega (arith, length-update_at k.processes.table i (registered i _), low)) in
      let free1 : HasFree nesting (record (allocation k1) { current = suc i }) =
        inside_loaded s nesting i name k (l, k1) free run1 refl pid in
      let (params, k2, run2, current, (k3, k4, entered, calls)) =
        run_loaded_returns s nesting l i k1 pid has1 low1 free1
          (λ k3 entered starts. ends k1 k3 run1 entered memory rest1 starts) in
      let left : Left = record { name = upper name; params = params } in
      let k' = record k2 { segs = (release_seg segment k2.segs).1 } in
      let run : run_program s (suc nesting) name k ≡ ok (0, left, k') = (rw (run1, run2) refl) in
      let (same_segs, same_pids) = run_program_lem s (suc nesting) name k 0 left k' free run in
      (params, k', run, (k1, k3, k4, run1, entered, calls), same_segs, same_pids, current)
