-- ===== src/Program/Exits.antt =====
-- `run_program` of kernel/kernel.c for a program that only exits: it comes back with 0.
use mathlib.Core.Option
use rml.Base.{
  ℕ, zero, suc, ◌+◌, ◌-◌, ◌*◌, ◌^◌, ◌≤◌, ◌<◌, true, pos, List, [], ◌∷◌, length, length-update_at,
  update_at, get_elem?, get_elem?-update_at, fetch_lem, modify_lem, literal, some, ◌==◌, Bool-cases,
  inl, inr, Outcome, ok, ◌≡◌, refl, sym, ap, ◌∙◌, subst, arith,
}
use rml.Block.Transfer.{Serves}
use rml.Clib.Text.Scan.{text_of, has_nul, lexicographic}
use rml.Files.Laws.{device_of, entry_of, open_in_lem}
use rml.Mm.{get_free_seg, release_seg}
use rml.Mm.Laws.{addresses, Distinct, any_free}
use rml.Mm.FreeList.{release_seg-get_free_seg}
use rml.Sched.{ProcessDesc, Processes, clear_pid, unregister_proc, ready, running, with_state}
use rml.Sched.Table.{HaveRoom, first_free, registered}
use rml.Sched.Running.{switched, set_running_proc_lem}
use rml.Kernel.{Kernel, on_table, open_file, with_files}
use rml.Fs.Layout.{Fat16Entry}
use rml.Fs.Volume.{cluster_size}
use rml.Fs.Volume.Memory.{in_place}
use rml.Fs.Volume.Load.{places_of, IsChain, file_bytes}
use rml.Syscall.{System, Left, exit, only_name}
use rml.Program.{Loaded, run_calls, run_loaded, run_program}
use rml.Program.Load.{upper, HasFiles, file_named}
use rml.Program.Load.Found.{load_lem}

-- Slot `i` of the table is there and has its own six descriptors.
abbrev pub HasTable : ℕ → List ProcessDesc → Type 0
HasTable i table = (d : ProcessDesc) × (get_elem? table i ≡ some d) × (length d.files_table ≡ 6)

pub HasTable-update_at :
    (i j : ℕ) (table : List ProcessDesc) (f : ProcessDesc → ProcessDesc)
    → ((d : ProcessDesc) → length (f d).files_table ≡ length d.files_table)
    → HasTable i table
    → HasTable i (update_at table j f)
HasTable-update_at i j table f same (d, found, six) = elim (Bool-cases (j == i)) [
  | inl e ↦
      (f d, get_elem?-update_at table j i f ∙ (rw e (ap (λ o. Option.map f o) found)), same d ∙ six)
  | inr e ↦ (d, get_elem?-update_at table j i f ∙ (rw e found), six)
]

pub lt_of_slot :
    (i : ℕ) (table : List ProcessDesc) (d : ProcessDesc)
    → get_elem? table i ≡ some d
    → i < length table
lt_of_slot i [] d h = cc
lt_of_slot zero (x ∷ table) d h = omega arith
lt_of_slot (suc i) (x ∷ table) d h = omega (arith, lt_of_slot i table d h)

pub HasTable-switched :
    (i : ℕ) (p : Processes) → HasTable i p.table → HasTable i (switched i p).table
HasTable-switched i p has = elim (Bool-cases (p.current == 0)) [
  | inl e ↦ (rw e (HasTable-update_at i i p.table (with_state running) (λ d. refl) has))
  | inr e ↦
      (rw e (
        HasTable-update_at i i (update_at p.table (p.current - 1) (with_state ready))
          (with_state running) (λ d. refl)
          (HasTable-update_at i (p.current - 1) p.table (with_state ready) (λ d. refl) has)))
]

-- What opening a device for process `i + 1` leaves.
abbrev pub Opens : ℕ → ℕ → Kernel → List ℕ → Type 0
Opens i fd k path =
    (k' : Kernel) × (open_file path (suc i) k ≡ ok (pos fd, k'))
    × HasTable i k'.processes.table
    × (k' ≡ record k { processes = k'.processes })
    × (k'.processes ≡ record k.processes { table = k'.processes.table })

pub open_process :
    (i fd : ℕ) (k : Kernel) (path : List ℕ)
    → has_nul path ≡ true
    → device_of (text_of path) ≡ some fd
    → HasTable i k.processes.table
    → Opens i fd k path
unfolding open_file on_table
open_process i fd k path ended known (d, found, six) =
    let files = update_at d.files_table fd (entry_of k.s_pos fd) in
    let table = update_at k.processes.table i (with_files files) in
    let same : (i == i) ≡ true = ground arith in
    let at_i : get_elem? table i ≡ some (with_files files d) =
      get_elem?-update_at k.processes.table i i (with_files files)
      ∙ (rw same (ap (λ o. Option.map (with_files files) o) found)) in
    (
      record k { processes = record k.processes { table = table } },
      (rw
          (
            fetch_lem k.processes.table i d found,
            open_in_lem k.s_pos path d.files_table ended six,
            known,
            modify_lem k.processes.table i (with_files files)
                (lt_of_slot i k.processes.table d found),
          )
          refl),
      (with_files files d, at_i, length-update_at d.files_table fd (entry_of k.s_pos fd) ∙ six),
      refl,
      refl,
    )

-- A loaded program that only exits, from `set_running_proc` to `unregister_proc`.
run_loaded_exits :
    (s : System) (run : List ℕ → Kernel → Outcome (ℕ × Left × Kernel)) (l : Loaded) (i : ℕ)
    (k : Kernel)
    → l.pid ≡ suc i
    → HasTable i k.processes.table
    → k.processes.current ≤ length k.processes.table
    → s.farcall l.segment k.ram ≡ exit
    → (k' : Kernel) × (run_loaded s run l k ≡ ok (l.name, k'))
      × (k' ≡ record k { processes = k'.processes })
      × (k'.processes.current ≡ suc i)
unfolding run_loaded run_calls unregister_proc has_nul text_of device_of lexicographic
run_loaded_exits s run l i k pid has low exits =
    let (d, found, six) = has in
    let inside = lt_of_slot i k.processes.table d found in
    let k1 = record k { processes = switched i k.processes } in
    let (k2, run2, has2, rest2, procs2) =
      open_process i 0 k1 (literal "/dev/stdin") refl refl (HasTable-switched i k.processes has) in
    let (k3, run3, has3, rest3, procs3) =
      open_process i 1 k2 (literal "/dev/stdout") refl refl has2 in
    let (d3, found3, six3) = has3 in
    let ram : k3.ram ≡ k.ram = ap (λ q. q.ram) rest3 ∙ ap (λ q. q.ram) rest2 in
    let exits3 : s.farcall l.segment k3.ram ≡ exit = ap (λ r. s.farcall l.segment r) ram ∙ exits in
    let freed : Processes = record k3.processes {
      table = update_at k3.processes.table i clear_pid;
    } in
    (
      record k3 { processes = freed },
      (rw
          (
            pid,
            set_running_proc_lem i k.processes inside low,
            run2,
            run3,
            exits3,
            modify_lem k3.processes.table i clear_pid (lt_of_slot i k3.processes.table d3 found3),
          )
          refl),
      ap {A = Kernel} (λ q. record q { processes = freed }) rest3
          ∙ ap {A = Kernel} (λ q. record q { processes = freed }) rest2,
      ap (λ p. p.current) procs3 ∙ ap (λ p. p.current) procs2,
    )

module _ (s : System) {disk : ℕ → List ℕ} (served : Serves s.machine.bios 1 disk) where
  -- Let the mounted volume and the file be as `load` needs them: the volume as `HasFiles` says,
  -- with a file of the name in capitals, whose chain of `n + 1` clusters of 4096 bytes `read_drive`
  -- can read and one segment has room for; a terminated name of fewer than 32 characters; a process
  -- table whose names have 32 bytes and whose first free slot is `i`; a cluster buffer of 4096
  -- bytes, a segment below 2^16, and fuel beyond the name and the chain. Let a segment be free, no
  -- two have one address, the current pid be in the table or 0, slot `i` have its six descriptors,
  -- and let what stands in memory once the clusters are in place be a program that exits.
  -- `run_program` comes back with 0; the clusters are still in memory, every segment is used or
  -- free as before, and process `i + 1` is the current one.
  pub run_program_exits :
      (e : ℕ → ℕ) (nesting fuel start n i : ℕ) (name : List ℕ) (file : Fat16Entry) (k : Kernel)
      → s.fuel ≡ suc fuel
      → HasFiles s disk start k
      → has_nul name ≡ true
      → length (text_of name) < s.fuel
      → length (text_of name) < 32
      → HaveRoom k.processes.table
      → first_free k.processes.table ≡ some i
      → HasTable i k.processes.table
      → k.processes.current ≤ length k.processes.table
      → file_named disk start k name ≡ some file
      → ((c : ℕ) → e c < 4096)
      → cluster_size k.bs ≡ 4096
      → IsChain disk e (places_of k) n file.starting_cluster
      → n < s.fuel
      → 4096 * (n + 1) ≤ 2 ^ 16
      → length s.stale_cluster ≡ 4096
      → (get_free_seg s.stale_segment k.segs).0 < 2 ^ 16
      → Distinct (addresses k.segs)
      → any_free k.segs ≡ true
      → ((ram : ℕ → ℕ)
          → ((p : ℕ)
              → ram p
                ≡ in_place
                    ((get_free_seg s.stale_segment k.segs).0 * 16)
                    (4096 * (n + 1))
                    (file_bytes disk e (places_of k) n file.starting_cluster)
                    k.ram
                    p)
          → s.farcall (get_free_seg s.stale_segment k.segs).0 ram ≡ exit)
      → (k' : Kernel) × (run_program s (suc nesting) name k ≡ ok (0, only_name (upper name), k'))
        × ((p : ℕ)
            → k'.ram p
              ≡ in_place
                  ((get_free_seg s.stale_segment k.segs).0 * 16)
                  (4096 * (n + 1))
                  (file_bytes disk e (places_of k) n file.starting_cluster)
                  k.ram
                  p)
        × (k'.segs ≡ k.segs)
        × (k'.processes.current ≡ suc i)
  unfolding run_program
  run_program_exits e nesting fuel start n i name file k some_fuel files ended short fits_name room
        slot has low found below size chain enough fits buffer small distinct free exits =
      let (segment, segs) = get_free_seg s.stale_segment k.segs in
      let (k1, run1, memory, procs, rest1) =
        load_lem s served e fuel start n i name file k some_fuel files ended short fits_name room
          slot found below size chain enough fits buffer small in
      let l : Loaded = record { retcode = 0; pid = i + 1; segment = segment; name = upper name } in
      let pid : i + 1 ≡ suc i = omega arith in
      let has1 : HasTable i k1.processes.table =
        subst (λ p. HasTable i p.table) (sym procs)
          (HasTable-update_at i i k.processes.table (registered i _) (λ d. refl) has) in
      let low1 : k1.processes.current ≤ length k1.processes.table =
        subst (λ p. p.current ≤ length p.table) (sym procs)
          (omega (arith, length-update_at k.processes.table i (registered i _), low)) in
      let (k2, run2, rest2, current) =
        run_loaded_exits s (run_program s nesting) l i k1 pid has1 low1 (exits k1.ram memory) in
      let back : (release_seg segment k2.segs).1 ≡ k.segs =
        ap (λ q. (release_seg segment q.segs).1) rest2
        ∙ ap (λ q. (release_seg segment q.segs).1) rest1
        ∙ release_seg-get_free_seg s.stale_segment k.segs distinct free in
      (
        record k2 { segs = (release_seg segment k2.segs).1 },
        (rw (run1, run2) refl),
        (λ p. ap (λ q. q.ram p) rest2 ∙ memory p),
        back,
        current,
      )
