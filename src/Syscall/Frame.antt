-- ===== src/Syscall/Frame.antt =====
-- What `dispatch` of kernel/kernel.c leaves alone: the segments, the pids and which process runs.
use rml.Base.{
  ℕ, zero, suc, List, codes, literal, ◌==◌, if◌then◌else◌, Outcome, ok, ◌>>=◌, ◌≡◌, refl, ap, ◌∙◌,
}
use rml.Base.Post.{Post, returns, stops, Post-if, Post-then, Post-bind}
use rml.Clib.Text.{strlen}
use rml.Sched.{
  ProcessDesc, ProcState, Processes, ready, running, with_state, set_state, set_running_proc,
  get_running_proc,
}
use rml.Console.{Console, line, get_process_list}
use rml.Kernel.{Kernel, open_file, close, lseek, read, index}
use rml.Kernel.Frame.{
  Allocation, allocation, Keeps, pids_of, modify-pids, open_file-Keeps, close-Keeps, lseek-Keeps,
  read-Keeps,
}
use rml.Fs.Volume.{depth}
use rml.Fs.Directory.{list_root_files}
use rml.Fs.Frame.{list_root_files-Keeps}
use rml.Params.{data_of, listings_in, metadata_fd, metadata_offset, metadata_size}
use rml.Syscall.{
  System, ClockBytes, Left, with_running, on_console, put, print_time, list_files_call, open_call,
  read_call, file_call, print_call, is_print_call, dispatch,
}

-- All but the running process is as it was.
abbrev pub Restores : Kernel → Kernel → Type 0
Restores k k' = allocation k' ≡ record (allocation k) { current = k'.processes.current }

set_state-pids :
    (pid : ℕ) (state : ProcState) (table : List ProcessDesc)
    → Post (λ table'. pids_of table' ≡ pids_of table) (set_state pid state table)
unfolding set_state
set_state-pids zero state table = stops
set_state-pids (suc i) state table = modify-pids table i (with_state state) (λ d. refl)

set_running_proc-pids :
    (pid : ℕ) (p : Processes)
    → Post (λ q. (pids_of q.table ≡ pids_of p.table) × (q.current ≡ pid)) (set_running_proc pid p)
unfolding set_running_proc
set_running_proc-pids pid p =
    Post-bind (if p.current == 0 then ok p.table else set_state p.current ready p.table)
      (Post-if (p.current == 0) (returns refl) (set_state-pids p.current ready p.table))
      λ t h.
        Post-bind (set_state pid running t) (set_state-pids pid running t)
          (λ t' g. returns (g ∙ h, refl))

pub with_running-Restores :
    (pid : ℕ) (k : Kernel)
    → Post (λ k'. allocation k' ≡ record (allocation k) { current = pid }) (with_running pid k)
with_running-Restores pid k =
    Post-bind (set_running_proc pid k.processes) (set_running_proc-pids pid k.processes) λ q h.
      returns (
        ap (λ c. record { segs = k.segs; pids = pids_of q.table; current = c }) h.1
        ∙ ap (λ l. record { segs = k.segs; pids = l; current = pid }) h.0)

on_console-Keeps :
    (f : Console → Outcome Console) (k : Kernel) → Post (λ k'. Keeps k k') (on_console f k)
on_console-Keeps f k = Post-then (f k.console) (λ con. returns refl)

module _ (s : System) where
  print_call-Keeps :
      (service : ℕ) (params : List ℕ) (clock : ClockBytes) (k : Kernel)
      → Post (λ k'. Keeps k k') (print_call s service params clock k)
  unfolding print_call
  print_call-Keeps service params clock k =
      Post-if (service == 0) (on_console-Keeps (put 1 (line (codes "system call!")) 14) k) (
        Post-if (service == 4)
          (on_console-Keeps (λ con. strlen params >>= λ len. put 1 params len con) k)
          (Post-if (service == 5) (on_console-Keeps (put 1 params 1) k) (
            Post-if (service == 8) (on_console-Keeps (get_process_list k.processes) k) (
              Post-if (service == 14)
                (on_console-Keeps (put (metadata_fd params) (data_of params) (metadata_size params))
                  k)
                (Post-if (service == 15) (on_console-Keeps (print_time clock) k) (returns refl))))))

  list_files_call-Keeps :
      (params : List ℕ) (k : Kernel) → Post (λ r. Keeps k r.1) (list_files_call s params k)
  unfolding list_files_call
  list_files_call-Keeps params k =
      Post-bind (open_file (literal "/") 0 k) (open_file-Keeps (literal "/") 0 k) λ r h.
        Post-then (index r.0) λ i. Post-bind (lseek i 0 0 r.1) (lseek-Keeps i 0 0 r.1) λ q g.
          Post-bind (list_root_files s.machine s.fuel 512 (listings_in 18 params) q.1)
            (list_root_files-Keeps s.machine s.fuel 512 (listings_in 18 params) q.1)
            (λ t f. returns (f ∙ g ∙ h))

  file_call-Keeps :
      (service : ℕ) (params : List ℕ) (k : Kernel)
      → Post (λ r. Keeps k r.1) (file_call s service params k)
  unfolding file_call open_call read_call
  file_call-Keeps service params k =
      let pid = get_running_proc k.processes in
      Post-if (service == 6)
        (Post-bind (read s.machine depth 0 params 1 0 k) (read-Keeps s.machine depth 0 params 1 0 k)
          (λ r h. returns h))
        (Post-if (service == 9) (list_files_call-Keeps params k) (
          Post-if (service == 10)
            (Post-bind (open_file (data_of params) pid k) (open_file-Keeps (data_of params) pid k)
              (λ r h. returns h))
            (Post-if (service == 11)
              (Post-bind (close (metadata_fd params) pid k) (close-Keeps (metadata_fd params) pid k)
                (λ r h. returns h))
              (Post-if (service == 12)
                (Post-bind (lseek (metadata_fd params) (metadata_offset params) pid k)
                  (lseek-Keeps (metadata_fd params) (metadata_offset params) pid k)
                  (λ r h. returns h))
                (Post-if (service == 13)
                  (Post-bind
                    (read s.machine depth (metadata_fd params) (data_of params)
                      (metadata_size params) pid k)
                    (read-Keeps s.machine depth (metadata_fd params) (data_of params)
                      (metadata_size params) pid k)
                    (λ r h. returns h))
                  (returns refl))))))

  -- Whatever the call and its block: if `run_program` gives back the segments and the pids, then so
  -- does `dispatch`, and the process that runs is the one that ran before.
  pub dispatch-Keeps :
      (run : List ℕ → Kernel → Outcome (ℕ × Left × Kernel)) (service : ℕ) (params : List ℕ)
      (clock : ClockBytes) (k : Kernel)
      → Post (λ r. Restores k r.2) (run params k)
      → Post (λ r. Keeps k r.1) (dispatch s run service params clock k)
  unfolding dispatch get_running_proc
  dispatch-Keeps run service params clock k safe = Post-if (service == 2) stops (
      Post-if (service == 7)
        (Post-bind (run params k) safe λ r h.
          Post-bind (with_running k.processes.current r.2)
            (with_running-Restores k.processes.current r.2)
            λ k2 g.
              returns (g ∙ ap {A = Allocation} (λ a. record a { current = k.processes.current }) h))
        (Post-if (is_print_call service)
          (Post-bind (print_call s service params clock k) (print_call-Keeps service params clock k)
            (λ k1 h. returns h))
          (file_call-Keeps service params k)))
