-- ===== src/Syscall.antt =====
-- `dispatch` of kernel/kernel.c: the system calls.
pub mod Frame
pub mod Files
use rml.Base.{
  ℕ, Bool, ◌||◌, List, ◌==◌, if◌then◌else◌, Outcome, ok, stop, rebooted, ◌>>=◌, codes, literal,
}
use rml.Clib.Text.{strlen}
use rml.Sched.{set_running_proc, get_running_proc}
use rml.Console.{Console, write, line, get_process_list}
use rml.Kernel.{Kernel, Machine, open_file, close, lseek, read, index}
use rml.Clock.{read_rtc_date, read_rtc_time, time}
use rml.Fs.Layout.{Fat16Entry}
use rml.Fs.Directory.{list_root_files}
use rml.Fs.Volume.{depth}
use rml.Params.{
  data_of, set_data, put_bytes, long_bytes, int_word, metadata_fd, metadata_size, metadata_offset,
  set_fd, listings_in, put_listings,
}

-- The bytes of the clock when it is asked: INT 1Ah.
pub record ClockBytes : Type 0 where
  pub hours : ℕ
  pub minutes : ℕ
  pub seconds : ℕ
  pub century : ℕ
  pub year : ℕ
  pub month : ℕ
  pub day : ℕ

-- What a program does to the kernel: it ends, or it makes a system call with a block and goes on
-- from the block that it gets back. The bytes are what the clock would answer during the call.
pub data Program : Type 0 where
  exit : Program
  call : ℕ → List ℕ → ClockBytes → (List ℕ → Program) → Program

-- What the code does not determine: the machine, what a program in memory does (`farcall` goes by the
-- segment and the memory), the old content of local variables, and the fuel of the loops.
pub record System : Type 0 where
  pub machine : Machine
  pub farcall : ℕ → (ℕ → ℕ) → Program
  pub stale_segment : ℕ
  pub stale_pid : ℕ
  pub stale_files : List Fat16Entry
  pub stale_cluster : List ℕ
  pub fuel : ℕ

-- What `run_program` leaves in memory: the name as `load` turned it into capitals and, where the name
-- stands in the kernel's one block `params`, that block as the program's last call left it.
pub record Left : Type 0 where
  pub name : List ℕ
  pub params : List ℕ

-- Nothing has been written over the name.
abbrev pub only_name : List ℕ → Left
only_name name = record { name = name; params = name }

abbrev pub with_running : ℕ → Kernel → Outcome Kernel
with_running pid k = do p ← set_running_proc pid k.processes; ok (record k { processes = p })

-- A call that only prints.
abbrev pub on_console : (Console → Outcome Console) → Kernel → Outcome Kernel
on_console f k = do con ← f k.console; ok (record k { console = con })

abbrev pub put : ℕ → List ℕ → ℕ → Console → Outcome Console
put fd buf count con = do (_, con') ← write fd buf count con; ok con'

-- `time` with the bytes of the clock.
unfoldable pub print_time : ClockBytes → Console → Outcome Console
print_time c con =
    time (read_rtc_date c.century c.year c.month c.day) (read_rtc_time c.hours c.minutes c.seconds)
      con

abbrev pub is_print_call : ℕ → Bool
is_print_call service =
    service == 0 || service == 4 || service == 5 || service == 8 || service == 14 || service == 15

module _ (s : System) where
  -- Call 9: the listing of the root directory into the block.
  unfoldable pub list_files_call : List ℕ → Kernel → Outcome (List ℕ × Kernel)
  unfolding listings_in put_listings
  list_files_call params k = do
    (fd, k1) ← open_file (literal "/") 0 k
    i ← index fd
    (_, k2) ← lseek i 0 0 k1
    (files_read, buf, k3) ← list_root_files s.machine s.fuel 512 (listings_in 18 params) k2
    ok (put_bytes 512 (long_bytes files_read) (put_listings buf params), k3)

  -- Call 10: `open` for the process.
  unfoldable pub open_call : List ℕ → Kernel → Outcome (List ℕ × Kernel)
  open_call params k = do
    (fd, k1) ← open_file (data_of params) (get_running_proc k.processes) k
    ok (set_fd (int_word fd) params, k1)

  -- Call 13: `read` into the data, whose 512 bytes are its bound here.
  unfoldable pub read_call : List ℕ → Kernel → Outcome (List ℕ × Kernel)
  read_call params k = do
    (_, buf, k1) ←
        read s.machine depth (metadata_fd params) (data_of params) (metadata_size params)
          (get_running_proc k.processes) k
    ok (set_data buf params, k1)

  -- The calls that neither run a program nor print: 6 and 9 to 13.
  unfoldable pub file_call : ℕ → List ℕ → Kernel → Outcome (List ℕ × Kernel)
  unfolding list_files_call open_call read_call
  file_call service params k =
      let curr_pid = get_running_proc k.processes in
      if service == 6
      then (do (_, params', k1) ← read s.machine depth 0 params 1 0 k; ok (params', k1))
      else if service == 9
      then list_files_call params k
      else if service == 10
      then open_call params k
      else if service == 11
      then (do (_, k1) ← close (metadata_fd params) curr_pid k; ok (params, k1))
      else if service == 12
      then (do
        (_, k1) ← lseek (metadata_fd params) (metadata_offset params) curr_pid k
        ok (params, k1))
      else if service == 13
      then read_call params k
      else ok (params, k)

  -- The calls that print: 0, 4, 5, 8, 14 and 15.
  unfoldable pub print_call : ℕ → List ℕ → ClockBytes → Kernel → Outcome Kernel
  unfolding print_time
  print_call service params clock k =
      if service == 0
      then on_console (put 1 (line (codes "system call!")) 14) k
      else if service == 4
      then on_console (λ con. do len ← strlen params; put 1 params len con) k
      else if service == 5
      then on_console (put 1 params 1) k
      else if service == 8
      then on_console (get_process_list k.processes) k
      else if service == 14
      then on_console (put (metadata_fd params) (data_of params) (metadata_size params)) k
      else if service == 15
      then on_console (print_time clock) k
      else ok k

  -- `dispatch`; `run` is `run_program`: the name stands in `params`, where the calls of the program
  -- that it runs write their blocks. `halt` and a number without a case leave everything alone.
  unfoldable pub dispatch :
      (List ℕ → Kernel → Outcome (ℕ × Left × Kernel))
      → ℕ
      → List ℕ
      → ClockBytes
      → Kernel
      → Outcome (List ℕ × Kernel)
  unfolding file_call print_call
  dispatch run service params clock k =
      if service == 2
      then stop rebooted
      else if service == 7
      then (do
        (retcode, left, k1) ← run params k
        k2 ← with_running (get_running_proc k.processes) k1
        ok (put_bytes 0 (long_bytes retcode) left.params, k2))
      else if is_print_call service
      then (do k1 ← print_call service params clock k; ok (params, k1))
      else file_call service params k
