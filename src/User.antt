-- ===== src/User.antt =====
-- arch/8088/kernel/io.c: what a program calls to make a system call.
pub mod Stdio
pub mod Laws
pub mod Printf
pub mod Template
pub mod Utils
pub mod Editor
pub mod Commands
pub mod Missing
pub mod Round
pub mod Listing
pub mod Lines
use rml.Base.{
  ℕ, zero, suc, ◌+◌, ◌*◌, List, [], ◌∷◌, ◌++◌, take, drop, get_or, Outcome, ok, stop, ◌>>=◌,
  literal,
}
use rml.Clib.Text.{strlen, memcpy}
use rml.Kernel.{Kernel}
use rml.Fs.Layout.{long_at, byte_at}
use rml.Params.{syscall_buf_size, data_of, set_data, metadata_fd, set_fd, set_size, set_offset}
use rml.Syscall.{System, ClockBytes, Left, dispatch}

-- A program's static data: the block `sysparam`, the buffers of `itoa` and `ultoa`. With them stands
-- the kernel that the program calls.
pub record User : Type 0 where
  pub kernel : Kernel
  pub sysparam : List ℕ
  pub itoa_buf : List ℕ
  pub ultoa_buf : List ℕ

-- The kernel's side: its parameters, its `run_program` and what the clock would answer.
pub record Os : Type 0 where
  pub system : System
  pub run_program : List ℕ → Kernel → Outcome (ℕ × Left × Kernel)
  pub clock : ClockBytes

abbrev pub with_block : List ℕ → User → User
with_block block u = record u { sysparam = block }

module _ (o : Os) where
  -- `syscall`: interrupt 80h with the number and the address of the block.
  unfoldable pub syscall : ℕ → User → Outcome User
  syscall service u = do
    (block, k) ← dispatch o.system o.run_program service u.sysparam o.clock u.kernel
    ok (record u { kernel = k; sysparam = block })

  unfoldable pub call_int : User → Outcome User
  unfolding syscall
  call_int u = syscall 0x00 u

  unfoldable pub halt : User → Outcome User
  unfolding syscall
  halt u = syscall 0x01 u

  unfoldable pub reboot : User → Outcome User
  unfolding syscall
  reboot u = syscall 0x02 u

  -- `string` is the memory from the pointer on: the wrapper copies 576 bytes of it.
  unfoldable pub user_run_program : List ℕ → User → Outcome (ℕ × User)
  unfolding syscall
  user_run_program string u = do
    block ← memcpy u.sysparam string syscall_buf_size
    u1 ← syscall 0x07 (with_block block u)
    ok (byte_at u1.sysparam 0, u1)

  unfoldable pub user_get_process_list : User → Outcome User
  unfolding syscall
  user_get_process_list u = syscall 0x08 u

  -- The path is copied without its NUL.
  unfoldable pub myopen : List ℕ → User → Outcome (ℕ × User)
  unfolding syscall
  myopen pathname u = do
    len ← strlen pathname
    bytes ← memcpy (data_of u.sysparam) pathname len
    u1 ← syscall 10 (with_block (set_data bytes u.sysparam) u)
    ok (metadata_fd u1.sysparam, u1)

  unfoldable pub myclose : ℕ → User → Outcome (ℕ × User)
  unfolding syscall
  myclose fd u = do u1 ← syscall 11 (with_block (set_fd fd u.sysparam) u); ok (0, u1)

  unfoldable pub mylseek : ℕ → ℕ → User → Outcome (ℕ × User)
  unfolding syscall
  mylseek fildes offset u = do
    u1 ← syscall 12 (with_block (set_offset offset (set_fd fildes u.sysparam)) u)
    ok (0, u1)

  unfoldable pub myread : ℕ → List ℕ → ℕ → User → Outcome (ℕ × List ℕ × User)
  unfolding syscall
  myread fd buf count u = do
    u1 ← syscall 13 (with_block (set_size count (set_fd fd u.sysparam)) u)
    buf' ← memcpy buf (data_of u1.sysparam) count
    ok (0, buf', u1)

  unfoldable pub mywrite : ℕ → List ℕ → ℕ → User → Outcome (ℕ × User)
  unfolding syscall
  mywrite fd buf count u = do
    let block = set_size count (set_fd fd u.sysparam)
    bytes ← memcpy (data_of block) buf count
    u1 ← syscall 14 (with_block (set_data bytes block) u)
    ok (0, u1)

  unfoldable pub user_time : User → Outcome User
  unfolding syscall
  user_time u = syscall 15 u

  -- `system` of lib/stdlib.c.
  unfoldable pub system : List ℕ → User → Outcome (ℕ × User)
  unfolding user_run_program
  system command u = user_run_program command u
