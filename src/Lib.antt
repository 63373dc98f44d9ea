-- ===== src/Lib.antt =====
-- Real Mode Linux: a small operating system for the 8088 in C, compiled for 16-bit real mode with
-- a 32-bit `int` and `long`, as gcc -m16 has them.
--
-- The parts and their files:
--   Base      what the other modules share: tests, lists with native indices, the outcomes of C
--             code (`Outcome`: a value, or the reason why it stops), masks of bits.
--   Clib      lib/string.c (Clib/Text), lib/ctype.c and lib/utils.c (Clib/Letters), the number
--             printing of lib/stdlib.c and `uitoa` of kernel/kernio.c (Clib/Number).
--   Mm        mm/mm.c: `seg_arr`, the table of ten memory segments.
--   Block     kernel/kernio.c: `lba_to_chs` and the sector loop of `read`. Block/Transfer relates
--             it to the image of the disk.
--   Files     kernel/kernio.c: the descriptor tables, `open`, `close` and `lseek`.
--   Sched     kernel/sched.c: the process table and which process is running.
--   Console   kernel/kernio.c: `write` and `printk`; `get_process_list` of kernel/sched.c.
--   Kernel    the state of the kernel (`fd_list`, `processes`, `seg_arr`, `s_pos`, `bs`, the memory,
--             the screen, the keys to come) and `open`, `close`, `lseek` and `read` on it.
--   Fs        fs/msdos/fs.c: the structures of include/fs/fs.h (Fs/Layout), directory entries
--             (Fs/Entry), the volume and its clusters (Fs/Volume), the root directory
--             (Fs/Directory), `mount` of kernel/kernio.c (Fs/Mount). It reads the drive through
--             `read` and `lseek` of Kernel.
--   Shell     utils/shell.c: the line editor on keys and a screen (Shell/Line).
--   Clock     kernel/bios.c: the arithmetic of the clock; `time` of kernel/kernel.c.
--   Params    include/sysdef.h: the block of a system call, 576 bytes that are read as structs.
--             Params/Listings: the listings of a directory in it.
--   Syscall   kernel/kernel.c: `dispatch`, on the state of Kernel (Syscall/Frame); its listing of
--             the root directory (Syscall/Files).
--   Program   kernel/kernel.c: `load` and `run_program`, which run a program call by call through
--             `dispatch` (Program/Restores, Program/Load).
--   Start     kernel/kernel.c: `startk`, which mounts the volume and runs init for ever.
--   User      a program's side: arch/8088/kernel/io.c, lib/stdio.c (User/Stdio), utils/ls.c,
--             utils/ps.c, utils/demo.c and src/init/init.c (User/Utils), the commands of
--             utils/shell.c (User/Commands) and its loop that reads one (User/Editor). Every wrapper
--             fills the block and calls `dispatch`; User/Round puts a round of the shell together,
--             User/Lines the lines of ls against the directory on the disk.
--   Hardware  the machine below: the BIOS calls of kernel/bios.c (Hardware/Bios), the ports and the
--             timer's vector of kernel/kernel.c (Hardware/Vectors), the output past the kernel of
--             arch/8088/kernel/io.c (Hardware/Direct). Hardware/Disk and Hardware/Terminal relate
--             the calls to the drive, the screen and the keyboard of Block, Console and Kernel.
--   Tests     the theorems at concrete inputs.
--
-- The functions have the names of the source (`open` is `open_file`). A pointer into an array is the
-- list of its bytes from there on; a function that writes through one returns the array afterwards.
-- An access outside an array ends as `stop bounds`, a division by 0 as `stop div_zero`, waiting for a
-- key that never comes as `stop blocked`. Integers are ℕ, or ℤ where they may be negative, with
-- their wrap-around written out. What C leaves indeterminate (an uninitialised variable, old stack
-- bytes) is an argument: `stale` of `get_free_seg`, `Machine.stale_sector`, `Machine.stale_count`.
-- For the kernel a sector read is a parameter, `Machine.bios`; a theorem that depends on it assumes
-- `Serves`: on a place of the disk the call succeeds and gives the 512 bytes there. Below it, what an
-- interrupt of the BIOS does is a parameter, and its documented behaviour a hypothesis
-- (Hardware/Services). What a
-- program in memory does is a parameter too, `System.farcall`: a tree of system calls, each with the
-- block that the program passes and the bytes that the clock would answer. Between its calls a
-- program is taken to leave the kernel's memory alone, which real mode does not enforce.
--
-- The block of a system call stands in the kernel's one array `params`. `run_program` gets the name
-- there, and the calls of the program that it runs write their blocks over it (`Left`).
-- The tables of descriptors are declared with five elements, and `open` of the root directory uses a
-- sixth. What stands there in memory depends on the layout; where it is used, the theorems ask for
-- tables of six elements, as if nothing else used that place.
--
-- Fuel bounds the loops that the source does not bound: the padding of `strncpy`, the cluster chains
-- (as many rounds as the chain has clusters are enough), the walk of the directory, the call of
-- `read` on the descriptor below (2 is enough: the root directory is one descriptor above the drive)
-- and the loop over `strlen` in lib/utils.c (one more than the length of the text is enough). The fuel
-- of `run_program` is how deep programs run one another; eight segments are free for them. The shell's
-- input loop has one round more than there are keys to come.
-- `stop no_fuel` at every fuel is a loop that does not end.
--
-- Not modelled: the assembly files, which set up segments and stacks and copy the block between a
-- program and the kernel; the files under drivers/, which are empty; the wrappers of one processor
-- instruction (`halt`, `cli`, `sti`), which leave this state alone; `uname` and `schedule`, whose
-- bodies are empty.
pub mod Base
pub mod Clib
pub mod Mm
pub mod Block
pub mod Files
pub mod Sched
pub mod Console
pub mod Fs
pub mod Kernel
pub mod Shell
pub mod Clock
pub mod Hardware
pub mod Params
pub mod Program
pub mod Start
pub mod Syscall
pub mod User
pub mod Tests
