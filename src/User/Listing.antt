-- ===== src/User/Listing.antt =====
-- `list_root_files` of arch/8088/kernel/io.c: a program gets the listing of the root directory.
use mathlib.Core.List.{append-nil}
use rml.Base.{
  ℕ, zero, suc, ◌*◌, ◌≤◌, ◌<◌, pos, List, [], ◌∷◌, ◌++◌, map, All, take, drop, drop_all,
  drop-append, take-append_self, length, length-append, length-take, length-drop, codes, literal,
  ok, ◌≡◌, refl, sym, ap, ap₂, ◌∙◌, subst, arith,
}
use rml.Block.Transfer.{Serves}
use rml.Clib.Text.{strlen, memcpy}
use rml.Clib.Text.Copy.{memcpy_lem}
use rml.Clib.Text.Scan.{text_of, has_nul, lexicographic}
use rml.Files.{get_root_offset}
use rml.Files.Laws.{device_of}
use rml.Sched.{get_running_proc}
use rml.Kernel.{Kernel, open_file}
use rml.Kernel.Io.{IsDevice}
use rml.Fs.Layout.{long_at}
use rml.Fs.Directory.Walk.{IsPlaced, dir_entries}
use rml.Fs.Directory.Describes.{Lists, only_files, IsNamed}
use rml.Params.{data_of, set_data, set_fd, metadata_fd, listing_at, listings_in, long_bytes}
use rml.Params.Laws.{long_at-behind, length-put_bytes}
use rml.Params.Listings.{length-listings_in}
use rml.Program.Exits.{HasTable, open_process}
use rml.Syscall.{dispatch, file_call, list_files_call}
use rml.Syscall.Files.{IsLong, Lists-le, list_files_call_lem}
use rml.User.{User, Os, syscall, myopen}
use rml.User.Laws.{shown}
use rml.User.Printf.{IsRunning}
use rml.User.Template.{Item, plain, a_number, template_of, args_of, IsItem, printf_lem}
use rml.User.Utils.{copy_entries, user_list_root_files}

-- The entries that are copied are the listings that stood there.
copy_entries_lem :
    (n : ℕ) (src dst : List ℕ)
    → 28 * n ≤ length src
    → 28 * n ≤ length dst
    → (out : List ℕ) × (copy_entries n src dst ≡ ok out)
      × (length out ≡ length dst)
      × (listings_in n out ≡ listings_in n src)
unfolding copy_entries listings_in
copy_entries_lem zero src dst h k = (dst, refl, refl, refl)
copy_entries_lem (suc n) src dst h k =
    let first = take 28 src in
    let size : length first ≡ 28 = length-take 28 src (omega (arith, h)) in
    let room : length (take 28 dst) ≡ 28 = length-take 28 dst (omega (arith, k)) in
    let copied : memcpy (take 28 dst) src 28 ≡ ok first =
      memcpy_lem (take 28 dst) src 28 (omega (arith, room)) (omega (arith, h))
      ∙ ap (λ t. ok (first ++ t)) (drop_all 28 (take 28 dst) (omega (arith, room)))
      ∙ ap ok (append-nil first) in
    let (rest, run, long, same) =
      copy_entries_lem n (drop 28 src) (drop 28 dst) (omega (arith, h, length-drop 28 src))
        (omega (arith, k, length-drop 28 dst)) in
    (
      first ++ rest,
      (rw (copied, run) refl),
      omega (arith, length-append first rest, long, size, length-drop 28 dst, k),
      ap₂ (λ (t r : List ℕ). listing_at t ∷ listings_in n r) (take-append_self 28 first rest size)
            (drop-append 28 first rest size)
          ∙ ap (λ ls. listing_at first ∷ ls) same,
    )

module _ (o : Os) where
  -- A process opens the root directory; the block's second byte is 0, so that it ends the path.
  open_root :
      (i c : ℕ) (tail : List ℕ) (u : User)
      → IsRunning u
      → data_of u.sysparam ≡ c ∷ 0 ∷ tail
      → u.kernel.processes.current ≡ suc i
      → HasTable i u.kernel.processes.table
      → (u' : User) × (myopen o (literal "/") u ≡ ok (5, u'))
        × IsRunning u'
        × (u'.kernel ≡ record u.kernel { processes = u'.kernel.processes })
  unfolding myopen syscall dispatch file_call get_running_proc strlen text_of has_nul device_of
      lexicographic
  open_root i c tail u running block current has =
      let data_size : length (data_of u.sysparam) ≡ 512 =
        length-take 512 u.sysparam (omega (arith, running.block)) in
      let bytes = b'/' ∷ 0 ∷ tail in
      let size : length bytes ≡ 512 = omega (arith, ap (λ t. length t) block, data_size) in
      let copied : memcpy (data_of u.sysparam) (literal "/") 1 ≡ ok bytes =
        memcpy_lem (data_of u.sysparam) (literal "/") 1 (omega (arith, data_size)) (omega arith)
        ∙ ap (λ t. ok (b'/' ∷ drop 1 t)) block in
      let filled = set_data bytes u.sysparam in
      let path : data_of filled ≡ bytes = take-append_self 512 bytes (drop 512 u.sysparam) size in
      let filled_size : length filled ≡ 576 = omega (
        arith,
        length-append bytes (drop 512 u.sysparam),
        length-drop 512 u.sysparam,
        running.block,
        size,
      ) in
      let (k1, run, has1, rest, procs) = open_process i 5 u.kernel bytes refl refl has in
      let opens : open_file (data_of filled) u.kernel.processes.current u.kernel ≡ ok (pos 5, k1) =
        ap₂ (λ (p : List ℕ) (pid : ℕ). open_file p pid u.kernel) path current ∙ run in
      let answer = set_fd 5 filled in
      let fd : metadata_fd answer ≡ 5 =
        long_at-behind 516 (take 516 filled) (long_bytes 5 ++ drop 520 filled) 0
          (length-take 516 filled (omega (arith, filled_size)))
        ∙ omega arith in
      (
        record u { kernel = k1; sysparam = answer },
        (rw (copied, opens, fd) refl),
        record {
          block =
              length-put_bytes 516 (long_bytes 5) filled (omega (arith, filled_size)) ∙ filled_size;
          digits = running.digits;
          long_digits = running.long_digits;
        },
        rest,
      )

-- The message of `list_root_files` for descriptor 5.
abbrev message : List Item
message =
    map plain (codes "opened / with file descriptor ")
    ++ a_number (pos 5) ∷ map plain (13 ∷ 10 ∷ [])

message-IsItem : All IsItem message
message-IsItem = ground arith

module _ (o : Os) {disk : ℕ → List ℕ} (served : Serves o.system.machine.bios 1 disk) where
  -- A program with its block, whose second byte is 0, and the buffers of `itoa` and `ultoa` runs as process
  -- `i + 1`, which has its six descriptors. The kernel has six descriptors and descriptor 4 for a
  -- device; the root directory begins at `start`, lies on whole sectors of the disk and touches no
  -- last sector of a track; its files all have names and sizes of four bytes, and its entries are
  -- fewer than the fuel. The buffer has 504 bytes. `list_root_files` ends; it returns a number, and
  -- at the beginning of the buffer stand that many listings, one for each of the directory's files
  -- in their order, for the first 18 of them. The screen has some more text; of the kernel only
  -- that, the process table and the table of descriptors have changed.
  pub user_list_root_files_lem :
      (start i c : ℕ) (tail buf : List ℕ) (u : User)
      → IsRunning u
      → data_of u.sysparam ≡ c ∷ 0 ∷ tail
      → u.kernel.processes.current ≡ suc i
      → HasTable i u.kernel.processes.table
      → length u.kernel.fd_list ≡ 6
      → IsDevice 4 u.kernel
      → get_root_offset u.kernel.s_pos ≡ start
      → IsPlaced start u.kernel.bs.root_dir_entries
      → u.kernel.bs.root_dir_entries < o.system.fuel
      → All IsNamed (dir_entries disk start 0 u.kernel.bs.root_dir_entries)
      → All IsLong (dir_entries disk start 0 u.kernel.bs.root_dir_entries)
      → 504 ≤ length buf
      → (files : ℕ) × (buf' : List ℕ) × (u' : User) × (text : List ℕ) × (user_list_root_files o buf
            u
          ≡ ok (files, buf', u'))
        × (length buf' ≡ length buf)
        × Lists
            (take 18 (only_files (dir_entries disk start 0 u.kernel.bs.root_dir_entries)))
            (listings_in files buf')
        × IsRunning u'
        × (u'.kernel ≡ record (shown text u.kernel) {
          fd_list = u'.kernel.fd_list;
          processes = u'.kernel.processes;
        })
  unfolding user_list_root_files syscall dispatch file_call template_of args_of
  user_list_root_files_lem start i c tail buf u running block current has six device place placed
        enough named long room =
      let (u1, run1, running1, kernel1) = open_root o i c tail u running block current has in
      let (n, u2, text, run2, stand, kernel2, running2) =
        printf_lem o message [] u1 running1 message-IsItem in
      let k2 : Kernel = record (shown text u.kernel) { processes = u1.kernel.processes } in
      let same : u2.kernel ≡ k2 = kernel2 ∙ ap (λ k. shown text k) kernel1 in
      let es = dir_entries disk start 0 u.kernel.bs.root_dir_entries in
      let (block3, k3, run3, lists, size3, kernel3) =
        list_files_call_lem o.system served start u2.sysparam k2 running2.block six device place
          placed enough named long in
      let run4 : list_files_call o.system u2.sysparam u2.kernel ≡ ok (block3, k3) =
        ap (λ k. list_files_call o.system u2.sysparam k) same ∙ run3 in
      let files = long_at block3 512 in
      let few : files ≤ 18 = omega (
        arith,
        Lists-le 18 (only_files es) (listings_in files block3) lists,
        length-listings_in files block3,
      ) in
      let (out, copied, whole, listed) =
        copy_entries_lem files block3 buf (omega (arith, few, size3)) (omega (arith, few, room)) in
      (
        files,
        out,
        record u2 { kernel = k3; sysparam = block3 },
        text,
        (rw (run1, run2, run4, copied) refl),
        whole,
        subst (λ l. Lists (take 18 (only_files es)) l) (sym listed) lists,
        record { block = size3; digits = running2.digits; long_digits = running2.long_digits },
        kernel3
            ∙ ap (λ p. record (shown text u.kernel) { fd_list = k3.fd_list; processes = p })
                (sym (ap {A = Kernel} (λ k. k.processes) kernel3)),
      )
