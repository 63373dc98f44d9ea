-- ===== src/User/Lines/Directory.antt =====
-- utils/ls.c against the root directory on the disk.
use mathlib.Core.List.{append_assoc}
use rml.Base.{
  ℕ, suc, ◌≤◌, ◌<◌, List, [], ◌∷◌, ◌++◌, All, take, length, codes, ok, ◌≡◌, sym, ap, ap₂, ◌∙◌,
  subst, arith,
}
use rml.Block.Transfer.{Serves}
use rml.Console.Lines.{Exactly, Decimal, ◌followed_by◌}
use rml.Files.{get_root_offset}
use rml.Fs.Directory.Walk.{IsPlaced, dir_entries}
use rml.Fs.Directory.Describes.{only_files}
use rml.Kernel.{Kernel}
use rml.Kernel.Io.{IsDevice}
use rml.Params.{data_of, listings_in}
use rml.Params.Listings.{length-listings_in}
use rml.Program.Exits.{HasTable}
use rml.Syscall.Files.{IsLong, Lists-le}
use rml.User.{User, Os}
use rml.User.Laws.{shown}
use rml.User.Printf.{IsRunning}
use rml.User.Utils.{ls}
use rml.User.Listing.{user_list_root_files_lem}
use rml.User.Lines.Entry.{ls_lem}
use rml.User.Lines.Listed.{
  FileLines, sum_of_sizes, IsShownFile, listed_entries, files-IsNamed, files-IsShown,
  only_files-IsShown,
}

-- More text on the screen of a kernel that differs in its descriptors and processes.
both_shown :
    (s t : List ℕ) (k k1 k2 : Kernel)
    → k1 ≡ record (shown s k) { fd_list = k1.fd_list; processes = k1.processes }
    → k2 ≡ shown t k1
    → k2 ≡ record (shown (s ++ t) k) { fd_list = k2.fd_list; processes = k2.processes }
both_shown s t k k1 k2 first second =
    let whole : record (shown (s ++ t) k) { fd_list = k1.fd_list; processes = k1.processes } ≡ k2 =
      ap
        (λ l. record k {
          console = record k.console { screen = l };
          fd_list = k1.fd_list;
          processes = k1.processes;
        })
        (sym (append_assoc k.console.screen s t))
      ∙ ap (λ k'. shown t k') (sym first)
      ∙ sym second in
    sym whole
    ∙ ap₂ (λ l p. record (shown (s ++ t) k) { fd_list = l; processes = p })
        (ap {A = Kernel} (λ k'. k'.fd_list) whole) (ap {A = Kernel} (λ k'. k'.processes) whole)

module _ (o : Os) {disk : ℕ → List ℕ} (served : Serves o.system.machine.bios 1 disk) where
  -- A program with its block, whose second byte is 0, and the buffers of `itoa` and `ultoa` runs as
  -- process `i + 1`, which has its six descriptors. The kernel has six descriptors and descriptor 4
  -- for a device; the root directory begins at `start`, lies on whole sectors of the disk and
  -- touches no last sector of a track; its entries have sizes of four bytes and are fewer than the
  -- fuel, and its files have full name fields without NUL and no % before the first space. ls, with
  -- 0 in its format, which it never sets, and a buffer of 504 bytes, ends. Behind some more text the
  -- screen has one line for each of the first 18 files of the directory, in their order, and the
  -- line of the total, the sum of their sizes modulo 2 ^ 32. Of the kernel only the screen, the
  -- process table and the table of descriptors have changed.
  pub ls-FileLines :
      (start i c : ℕ) (tail buf : List ℕ) (u : User)
      → IsRunning u
      → data_of u.sysparam ≡ c ∷ 0 ∷ tail
      → u.kernel.processes.current ≡ suc i
      → HasTable i u.kernel.processes.table
      → length u.kernel.fd_list ≡ 6
      → IsDevice 4 u.kernel
      → get_root_offset u.kernel.s_pos ≡ start
      → IsPlaced start u.kernel.bs.root_dir_entries
      → u.kernel.bs.root_dir_entries < o.system.fuel
      → All IsShownFile (dir_entries disk start 0 u.kernel.bs.root_dir_entries)
      → All IsLong (dir_entries disk start 0 u.kernel.bs.root_dir_entries)
      → 504 ≤ length buf
      → let fs = take 18 (only_files (dir_entries disk start 0 u.kernel.bs.root_dir_entries)) in
        (u' : User) × (text s : List ℕ) × (ls o 0 buf u ≡ ok u')
        × (FileLines fs
              followed_by Exactly (codes "total ")
              followed_by Decimal (sum_of_sizes fs 0)
              followed_by Exactly (13 ∷ 10 ∷ []))
            s
        × (u'.kernel ≡ record (shown (text ++ s) u.kernel) {
          fd_list = u'.kernel.fd_list;
          processes = u'.kernel.processes;
        })
  ls-FileLines start i c tail buf u running block current has six device place placed enough shows
        long room =
      let es = dir_entries disk start 0 u.kernel.bs.root_dir_entries in
      let fs = take 18 (only_files es) in
      let (files, buf', u1, text, run, size, lists, running1, kernel1) =
        user_list_root_files_lem o served start i c tail buf u running block current has six device
          place placed enough (files-IsNamed es shows) long room in
      let few : files ≤ 18 = omega (
        arith,
        Lists-le 18 (only_files es) (listings_in files buf') lists,
        length-listings_in files buf',
      ) in
      let (listable, lines, sums) =
        listed_entries fs files buf' 0 lists
          (files-IsShown 18 (only_files es) (only_files-IsShown es shows))
          (omega (arith, few, size, room)) in
      let (u', s, run2, (s1, s2, whole, entries, rest), printed) =
        ls_lem o buf buf' files u u1 run running1 listable in
      (
        u',
        text,
        s,
        run2,
        (
          s1,
          s2,
          whole,
          lines s1 entries,
          subst
              (λ (n : ℕ).
                (Exactly (codes "total ") followed_by Decimal n followed_by Exactly (13 ∷ 10 ∷ []))
                  s2)
              sums rest,
        ),
        both_shown text s u.kernel u1.kernel u'.kernel kernel1 printed.kernel,
      )
