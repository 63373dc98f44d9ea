-- ===== src/Fs/Directory/Whole.antt =====
-- `get_root_files` of fs/msdos/fs.c: the whole root directory as an array.
use mathlib.Core.List.{append_assoc}
use mathlib.Core.Option
use rml.Base.{
  ℕ, zero, suc, ◌+◌, ◌*◌, ◌^◌, ◌≤◌, ◌<◌, Bool, true, false, List, [], ◌∷◌, ◌++◌, length,
  length-append, drop, modify, modify-append, update_at, get_elem?-update_at, modify_lem,
  if◌then◌else◌, ◌==◌, Outcome, ok, codes, literal, ◌≡◌, refl, sym, ap, ◌∙◌, subst, arith,
}
use rml.Block.Transfer.{Serves}
use rml.Clib.Text.Scan.{has_nul}
use rml.Files.{lseek_in}
use rml.Console.{Console, line}
use rml.Console.Numbers.{
  IsReady, Extends, Extends-refl, Extends-trans, Says, printk-Says, print_uint-Says, ◌then_say◌,
}
use rml.Kernel.{Kernel, Machine, lseek, on_table}
use rml.Kernel.Io.{at_offset, lt_of_some}
use rml.Fs.Layout.{Fat16Entry}
use rml.Fs.Directory.{print_entry, print_heading, root_files_from, get_root_files}
use rml.Fs.Directory.Walk.{IsPlaced, RootAt, dir_entry, dir_entries, read_entry_lem}

Says-if :
    {f g : Console → Outcome Console} (b : Bool)
    → Says f
    → Says g
    → Says (λ con. if b then f con else g con)
Says-if true p q = p
Says-if false p q = q

Says-nothing : Says (λ con. ok con)
Says-nothing con r = (con, refl, Extends-refl con r)

print_entry-Says : (i : ℕ) → i < 10 ^ 6 → Says (print_entry i)
unfolding print_entry has_nul
print_entry-Says i h =
    printk-Says (literal "reading entry number ") refl
    then_say (print_uint-Says i h
        then_say (printk-Says (line []) refl
            then_say Says-if (i == 223) (printk-Says (line (codes "entry 223")) refl) Says-nothing))

heading-Says : (n : ℕ) → n < 10 ^ 6 → Says (print_heading n)
unfolding print_heading has_nul
heading-Says n h =
    printk-Says (line (codes "reading root directory")) refl
    then_say (printk-Says (literal "root directory entries:") refl
        then_say (print_uint-Says n h then_say printk-Says (line []) refl))

-- `lseek(5, 0, 0, 0)` goes back to the first entry.
seek_first :
    (start p : ℕ) (k : Kernel)
    → RootAt start p k
    → (k' : Kernel) × (lseek 5 0 0 k ≡ ok (0, k'))
      × RootAt start 0 k'
      × (k' ≡ record k { fd_list = k'.fd_list })
unfolding lseek lseek_in on_table
seek_first start p k at =
    let (d, found, own) = at.drive in
    (
      record k { fd_list = update_at k.fd_list 5 (at_offset 0) },
      (rw (modify_lem k.fd_list 5 (at_offset 0) (lt_of_some 5 k.fd_list at.root at.found)) refl),
      record {
        root = at_offset 0 at.root;
        found =
            get_elem?-update_at k.fd_list 5 5 (at_offset 0)
            ∙ ap (λ o. Option.map (at_offset 0) o) at.found;
        below = at.below;
        offset = at.offset;
        position = refl;
        drive = (d, get_elem?-update_at k.fd_list 5 4 (at_offset 0) ∙ found, own);
      },
      refl,
    )

module _ (m : Machine) {disk : ℕ → List ℕ} (served : Serves m.bios 1 disk) where
  -- The array behind the entries that are read.
  root_files_from_lem :
      (n i size start : ℕ) (done rest : List Fat16Entry) (k : Kernel)
      → IsPlaced start size
      → size < 10 ^ 6
      → i + n ≤ size
      → length done ≡ i
      → n ≤ length rest
      → RootAt start (32 * i) k
      → IsReady k.console
      → (k' : Kernel) × (root_files_from m n i (done ++ rest) k
          ≡ ok (done ++ (dir_entries disk start i n ++ drop n rest), k'))
        × RootAt start (32 * (i + n)) k'
        × Extends k.console k'.console
        × (k' ≡ record k { fd_list = k'.fd_list; console = k'.console })
  unfolding root_files_from dir_entries
  root_files_from_lem zero i size start done rest k placed small fits here room at ready = (
    k,
    refl,
    subst (λ j. RootAt start (32 * j) k) (omega arith) at,
    Extends-refl k.console ready,
    refl,
  )
  root_files_from_lem (suc n) i size start done [] k placed small fits here room at ready =
      absurd (omega arith)
  root_files_from_lem (suc n) i size start done (x ∷ rest) k placed small fits here room at ready =
      let (c, said, more) = print_entry-Says i (omega (arith, small, fits)) k.console ready in
      let kc = record k { console = c } in
      let placed_at : RootAt start (32 * i) kc = record {
        root = at.root;
        found = at.found;
        below = at.below;
        offset = at.offset;
        position = at.position;
        drive = at.drive;
      } in
      let (k1, run1, at1, rest1) =
        read_entry_lem m served start size i kc placed (omega (arith, fits)) placed_at in
      let e = dir_entry disk start i in
      let same : k1.console ≡ c = ap (λ q. q.console) rest1 in
      let place : modify (done ++ x ∷ rest) i (λ _. e) ≡ ok (done ++ e ∷ rest) =
        subst (λ j. modify (done ++ x ∷ rest) j (λ _. e) ≡ ok (done ++ e ∷ rest)) here
          (modify-append done x rest (λ _. e)) in
      let (k2, run2, at2, more2, rest2) =
        root_files_from_lem n (i + 1) size start (done ++ e ∷ []) rest k1 placed small
          (omega (arith, fits)) (length-append done (e ∷ []) ∙ ap (λ j. j + 1) here)
          (omega (arith, room)) at1 (subst IsReady (sym same) more.ready) in
      let joined = append_assoc done (e ∷ []) rest in
      let longer = append_assoc done (e ∷ []) (dir_entries disk start (i + 1) n ++ drop n rest) in
      (
        k2,
        (rw (said, run1, place, sym joined, run2) (ap (λ t. ok (t, k2)) longer)),
        subst (λ j. RootAt start (32 * j) k2) (omega arith) at2,
        Extends-trans k.console c k2.console more (subst (λ q. Extends q k2.console) same more2),
        rest2
            ∙ ap {A = Kernel} (λ q. record q { fd_list = k2.fd_list; console = k2.console }) rest1,
      )

  -- Let the root directory lie on whole sectors of the disk and touch no last sector of a track,
  -- descriptor 5 be open on it, the array have room for the number of entries in the boot sector,
  -- which is below a million, and the buffer of `uitoa` be as it starts. `get_root_files` fills the
  -- array with the entries of the directory, in order, and leaves the rest of the array alone. Of
  -- the kernel, only the table of descriptors and the screen change.
  pub get_root_files_lem :
      (start p : ℕ) (files : List Fat16Entry) (k : Kernel)
      → IsPlaced start k.bs.root_dir_entries
      → k.bs.root_dir_entries < 10 ^ 6
      → k.bs.root_dir_entries ≤ length files
      → RootAt start p k
      → IsReady k.console
      → (k' : Kernel) × (get_root_files m files k
          ≡ ok (
            dir_entries disk start 0 k.bs.root_dir_entries ++ drop k.bs.root_dir_entries files,
            k',
          ))
        × RootAt start (32 * k.bs.root_dir_entries) k'
        × Extends k.console k'.console
        × (k' ≡ record k { fd_list = k'.fd_list; console = k'.console })
  unfolding get_root_files
  get_root_files_lem start p files k placed small room at ready =
      let (k1, run1, at1, rest1) = seek_first start p k at in
      let same : k1.console ≡ k.console = ap (λ q. q.console) rest1 in
      let (c, said, more) =
        heading-Says k.bs.root_dir_entries small k1.console (subst IsReady (sym same) ready) in
      let k2 = record k1 { console = c } in
      let placed_at : RootAt start (32 * 0) k2 = record {
        root = at1.root;
        found = at1.found;
        below = at1.below;
        offset = at1.offset;
        position = at1.position;
        drive = at1.drive;
      } in
      let (k3, run3, at3, more3, rest3) =
        root_files_from_lem k.bs.root_dir_entries 0 k.bs.root_dir_entries start [] files k2 placed
          small (omega arith) refl room placed_at more.ready in
      (
        k3,
        (rw (run1, said) run3),
        subst (λ j. RootAt start (32 * j) k3) (omega arith) at3,
        Extends-trans k.console c k3.console (subst (λ q. Extends q c) same more) more3,
        rest3
            ∙ ap {A = Kernel} (λ q. record q { fd_list = k3.fd_list; console = k3.console }) rest1,
      )
