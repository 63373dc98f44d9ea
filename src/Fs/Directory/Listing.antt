-- ===== src/Fs/Directory/Listing.antt =====
-- `list_root_files` of fs/msdos/fs.c: the files of the root directory, as a program gets them.
use mathlib.Core.List.{append_assoc}
use rml.Base.{
  ℕ, zero, suc, ◌+◌, ◌*◌, ◌/◌, ◌≤◌, ◌<◌, List, [], ◌∷◌, ◌++◌, length, length-append, take, drop,
  All, fetch, fetch-append, modify, modify-append, Bool-cases, inl, inr, ok, ◌≡◌, refl, sym, ap,
  ◌∙◌, subst, arith,
}
use rml.Block.Transfer.{Serves}
use rml.Kernel.{Kernel, Machine}
use rml.Fs.Entry.{SyscallFileEntry, get_entry_type, is_file}
use rml.Fs.Directory.{list_from, list_root_files}
use rml.Fs.Directory.Walk.{
  IsPlaced, RootAt, dir_entry, dir_entries, get_root_next_file_lem, get_root_next_file_end,
}
use rml.Fs.Directory.Describes.{HasRoom, Lists, only_files, IsNamed, file_first_byte, entry_listed}

module _ (m : Machine) {disk : ℕ → List ℕ} (served : Serves m.bios 1 disk) where
  pub list_from_lem :
      (n fuel i left size start c : ℕ) (done rest : List SyscallFileEntry) (k : Kernel)
      → IsPlaced start size
      → k.bs.root_dir_entries ≡ size
      → i + n ≡ size
      → n < fuel
      → length done ≡ c
      → left ≤ length rest
      → All HasRoom rest
      → All IsNamed (dir_entries disk start i n)
      → RootAt start (32 * i) k
      → (stored : List SyscallFileEntry) × (k' : Kernel) × (list_from m fuel left c (done ++ rest) k
          ≡ ok (c + length stored, done ++ (stored ++ drop (length stored) rest), k'))
        × Lists (take left (only_files (dir_entries disk start i n))) stored
        × (k' ≡ record k { fd_list = k'.fd_list })
  unfolding list_from dir_entries only_files
  list_from_lem n zero i left size start c done rest k placed count total fuel here fits room named
        at =
      absurd (omega arith)
  list_from_lem n (suc fuel) i zero size start c done rest k placed count total enough here fits
        room named at =
      ([], k, ap (λ j. ok (j, done ++ rest, k)) (omega arith), tt, refl)
  list_from_lem zero (suc fuel) i (suc left) size start c done rest k placed count total enough here
        fits room named at =
      let end =
        get_root_next_file_end m served start size k placed count
          (subst (λ j. RootAt start (32 * j) k) (omega (arith, total)) at) in
      ([], k, (rw end (ap (λ j. ok (j, done ++ rest, k)) (omega arith))), tt, refl)
  list_from_lem (suc n) (suc fuel) i (suc left) size start c done [] k placed count total enough
        here fits room named at =
      absurd (omega arith)
  list_from_lem (suc n) (suc fuel) i (suc left) size start c done (x ∷ rest) k placed count total
        enough here fits room named at =
      let (k1, run1, at1, rest1) =
        get_root_next_file_lem m served start size i k placed count (omega (arith, total)) at in
      let e = dir_entry disk start i in
      let count1 : k1.bs.root_dir_entries ≡ size = ap (λ q. q.bs.root_dir_entries) rest1 ∙ count in
      elim (Bool-cases (is_file (get_entry_type e))) [
        | inr other ↦
            let (stored, k2, run2, lists, rest2) =
              list_from_lem n fuel (i + 1) (suc left) size start c done (x ∷ rest) k1 placed count1
                (omega (arith, total)) (omega (arith, enough)) here fits room named.1 at1 in
            (
              stored,
              k2,
              (rw (run1, other) run2),
              (rw other lists),
              rest2 ∙ ap {A = Kernel} (λ q. record q { fd_list = k2.fd_list }) rest1,
            )
        | inl file ↦
            let (name, ext, l, run_name, run_l, describes) =
              entry_listed fuel e x (named.0 file) room.0 in
            let (mark, end) = file_first_byte e file in
            let (stored, k2, run2, lists, rest2) =
              list_from_lem n fuel (i + 1) left size start (c + 1) (done ++ l ∷ []) rest k1 placed
                count1 (omega (arith, total)) (omega (arith, enough))
                (length-append done (l ∷ []) ∙ ap (λ j. j + 1) here) (omega (arith, fits)) room.1
                named.1 at1 in
            let found : fetch (done ++ x ∷ rest) c ≡ ok x =
              subst (λ j. fetch (done ++ x ∷ rest) j ≡ ok x) here (fetch-append done x rest) in
            let placed_l : modify (done ++ x ∷ rest) c (λ _. l) ≡ ok (done ++ l ∷ rest) =
              subst (λ j. modify (done ++ x ∷ rest) j (λ _. l) ≡ ok (done ++ l ∷ rest)) here
                (modify-append done x rest (λ _. l)) in
            let tail = stored ++ drop (length stored) rest in
            (
              l ∷ stored,
              k2,
              (rw
                  (
                    run1,
                    file,
                    mark,
                    end,
                    run_name,
                    found,
                    run_l,
                    placed_l,
                    sym (append_assoc done (l ∷ []) rest),
                    run2,
                  )
                  (ap (λ j. ok (j, (done ++ l ∷ []) ++ tail, k2)) (omega arith)
                    ∙ ap (λ t. ok (c + length (l ∷ stored), t, k2))
                        (append_assoc done (l ∷ []) tail))),
              (rw file (describes, lists)),
              rest2 ∙ ap {A = Kernel} (λ q. record q { fd_list = k2.fd_list }) rest1,
            )
      ]

  -- Let descriptor 5 stand at the first entry of the root directory, which lies on whole sectors of
  -- the disk and touches no last sector of a track, and whose files all have names; let the fuel
  -- pass the number of entries, and the buffer have a place, with arrays for the two names, for
  -- every 28 bytes of `buf_size`. `list_root_files` ends with the buffer holding, in order, a
  -- description (names up to the first space, attributes, size, date and time) of each file entry,
  -- as many as fit in `buf_size` bytes, returns their number, and leaves the rest of the buffer
  -- and, but for the table of descriptors, the kernel.
  pub list_root_files_lem :
      (fuel buf_size start : ℕ) (buf : List SyscallFileEntry) (k : Kernel)
      → IsPlaced start k.bs.root_dir_entries
      → k.bs.root_dir_entries < fuel
      → buf_size / 28 ≤ length buf
      → All HasRoom buf
      → All IsNamed (dir_entries disk start 0 k.bs.root_dir_entries)
      → RootAt start 0 k
      → (stored : List SyscallFileEntry) × (k' : Kernel) × (list_root_files m fuel buf_size buf k
          ≡ ok (length stored, stored ++ drop (length stored) buf, k'))
        × Lists
            (take (buf_size / 28) (only_files (dir_entries disk start 0 k.bs.root_dir_entries)))
            stored
        × (k' ≡ record k { fd_list = k'.fd_list })
  unfolding list_root_files
  list_root_files_lem fuel buf_size start buf k placed enough fits room named at =
      let (stored, k', run, lists, rest) =
        list_from_lem k.bs.root_dir_entries fuel 0 (buf_size / 28) k.bs.root_dir_entries start 0 []
          buf k placed refl (omega arith) enough refl fits room named at in
      (
        stored,
        k',
        run ∙ ap (λ j. ok (j, stored ++ drop (length stored) buf, k')) (omega arith),
        lists,
        rest,
      )
