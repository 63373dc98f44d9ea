-- ===== src/Fs/Directory/Print.antt =====
-- `list_files` of fs/msdos/fs.c: the names of the files on the screen.
use mathlib.Core.List.{append-nil, append_assoc}
use rml.Base.{
  ℕ, zero, suc, ◌≤◌, true, List, [], ◌∷◌, ◌++◌, All, length, take, ◌==◌, Bool-cases, inl, inr,
  if◌then◌else◌, Outcome, ok, stop, bounds, ◌>>=◌, literal, ◌≡◌, refl, sym, ap, arith,
}
use rml.Clib.Text.Scan.{text_of, has_nul}
use rml.Console.{Console, printk, line}
use rml.Console.Laws.{printk_lem}
use rml.Fs.Layout.{Fat16Entry}
use rml.Fs.Entry.{get_entry_type, is_file, first_byte, extract_file_name}
use rml.Fs.Entry.Names.{up_to_space, extract_file_name_lem}
use rml.Fs.Directory.Describes.{IsNamed, only_files, file_first_byte}

-- Some text, the name and the extension of an entry, and some text.
unfoldable pub print_name : ℕ → List ℕ → List ℕ → Fat16Entry → Console → Outcome Console
print_name fuel before after e con = do
  c1 ← printk before con
  (name, ext) ← extract_file_name fuel e
  c2 ← printk name c1
  c3 ← printk (literal ".") c2
  c4 ← printk ext c3
  printk after c4

-- The loop of `list_files` with `n` entries left. The attributes that it takes are not used. Before the
-- name of an entry that is not deleted nothing is printed, which is the empty string here.
unfoldable pub list_files_from : ℕ → ℕ → List Fat16Entry → Console → Outcome Console
unfolding print_name
list_files_from fuel zero files con = ok con
list_files_from fuel (suc n) [] con = stop bounds
list_files_from fuel (suc n) (e ∷ files) con =
    let others = list_files_from fuel n files con in
    if is_file (get_entry_type e)
    then (if first_byte e == 0xe5
        then (do
          con' ← print_name fuel (literal "deleted (") (literal ")   ") e con
          list_files_from fuel n files con')
        else if first_byte e == 0x00
        then ok con
        else (do
          con' ← print_name fuel (literal "") (literal "   ") e con
          list_files_from fuel n files con'))
    else others

-- `n` is the number of root entries.
unfoldable pub list_files : ℕ → ℕ → List Fat16Entry → Console → Outcome Console
unfolding list_files_from
list_files fuel n files con = do con' ← list_files_from fuel n files con; printk (line []) con'

abbrev pub file_text : Fat16Entry → List ℕ
file_text e = up_to_space e.filename ++ b'.' ∷ up_to_space e.ext ++ b' ' ∷ b' ' ∷ b' ' ∷ []

-- The texts of entries, one behind the other.
unfoldable pub file_texts : List Fat16Entry → List ℕ
file_texts [] = []
file_texts (e ∷ es) = file_text e ++ file_texts es

-- The console with another screen.
abbrev pub printed : Console → List ℕ → Console
printed con t = record con { screen = t }

print_name_lem :
    (fuel : ℕ) (e : Fat16Entry) (con : Console)
    → IsNamed e
    → is_file (get_entry_type e) ≡ true
    → print_name (suc fuel) (literal "") (literal "   ") e con
      ≡ ok (record con { screen = con.screen ++ file_text e })
unfolding print_name text_of has_nul
print_name_lem fuel e con named file =
    let (name, ext, run, name_eq, ext_eq, hn, he) = extract_file_name_lem fuel e (named file) in
    let s1 = con.screen ++ [] in
    let s2 = s1 ++ text_of name in
    let s3 = s2 ++ b'.' ∷ [] in
    let s4 = s3 ++ text_of ext in
    (rw
      (
        printk_lem (literal "") con refl,
        run,
        printk_lem name (printed con s1) hn,
        printk_lem (literal ".") (printed con s2) refl,
        printk_lem ext (printed con s3) he,
        printk_lem (literal "   ") (printed con s4) refl,
      )
      (ap (λ t. ok (printed con t)) (simp (append_assoc, append-nil, name_eq, ext_eq))))

list_files_from_lem :
    (fuel n : ℕ) (files : List Fat16Entry) (con : Console)
    → n ≤ length files
    → All IsNamed files
    → list_files_from (suc fuel) n files con
      ≡ ok (printed con (con.screen ++ file_texts (only_files (take n files))))
unfolding list_files_from file_texts only_files
list_files_from_lem fuel zero files con fits named =
    ap (λ t. ok (printed con t)) (sym (append-nil con.screen))
list_files_from_lem fuel (suc n) [] con fits named = absurd (omega arith)
list_files_from_lem fuel (suc n) (e ∷ files) con fits named =
    elim (Bool-cases (is_file (get_entry_type e))) [
      | inr other ↦ rw (other, list_files_from_lem fuel n files con (omega arith) named.1) refl
      | inl file ↦
          let (mark, end) = file_first_byte e file in
          let s = con.screen ++ file_text e in
          rw
            (
              file,
              mark,
              end,
              print_name_lem fuel e con named.0 file,
              list_files_from_lem fuel n files (printed con s) (omega arith) named.1,
            )
            (ap (λ t. ok (printed con t))
              (append_assoc con.screen (file_text e) (file_texts (only_files (take n files)))))
    ]

-- For an array of at least `n` entries whose files all have names, `list_files` ends, and behind the
-- screen stand, for each file among the first `n` in order, its name and extension up to their
-- first spaces, joined by a dot, and three spaces; then the end of the line.
pub list_files_lem :
    (fuel n : ℕ) (files : List Fat16Entry) (con : Console)
    → n ≤ length files
    → All IsNamed files
    → list_files (suc fuel) n files con
      ≡ ok (printed con (con.screen ++ file_texts (only_files (take n files)) ++ 13 ∷ 10 ∷ []))
unfolding list_files
list_files_lem fuel n files con fits named =
    let s = con.screen ++ file_texts (only_files (take n files)) in
    rw
      (
        list_files_from_lem fuel n files con fits named,
        printk_lem (line []) (printed con s) (unfold has_nul in refl),
      )
      (unfold text_of in refl)
