-- ===== src/Fs/Entry/Names.antt =====
-- File names: what `extract_file_name` takes from an entry, and which file `get_file` finds.
use mathlib.Core.List.{append-nil}
use rml.Base.{
  ℕ, zero, suc, ◌+◌, ◌≤◌, ◌<◌, true, ◌&&◌, List, [], ◌∷◌, ◌++◌, All, length, length-append, take,
  set, set-append, replicate, first_of, take-append_self, length-replicate, drop-replicate,
  Bool-cases, inl, inr, sym, take-append, ◌==◌, Option, none, some, if◌then◌else◌, ok, stop,
  no_fuel, ◌≡◌, ◌≢◌, refl, ap, ◌∙◌, arith,
}
use rml.Clib.Text.{strncpy, strcmp}
use rml.Clib.Text.Scan.{text_of, has_nul, lexicographic, strcmp-eq-lexicographic}
use rml.Clib.Text.Pad.{strncpy_lem, strncpy_hangs}
use rml.Files.{is_zero}
use rml.Fs.Layout.{Fat16Entry}
use rml.Fs.Entry.{blank_spaces, extract_file_name, get_entry_type, is_file, get_file}

-- The characters before the first space.
unfoldable pub up_to_space : List ℕ → List ℕ
up_to_space [] = []
up_to_space (c ∷ s) = if c == 0x20 then [] else c ∷ up_to_space s

-- A name field of 8 characters and an extension field of 3, padded by spaces or not, with no NUL.
pub record HasName (e : Fat16Entry) : Type 0 where
  pub name_size : length e.filename ≡ 8
  pub ext_size : length e.ext ≡ 3
  pub name_chars : All (λ c. c ≢ 0) e.filename
  pub ext_chars : All (λ c. c ≢ 0) e.ext

blank_text :
    (n : ℕ) (s r : List ℕ)
    → length s ≡ n
    → All (λ c. c ≢ 0) s
    → (text_of (blank_spaces n (s ++ 0 ∷ r)) ≡ up_to_space s)
      × (has_nul (blank_spaces n (s ++ 0 ∷ r)) ≡ true)
unfolding blank_spaces text_of has_nul up_to_space
blank_text zero [] r h nz = (refl, refl)
blank_text zero (c ∷ s) r h nz = absurd (omega arith)
blank_text (suc n) [] r h nz = absurd (omega arith)
blank_text (suc n) (c ∷ s) r h nz = ground (arith, blank_text n s r (omega arith) nz.1)

-- One field: copied with the character behind it, which the NUL then replaces.
field_copied :
    (fuel n : ℕ) (s : List ℕ) (c : ℕ) (r : List ℕ)
    → length s ≡ n
    → All (λ x. x ≢ 0) s
    → strncpy (suc fuel) (replicate (suc n) 0) (s ++ c ∷ r) n ≡ ok (s ++ c ∷ [])
field_copied fuel n s c r h nz =
    let cut = take-append_self n s (c ∷ r) h in
    let next : n + 1 ≡ suc n = omega arith in
    let more : take (suc n) (s ++ c ∷ r) ≡ s ++ c ∷ [] =
      ap (λ k. take k (s ++ c ∷ r)) (sym next) ∙ take-append n 1 s (c ∷ r) h in
    rw (
      strncpy_lem fuel n (replicate (suc n) 0) (s ++ c ∷ r) (rw cut nz)
          (omega (arith, length-append s (c ∷ r)))
          (omega (arith, length-replicate {A = ℕ} (suc n) 0)),
      more,
      drop-replicate {A = ℕ} (suc n) 0,
      append-nil,
    )

set_behind : (n : ℕ) (s : List ℕ) (c : ℕ) → length s ≡ n → set (s ++ c ∷ []) n 0 ≡ s ++ 0 ∷ []
set_behind n s c h = ap (λ k. set (s ++ c ∷ []) k 0) (sym h) ∙ set-append s c 0 []

-- `extract_file_name` of such an entry ends; the name and the extension that it leaves are terminated
-- and hold the characters of the field up to its first space.
pub extract_file_name_lem :
    (fuel : ℕ) (e : Fat16Entry)
    → HasName e
    → (name : List ℕ) × (ext : List ℕ) × (extract_file_name (suc fuel) e ≡ ok (name, ext))
      × (text_of name ≡ up_to_space e.filename)
      × (text_of ext ≡ up_to_space e.ext)
      × (has_nul name ≡ true)
      × (has_nul ext ≡ true)
unfolding extract_file_name
extract_file_name_lem fuel e h =
    let (c, r, ext_eq) = first_of 2 e.ext h.ext_size in
    let copied_name =
      ap (λ t. strncpy (suc fuel) (replicate 9 0) (e.filename ++ t) 8) ext_eq
      ∙ field_copied fuel 8 e.filename c r h.name_size h.name_chars in
    let copied_ext = field_copied fuel 3 e.ext e.attributes e.reserved h.ext_size h.ext_chars in
    let name_text = blank_text 8 e.filename [] h.name_size h.name_chars in
    let ext_text = blank_text 3 e.ext [] h.ext_size h.ext_chars in
    (
      blank_spaces 8 (e.filename ++ 0 ∷ []),
      blank_spaces 3 (e.ext ++ 0 ∷ []),
      rw (
        copied_name,
        copied_ext,
        set_behind 8 e.filename c h.name_size,
        set_behind 3 e.ext e.attributes h.ext_size,
      ),
      name_text.0,
      ext_text.0,
      name_text.1,
      ext_text.1,
    )

-- An entry with a NUL among the first seven characters of its name makes `extract_file_name` loop
-- for ever: no fuel is enough.
pub extract_file_name_hangs :
    (fuel : ℕ) (e : Fat16Entry)
    → has_nul (e.filename ++ e.ext) ≡ true
    → length (text_of (e.filename ++ e.ext)) < 7
    → extract_file_name fuel e ≡ stop no_fuel
unfolding extract_file_name
extract_file_name_hangs fuel e h k =
    rw (strncpy_hangs fuel 8 (replicate 9 0) (e.filename ++ e.ext) h (omega arith) (omega arith))

-- The entries that `get_file` compares: the file entries, by the text of their name.
unfoldable pub first_named : ℕ → List ℕ → List Fat16Entry → Option Fat16Entry
first_named zero name es = none
first_named (suc n) name [] = none
first_named (suc n) name (e ∷ es) =
    if is_file (get_entry_type e) && is_zero (lexicographic (up_to_space e.filename) name)
    then some e
    else first_named n name es

-- Let the name be terminated, the array have `n` entries or more, and every file entry among the
-- first `n` have full name fields without NUL. `get_file` ends and returns the first file
-- entry of the first `n` whose name up to its first space is the text asked for, or none if there
-- is no such entry.
pub get_file_lem :
    (fuel n : ℕ) (es : List Fat16Entry) (name : List ℕ)
    → n ≤ length es
    → has_nul name ≡ true
    → All (λ e. is_file (get_entry_type e) ≡ true → HasName e) (take n es)
    → get_file (suc fuel) n es name ≡ ok (first_named n (text_of name) es)
unfolding get_file first_named
get_file_lem fuel zero es name h t good = refl
get_file_lem fuel (suc n) [] name h t good = absurd (omega arith)
get_file_lem fuel (suc n) (e ∷ es) name h t good =
    let ih = get_file_lem fuel n es name (omega arith) t good.1 in
    elim (Bool-cases (is_file (get_entry_type e))) [
      | inr other ↦ rw (other, ih)
      | inl named ↦
          let (text, ext, run, same, _, ended, _) = extract_file_name_lem fuel e (good.0 named) in
          let order : strcmp text name
              ≡ ok (lexicographic (up_to_space e.filename) (text_of name)) =
            strcmp-eq-lexicographic text name ended t
            ∙ ap (λ s. ok (lexicographic s (text_of name))) same in
          elim (Bool-cases (is_zero (lexicographic (up_to_space e.filename) (text_of name)))) [
            | inl equal ↦ rw (named, run, order, equal)
            | inr differ ↦ rw (named, run, order, differ, ih)
          ]
    ]
