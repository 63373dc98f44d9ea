-- ===== src/Files/Laws.antt =====
-- What `open` of kernel/kernio.c returns and stores, for every path.
use rml.Base.{
  ℕ, pos, Bool, true, List, [], ◌∷◌, length, update_at, modify_lem, ◌==◌, leb, Option, none, some,
  if◌then◌else◌, ok, stop, bounds, modify_bounds, codes, ◌≡◌, refl, arith, ap, ◌∙◌, ◌++◌,
}
use rml.Clib.Text.{strcmp}
use rml.Clib.Text.Scan.{text_of, has_nul, lexicographic, strcmp-eq-lexicographic}
use rml.Files.{
  FileDescriptor, SectionPositions, open_in, minus_one, is_zero, open_drive_entry, open_char_entry,
  open_root_entry,
}

-- Whether two texts are equal, by their alphabetical order.
abbrev pub same_text : List ℕ → List ℕ → Bool
same_text s t = is_zero (lexicographic s t)

-- The devices of `open`: the descriptor of a path.
unfoldable pub device_of : List ℕ → Option ℕ
device_of path =
    if same_text path (codes "/dev/fda")
    then some 3
    else if same_text path (codes "/dev/stdin")
    then some 0
    else if same_text path (codes "/dev/stdout")
    then some 1
    else if same_text path (codes "/dev/fdb")
    then some 4
    else if same_text path (codes "/")
    then some 5
    else none

-- What is stored for a descriptor.
unfoldable pub entry_of : SectionPositions → ℕ → FileDescriptor → FileDescriptor
entry_of s fd =
    if fd == 5 then open_root_entry s else if leb 3 fd then open_drive_entry else open_char_entry

compare_with :
    (path : List ℕ) (name : List ℕ)
    → has_nul path ≡ true
    → has_nul (name ++ 0 ∷ []) ≡ true
    → text_of (name ++ 0 ∷ []) ≡ name
    → strcmp path (name ++ 0 ∷ []) ≡ ok (lexicographic (text_of path) name)
compare_with path name h t e =
    strcmp-eq-lexicographic path (name ++ 0 ∷ []) h t
    ∙ ap (λ n. ok (lexicographic (text_of path) n)) e

pub open_in_lem :
    (s : SectionPositions) (path : List ℕ) (table : List FileDescriptor)
    → has_nul path ≡ true
    → length table ≡ 6
    → open_in s path table
      ≡ ok (elim (device_of (text_of path)) [
        | none ↦ (minus_one, table)
        | some fd ↦ (pos fd, update_at table fd (entry_of s fd))
      ])
unfolding open_in device_of entry_of
open_in_lem s path table h k =
    let against = compare_with path in
    ground (
      arith,
      against (codes "/dev/fda") h (unfold has_nul in refl) (unfold text_of in refl),
      against (codes "/dev/stdin") h (unfold has_nul in refl) (unfold text_of in refl),
      against (codes "/dev/stdout") h (unfold has_nul in refl) (unfold text_of in refl),
      against (codes "/dev/fdb") h (unfold has_nul in refl) (unfold text_of in refl),
      against (codes "/") h (unfold has_nul in refl) (unfold text_of in refl),
      modify_lem table 0 open_char_entry (omega arith),
      modify_lem table 1 open_char_entry (omega arith),
      modify_lem table 3 open_drive_entry (omega arith),
      modify_lem table 4 open_drive_entry (omega arith),
      modify_lem table 5 (open_root_entry s) (omega arith),
    )

-- On a terminated path and a table of the five descriptors that the source declares, `open` ends as
-- on six but for the root directory: there it accesses the table out of its bounds.
pub open_in_overflow :
    (s : SectionPositions) (path : List ℕ) (table : List FileDescriptor)
    → has_nul path ≡ true
    → length table ≡ 5
    → open_in s path table ≡ elim (device_of (text_of path)) [
      | none ↦ ok (minus_one, table)
      | some fd ↦ if fd == 5 then stop bounds else ok (pos fd, update_at table fd (entry_of s fd))
    ]
unfolding open_in device_of entry_of
open_in_overflow s path table h k =
    let against = compare_with path in
    ground (
      arith,
      against (codes "/dev/fda") h (unfold has_nul in refl) (unfold text_of in refl),
      against (codes "/dev/stdin") h (unfold has_nul in refl) (unfold text_of in refl),
      against (codes "/dev/stdout") h (unfold has_nul in refl) (unfold text_of in refl),
      against (codes "/dev/fdb") h (unfold has_nul in refl) (unfold text_of in refl),
      against (codes "/") h (unfold has_nul in refl) (unfold text_of in refl),
      modify_lem table 0 open_char_entry (omega arith),
      modify_lem table 1 open_char_entry (omega arith),
      modify_lem table 3 open_drive_entry (omega arith),
      modify_lem table 4 open_drive_entry (omega arith),
      modify_bounds table 5 (open_root_entry s) (omega arith),
    )
