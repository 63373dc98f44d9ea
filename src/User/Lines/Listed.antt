-- ===== src/User/Lines/Listed.antt =====
-- What a listing says of a file, and the line that utils/ls.c prints of it.
use rml.Base.{
  ℕ, zero, suc, ◌+◌, ◌*◌, ◌/◌, ◌%◌, ◌^◌, u32, ◌≤◌, ◌<◌, get_or, true, List, [], ◌∷◌, All, take,
  drop, length, length-take, length-drop, Bool-cases, inl, inr, ◌≡◌, refl, sym, ap, ◌∙◌, subst,
  arith,
}
use rml.Clib.Text.Scan.{text_of, has_nul}
use rml.Console.Lines.{Exactly, ◌followed_by◌}
use rml.Fs.Layout.{Fat16Entry, byte_at, long_at}
use rml.Fs.Entry.{get_entry_type, is_file}
use rml.Fs.Entry.Names.{HasName, up_to_space}
use rml.Fs.Directory.Describes.{Describes, Lists, only_files, IsNamed}
use rml.Params.{listing_at, listings_in}
use rml.User.Missing.{IsPlain}
use rml.User.Lines.Entry.{LineOf, EntryLine, EntryLines, IsListable, AreListable, total_size}

-- The line of a file of the directory.
abbrev pub FileLine : Fat16Entry → List ℕ → Type 0
FileLine f =
    LineOf (up_to_space f.filename) (up_to_space f.ext) (f.attributes / 16 % 2) (f.attributes % 2)
      f.file_size (f.modify_date % 32) (f.modify_date / 32 % 16) (f.modify_time / 32 % 64)
      (f.modify_time / 2048 % 32)

abbrev pub FileLines : List Fat16Entry → List ℕ → Type 0
FileLines [] = Exactly []
FileLines (f ∷ fs) = FileLine f followed_by FileLines fs

-- The sum of the sizes onto `total`, as ls adds them up.
unfoldable pub sum_of_sizes : List Fat16Entry → ℕ → ℕ
sum_of_sizes [] total = total
sum_of_sizes (f ∷ fs) total = sum_of_sizes fs (u32 (total + f.file_size))

-- A file whose name fields are full, and that ls can print.
pub record IsShown (f : Fat16Entry) : Type 0 where
  pub named : HasName f
  pub size : f.file_size < 2 ^ 32
  pub plain_name : IsPlain (up_to_space f.filename)
  pub plain_ext : IsPlain (up_to_space f.ext)

take-take : (n m : ℕ) (s : List ℕ) → n ≤ m → take n (take m s) ≡ take n s
take-take zero m s h = refl
take-take (suc n) zero s h = absurd (omega (arith, h))
take-take (suc n) (suc m) [] h = refl
take-take (suc n) (suc m) (c ∷ s) h = ap (λ t. c ∷ t) (take-take n m s (omega arith))

take-nil : (n : ℕ) → take {A = ℕ} n [] ≡ []
take-nil zero = refl
take-nil (suc n) = refl

drop-take : (n m k : ℕ) (s : List ℕ) → m ≡ n + k → drop n (take m s) ≡ take k (drop n s)
drop-take zero m k s h = ap (λ i. take i s) (omega (arith, h))
drop-take (suc n) zero k s h = absurd (omega (arith, h))
drop-take (suc n) (suc m) k [] h = sym (take-nil k)
drop-take (suc n) (suc m) k (c ∷ s) h = drop-take n m k s (omega (arith, h))

get_or-take : (n i : ℕ) (s : List ℕ) → i < n → get_or (take n s) i 0 ≡ get_or s i 0
get_or-take zero i s h = absurd (omega (arith, h))
get_or-take (suc n) i [] h = refl
get_or-take (suc n) zero (c ∷ s) h = refl
get_or-take (suc n) (suc i) (c ∷ s) h = get_or-take n i s (omega arith)

short_text : (s : List ℕ) → length (text_of s) < length s → has_nul s ≡ true
unfolding text_of has_nul
short_text [] h = absurd (omega (arith, h))
short_text (c ∷ s) h = ground (arith, short_text s, h)

-- A text that ends within the first bytes.
text_of-take :
    (n : ℕ) (s : List ℕ)
    → has_nul (take n s) ≡ true
    → (text_of s ≡ text_of (take n s)) × (has_nul s ≡ true)
unfolding text_of has_nul
text_of-take zero s h = ground (arith, h)
text_of-take (suc n) [] h = ground (arith, h)
text_of-take (suc n) (c ∷ s) h = ground (arith, text_of-take n s, h)

length-up_to_space : (s : List ℕ) → length (up_to_space s) ≤ length s
unfolding up_to_space
length-up_to_space [] = omega arith
length-up_to_space (c ∷ s) = ground (arith, length-up_to_space s)

-- A name field that stands in `n` bytes, with room for its NUL.
field_text :
    (n : ℕ) (s t field : List ℕ)
    → t ≡ take n s
    → n ≤ length s
    → length field < n
    → text_of t ≡ up_to_space field
    → (text_of s ≡ up_to_space field) × (has_nul s ≡ true)
field_text n s t field same size room text =
    let len : length (take n s) ≡ n = length-take n s size in
    let text1 : text_of (take n s) ≡ up_to_space field = ap text_of (sym same) ∙ text in
    let ended =
      short_text (take n s)
        (omega (arith, ap (λ x. length x) text1, length-up_to_space field, room, len)) in
    let (whole, ends) = text_of-take n s ended in (whole ∙ text1, ends)

-- The bytes of a listing: ls can print them, and prints the line of the file.
listed_entry :
    (f : Fat16Entry) (b : List ℕ)
    → Describes f (listing_at (take 28 b))
    → IsShown f
    → 28 ≤ length b
    → IsListable b × ((s : List ℕ) → EntryLine b s → FileLine f s) × (long_at b 16 ≡ f.file_size)
listed_entry f b d shows size =
    let (name, ended) =
      field_text 9 b (take 9 (take 28 b)) f.filename (take-take 9 28 b (omega arith))
        (omega (arith, size)) (omega (arith, shows.named.name_size)) d.name in
    let (ext, ext_ended) =
      field_text 4 (drop 9 b) (take 4 (drop 9 (take 28 b))) f.ext
        (ap (λ t. take 4 t) (drop-take 9 28 19 b (omega arith))
          ∙ take-take 4 19 (drop 9 b) (omega arith))
        (omega (arith, size, length-drop 9 b)) (omega (arith, shows.named.ext_size)) d.ext in
    let at : (i : ℕ) → i < 28 → byte_at b i ≡ byte_at (take 28 b) i =
      λ i h. sym (get_or-take 28 i b h) in
    let dir = at 13 (omega arith) ∙ d.dir in
    let read_only = at 14 (omega arith) ∙ d.read_only in
    let long : long_at b 16 ≡ f.file_size = omega (
      arith,
      at 16 (omega arith),
      at 17 (omega arith),
      at 18 (omega arith),
      at 19 (omega arith),
      d.size,
    ) in
    let day = at 20 (omega arith) ∙ d.day in
    let month = at 21 (omega arith) ∙ d.month in
    let minutes = at 25 (omega arith) ∙ d.minutes in
    let hours = at 26 (omega arith) ∙ d.hours in
    let lines : EntryLine b ≡ FileLine f =
      (rw (name, ext, dir, read_only, long, day, month, minutes, hours) refl) in
    (
      record {
        size = omega (arith, long, shows.size);
        day = omega (arith, day);
        hours = omega (arith, hours);
        minutes = omega (arith, minutes);
        name = ended;
        plain_name = rw name shows.plain_name;
        ext = ext_ended;
        plain_ext = rw ext shows.plain_ext;
      },
      (λ s line. subst (λ (F : List ℕ → Type 0). F s) lines line),
      long,
    )

pub listed_entries :
    (fs : List Fat16Entry) (n : ℕ) (b : List ℕ) (total : ℕ)
    → Lists fs (listings_in n b)
    → All IsShown fs
    → 28 * n ≤ length b
    → AreListable n b
      × ((s : List ℕ) → EntryLines n b s → FileLines fs s)
      × (total_size n b total ≡ sum_of_sizes fs total)
unfolding listings_in total_size sum_of_sizes
listed_entries [] zero b total d shows size = (tt, (λ s line. line), refl)
listed_entries [] (suc n) b total d shows size = absurd d
listed_entries (f ∷ fs) zero b total d shows size = absurd d
listed_entries (f ∷ fs) (suc n) b total d shows size =
    let (first, line, long) = listed_entry f b d.0 shows.0 (omega (arith, size)) in
    let (rest, lines, sums) =
      listed_entries fs n (drop 28 b) (u32 (total + long_at b 16)) d.1 shows.1
        (omega (arith, size, length-drop 28 b)) in
    (
      (first, rest),
      (λ s written.
          let (s1, s2, whole, one, more) = written in (s1, s2, whole, line s1 one, lines s2 more)),
      sums ∙ ap (λ t. sum_of_sizes fs (u32 (total + t))) long,
    )

-- The files of the directory are such files.
abbrev pub IsShownFile : Fat16Entry → Type 0
IsShownFile e = is_file (get_entry_type e) ≡ true → IsShown e

pub files-IsNamed : (es : List Fat16Entry) → All IsShownFile es → All IsNamed es
files-IsNamed [] h = tt
files-IsNamed (e ∷ es) h = ((λ file. (h.0 file).named), files-IsNamed es h.1)

pub files-IsShown : (n : ℕ) (es : List Fat16Entry) → All IsShown es → All IsShown (take n es)
files-IsShown zero es h = tt
files-IsShown (suc n) [] h = tt
files-IsShown (suc n) (e ∷ es) h = (h.0, files-IsShown n es h.1)

pub only_files-IsShown : (es : List Fat16Entry) → All IsShownFile es → All IsShown (only_files es)
unfolding only_files
only_files-IsShown [] h = tt
only_files-IsShown (e ∷ es) h = elim (Bool-cases (is_file (get_entry_type e))) [
  | inl file ↦ (rw file (h.0 file, only_files-IsShown es h.1))
  | inr other ↦ (rw other (only_files-IsShown es h.1))
]
