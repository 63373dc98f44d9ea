-- ===== src/Fs/Directory/Describes.antt =====
-- What `list_root_files` of fs/msdos/fs.c stores for one entry, against the entry.
use rml.Base.{
  ℕ, suc, ◌+◌, ◌*◌, ◌/◌, ◌%◌, ◌^◌, ◌≤◌, ◌<◌, bit_and, true, false, List, [], ◌∷◌, ◌++◌, length,
  drop, if◌then◌else◌, ◌==◌, ok, ◌≡◌, refl, ap, ◌∙◌, arith,
}
use rml.Base.Masks.{field_of, bit_and-ones}
use rml.Clib.Text.Scan.{text_of}
use rml.Clib.Text.Copy.{strcpy_lem, text_of-append_nul}
use rml.Fs.Layout.{Fat16Entry}
use rml.Fs.Entry.{
  SyscallFileEntry, file_attrib, get_entry_type, is_file, first_byte, extract_file_name, listing_of,
}
use rml.Fs.Entry.Names.{HasName, up_to_space, extract_file_name_lem}
use rml.Fs.Entry.Types.{get_entry_type-file, file_attrib_lem}

-- What the listing of a directory entry says.
pub record Describes (e : Fat16Entry) (l : SyscallFileEntry) : Type 0 where
  pub name : text_of l.name ≡ up_to_space e.filename
  pub ext : text_of l.ext ≡ up_to_space e.ext
  pub dir : l.dir ≡ e.attributes / 16 % 2
  pub read_only : l.read_only ≡ e.attributes % 2
  pub size : l.size ≡ e.file_size
  pub day : l.day ≡ e.modify_date % 32
  pub month : l.month ≡ e.modify_date / 32 % 16
  pub year : l.year ≡ e.modify_date / 512 % 128 + 1980
  pub seconds : l.seconds ≡ e.modify_time % 32 * 2
  pub minutes : l.minutes ≡ e.modify_time / 32 % 64
  pub hours : l.hours ≡ e.modify_time / 2048 % 32

-- A place of the buffer with its arrays for the name and the extension.
abbrev pub HasRoom : SyscallFileEntry → Type 0
HasRoom l = (8 < length l.name) × (3 < length l.ext)

-- One listing for each entry, in order.
abbrev pub Lists : List Fat16Entry → List SyscallFileEntry → Type 0
Lists [] [] = Unit
Lists [] (l ∷ ls) = ⊥
Lists (e ∷ es) [] = ⊥
Lists (e ∷ es) (l ∷ ls) = Describes e l × Lists es ls

unfoldable pub only_files : List Fat16Entry → List Fat16Entry
only_files [] = []
only_files (e ∷ es) = if is_file (get_entry_type e) then e ∷ only_files es else only_files es

abbrev pub IsNamed : Fat16Entry → Type 0
IsNamed e = is_file (get_entry_type e) ≡ true → HasName e

length-up_to_space : (s : List ℕ) → length (up_to_space s) ≤ length s
unfolding up_to_space
length-up_to_space [] = omega arith
length-up_to_space (c ∷ s) = ground (arith, length-up_to_space s)

pub file_first_byte :
    (e : Fat16Entry)
    → is_file (get_entry_type e) ≡ true
    → (first_byte e == 0xe5 ≡ false) × (first_byte e == 0x00 ≡ false)
file_first_byte e h = ground (arith, get_entry_type-file e, h)

-- One entry: names that fit, and the listing that describes it.
pub entry_listed :
    (fuel : ℕ) (e : Fat16Entry) (old : SyscallFileEntry)
    → HasName e
    → HasRoom old
    → (name : List ℕ) × (ext : List ℕ) × (l : SyscallFileEntry) × (extract_file_name (suc fuel) e
        ≡ ok (name, ext))
      × (listing_of e name ext old ≡ ok l)
      × Describes e l
unfolding listing_of
entry_listed fuel e old named room =
    let (name, ext, run, name_eq, ext_eq, hn, he) = extract_file_name_lem fuel e named in
    let bits = file_attrib_lem e in
    let date = e.modify_date in
    let time = e.modify_time in
    let name_fits : length (text_of name) < length old.name =
      omega (
        arith,
        length-up_to_space e.filename,
        named.name_size,
        room.0,
        ap (λ s. length s) name_eq,
      ) in
    let ext_fits : length (text_of ext) < length old.ext =
      omega (arith, length-up_to_space e.ext, named.ext_size, room.1, ap (λ s. length s) ext_eq) in
    (
      name,
      ext,
      record {
        name = text_of name ++ 0 ∷ drop (suc (length (text_of name))) old.name;
        ext = text_of ext ++ 0 ∷ drop (suc (length (text_of ext))) old.ext;
        dir = (if (file_attrib e).subdirectory == 0 then 0 else 1);
        read_only = (if (file_attrib e).read_only == 0 then 0 else 1);
        size = e.file_size;
        day = bit_and date 0x001f;
        month = bit_and date 0x01e0 / 2 ^ 5;
        year = bit_and date 0xfe00 / 2 ^ 9 + 1980;
        seconds = bit_and time 0x001f * 2;
        minutes = bit_and time 0x07e0 / 2 ^ 5;
        hours = bit_and time 0xf800 / 2 ^ 11;
      },
      run,
      rw (strcpy_lem old.name name hn name_fits, strcpy_lem old.ext ext he ext_fits),
      record {
        name = text_of-append_nul name _ ∙ name_eq;
        ext = text_of-append_nul ext _ ∙ ext_eq;
        dir = ground (arith, bits.4);
        read_only = ground (arith, bits.0);
        size = refl;
        day = omega (arith, bit_and-ones 5 date);
        month = omega (arith, field_of 5 4 date);
        year = omega (arith, field_of 9 7 date);
        seconds = omega (arith, bit_and-ones 5 time);
        minutes = omega (arith, field_of 5 6 time);
        hours = omega (arith, field_of 11 5 time);
      },
    )
