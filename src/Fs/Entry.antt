-- ===== src/Fs/Entry.antt =====
-- What fs/msdos/fs.c reads from a directory entry: attributes, type, name, date and time.
pub mod Names
pub mod Types
pub mod Dates
use rml.Base.{
  ℕ, zero, suc, ◌+◌, ◌*◌, ◌/◌, ◌^◌, bit_and, Bool, true, false, ◌&&◌, List, [], ◌∷◌, ◌++◌, get_or,
  set, replicate, ◌==◌, Option, none, some, if◌then◌else◌, Outcome, ok, stop, bounds, ◌>>=◌, ℤ, pos,
}
use rml.Clib.Text.{strcpy, strncpy, strcmp}
use rml.Files.{is_zero}
use rml.Fs.Layout.{Fat16Entry}

pub data EntryType : Type 0 where
  vfat deleted unused vollabel file : EntryType

pub record FileAttrib : Type 0 where
  pub read_only : ℕ
  pub hidden : ℕ
  pub system_file : ℕ
  pub volume_label : ℕ
  pub subdirectory : ℕ
  pub archive : ℕ

unfoldable pub file_attrib : Fat16Entry → FileAttrib
file_attrib e = record {
  read_only = bit_and e.attributes 0x01;
  hidden = bit_and e.attributes 0x02;
  system_file = bit_and e.attributes 0x04;
  volume_label = bit_and e.attributes 0x08;
  subdirectory = bit_and e.attributes 0x10;
  archive = bit_and e.attributes 0x20;
}

-- The first byte of the name.
abbrev pub first_byte : Fat16Entry → ℕ
first_byte e = get_or e.filename 0 0

-- `TYPE_NONE` is `unused`.
unfoldable pub get_entry_type : Fat16Entry → EntryType
unfolding file_attrib
get_entry_type e =
    if first_byte e == 0xe5
    then deleted
    else if first_byte e == 0x00
    then unused
    else if e.starting_cluster == 0
        && get_or e.reserved 0 0 == 0
        && e.attributes == 0x0f
        && bit_and (first_byte e) 0x41 == 0x41
    then vfat
    else if (file_attrib e).volume_label == 0
    then file
    else vollabel

abbrev pub is_file : EntryType → Bool
is_file file = true
is_file _ = false

-- `for (i = 0; i < n; i++) if (s[i] == ' ') s[i] = '\0';`
unfoldable pub blank_spaces : ℕ → List ℕ → List ℕ
blank_spaces zero s = s
blank_spaces (suc n) [] = []
blank_spaces (suc n) (c ∷ s) = (if c == 0x20 then 0 else c) ∷ blank_spaces n s

-- The name of 9 bytes and the extension of 4. `strncpy` reads on past the end of a full field, into
-- the next one of the packed entry; the two destinations are written in full.
unfoldable pub extract_file_name : ℕ → Fat16Entry → Outcome (List ℕ × List ℕ)
unfolding blank_spaces
extract_file_name fuel e = do
  filename ← strncpy fuel (replicate 9 0) (e.filename ++ e.ext) 8
  ext ← strncpy fuel (replicate 4 0) (e.ext ++ e.attributes ∷ e.reserved) 3
  ok (blank_spaces 8 (set filename 8 0), blank_spaces 3 (set ext 3 0))

-- The loop of `get_file` with `n` entries left: the first file of that name.
unfoldable pub get_file : ℕ → ℕ → List Fat16Entry → List ℕ → Outcome (Option Fat16Entry)
get_file fuel zero file_list name = ok none
get_file fuel (suc n) [] name = stop bounds
get_file fuel (suc n) (e ∷ file_list) name =
    let next = get_file fuel n file_list name in
    if is_file (get_entry_type e)
    then (do
      (filename, _) ← extract_file_name fuel e
      order ← strcmp filename name
      if is_zero order then ok (some e) else next)
    else next

-- `SYSCALL_FILE_ENTRY`
pub record SyscallFileEntry : Type 0 where
  pub name : List ℕ
  pub ext : List ℕ
  pub dir : ℕ
  pub read_only : ℕ
  pub size : ℕ
  pub day : ℕ
  pub month : ℕ
  pub year : ℕ
  pub seconds : ℕ
  pub minutes : ℕ
  pub hours : ℕ

-- What `list_root_files` stores for a file, over the `old` content of the place.
unfoldable pub listing_of :
    Fat16Entry → List ℕ → List ℕ → SyscallFileEntry → Outcome SyscallFileEntry
unfolding file_attrib
listing_of e name ext old = do
  name' ← strcpy old.name name
  ext' ← strcpy old.ext ext
  ok (record {
    name = name';
    ext = ext';
    dir = (if (file_attrib e).subdirectory == 0 then 0 else 1);
    read_only = (if (file_attrib e).read_only == 0 then 0 else 1);
    size = e.file_size;
    day = bit_and e.modify_date 0x001f;
    month = bit_and e.modify_date 0x01e0 / 2 ^ 5;
    year = bit_and e.modify_date 0xfe00 / 2 ^ 9 + 1980;
    seconds = bit_and e.modify_time 0x001f * 2;
    minutes = bit_and e.modify_time 0x07e0 / 2 ^ 5;
    hours = bit_and e.modify_time 0xf800 / 2 ^ 11;
  })
