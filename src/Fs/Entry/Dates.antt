-- ===== src/Fs/Entry/Dates.antt =====
-- The listing of a file: names, attributes, date and time (`list_root_files` of fs/msdos/fs.c).
use rml.Base.{
  ℕ, suc, ◌+◌, ◌-◌, ◌*◌, ◌/◌, ◌%◌, ◌^◌, ◌≤◌, ◌<◌, bit_and, true, List, ◌∷◌, ◌++◌, length, drop,
  ◌==◌, if◌then◌else◌, ok, ◌≡◌, refl, arith,
}
use rml.Base.Masks.{field_of, bit_and-ones}
use rml.Clib.Text.Scan.{text_of, has_nul}
use rml.Clib.Text.Copy.{strcpy_lem, text_of-append_nul}
use rml.Fs.Layout.{Fat16Entry}
use rml.Fs.Entry.{SyscallFileEntry, listing_of, file_attrib}

-- The packed date and time of a FAT entry.
abbrev pub packed_date : ℕ → ℕ → ℕ → ℕ
packed_date year month day = (year - 1980) * 512 + month * 32 + day

abbrev pub packed_time : ℕ → ℕ → ℕ → ℕ
packed_time hours minutes seconds = hours * 2048 + minutes * 32 + seconds / 2

-- An entry that was modified on a day from 1980 to 2107 and at a time of even seconds, with
-- terminated names that fit the fields of the listing: its listing has that year, month and day, that
-- time, the entry's size and the two names.
pub listing_of_lem :
    (e : Fat16Entry) (name ext : List ℕ) (old : SyscallFileEntry)
    (year month day hours minutes seconds : ℕ)
    → e.modify_date ≡ packed_date year month day
    → e.modify_time ≡ packed_time hours minutes seconds
    → 1980 ≤ year
    → year < 2108
    → month < 16
    → day < 32
    → hours < 32
    → minutes < 64
    → seconds < 64
    → seconds % 2 ≡ 0
    → has_nul name ≡ true
    → length (text_of name) < length old.name
    → has_nul ext ≡ true
    → length (text_of ext) < length old.ext
    → (l : SyscallFileEntry) × (listing_of e name ext old ≡ ok l)
      × (text_of l.name ≡ text_of name)
      × (text_of l.ext ≡ text_of ext)
      × (l.size ≡ e.file_size)
      × (l.year ≡ year)
      × (l.month ≡ month)
      × (l.day ≡ day)
      × (l.hours ≡ hours)
      × (l.minutes ≡ minutes)
      × (l.seconds ≡ seconds)
unfolding listing_of
listing_of_lem e name ext old year month day hours minutes seconds dated timed y1 y2 mo da ho mi se
      even hn fn he fe =
    let date = e.modify_date in
    let time = e.modify_time in
    (
      record {
        name = text_of name ++ 0 ∷ drop (suc (length (text_of name))) old.name;
        ext = text_of ext ++ 0 ∷ drop (suc (length (text_of ext))) old.ext;
        dir = (if (file_attrib e).subdirectory == 0 then 0 else 1);
        read_only = (if (file_attrib e).read_only == 0 then 0 else 1);
        size = e.file_size;
        day = bit_and date 0x001f;
        month = bit_and date 0x01e0 / 2 ^ 5;
        year = bit_and date 0xfe00 / 2 ^ 9 + 1980;
        seconds = bit_and time 0x001f * 2;
        minutes = bit_and time 0x07e0 / 2 ^ 5;
        hours = bit_and time 0xf800 / 2 ^ 11;
      },
      rw (strcpy_lem old.name name hn fn, strcpy_lem old.ext ext he fe),
      text_of-append_nul name _,
      text_of-append_nul ext _,
      refl,
      omega (arith, field_of 9 7 date),
      omega (arith, field_of 5 4 date),
      omega (arith, bit_and-ones 5 date),
      omega (arith, field_of 11 5 time),
      omega (arith, field_of 5 6 time),
      omega (arith, bit_and-ones 5 time),
    )
