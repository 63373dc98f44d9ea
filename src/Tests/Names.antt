-- ===== src/Tests/Names.antt =====
-- The theorems on directory entries at concrete inputs.
use rml.Base.{
  true, [], ◌∷◌, ◌++◌, replicate, some, ok, stop, no_fuel, codes, literal, ◌≡◌, ◌≢◌, refl, arith,
}
use rml.Clib.Text.Scan.{text_of, has_nul, lexicographic}
use rml.Fs.Layout.{Fat16Entry}
use rml.Fs.Entry.{get_entry_type, is_file, extract_file_name, get_file, SyscallFileEntry}
use rml.Fs.Entry.Names.{HasName, up_to_space, first_named, extract_file_name_hangs, get_file_lem}
use rml.Fs.Entry.Dates.{packed_date, packed_time}

abbrev shell : Fat16Entry
shell = record {
  filename = codes "SHELL   ";
  ext = codes "BIN";
  attributes = 0x21;
  reserved = replicate 10 0;
  modify_time = packed_time 13 45 58;
  modify_date = packed_date 2016 2 29;
  starting_cluster = 5;
  file_size = 8192;
}

abbrev deleted_entry : Fat16Entry
deleted_entry = record shell { filename = 0xe5 ∷ codes "HELL   " }

abbrev old_label : Fat16Entry
old_label = record shell { filename = codes "AB" ++ replicate 6 0 }

shell-HasName : HasName shell
shell-HasName = record {
  name_size = refl;
  ext_size = refl;
  name_chars = ground arith;
  ext_chars = ground arith;
}

extract_file_name_hangs_example : extract_file_name 9 old_label ≡ stop no_fuel
unfolding has_nul text_of
extract_file_name_hangs_example = extract_file_name_hangs 9 old_label refl (omega arith)

no_file : is_file (get_entry_type deleted_entry) ≢ true
unfolding get_entry_type
no_file e = ground arith

get_file_lem_example : get_file 1 2 (deleted_entry ∷ shell ∷ []) (literal "SHELL") ≡ ok (some shell)
unfolding has_nul text_of first_named up_to_space get_entry_type lexicographic
get_file_lem_example =
    get_file_lem 0 2 (deleted_entry ∷ shell ∷ []) (literal "SHELL") (omega arith) refl
      ((λ e. absurd (no_file e)), ((λ e. shell-HasName), tt))

abbrev blank : SyscallFileEntry
blank = record {
  name = replicate 9 7;
  ext = replicate 4 7;
  dir = 7;
  read_only = 7;
  size = 7;
  day = 7;
  month = 7;
  year = 7;
  seconds = 7;
  minutes = 7;
  hours = 7;
}
