-- ===== src/User/Lines/Entry.antt =====
-- The lines that utils/ls.c prints for a listing.
use rml.Base.{
  ℕ, zero, suc, ◌+◌, ◌^◌, u32, ◌<◌, true, List, [], ◌∷◌, ◌++◌, drop, codes, literal, ◌==◌, Bool,
  Bool-cases, inl, inr, if◌then◌else◌, ok, ◌≡◌, refl, arith,
}
use rml.Clib.Text.Scan.{text_of, has_nul}
use rml.Console.{line}
use rml.Console.Lines.{Exactly, Decimal, Space, ◌followed_by◌}
use rml.Fs.Layout.{byte_at, long_at}
use rml.User.{User, Os}
use rml.User.Printf.{IsRunning, Printed, Printed-trans}
use rml.User.Missing.{IsPlain}
use rml.User.Utils.{
  month_name, print, print_rights, print_list_entry, print_entries, user_list_root_files, ls,
}
use rml.User.Lines.{
  Types, ◌then_type◌, ◌then_exactly◌, Printed-refl, print-Types, print_ultoa-Types,
  print_byte-Types,
}

abbrev pub flag_text : ℕ → List ℕ
flag_text dir = if dir == 0 then codes "-" else codes "d"

-- The rights, of `n` groups.
unfoldable pub rights_text : ℕ → ℕ → List ℕ
rights_text zero read_only = []
rights_text (suc n) read_only =
    codes "r"
    ++ ((if read_only == 0 then codes "w" else codes "-") ++ (codes "x" ++ rights_text n read_only))

-- The line of a file: type and rights, the size, the date and the time, the name and the extension.
abbrev pub LineOf : List ℕ → List ℕ → ℕ → ℕ → ℕ → ℕ → ℕ → ℕ → ℕ → List ℕ → Type 0
LineOf name ext dir read_only size day month minutes hours =
    Exactly (flag_text dir)
    followed_by Exactly (rights_text 3 read_only)
    followed_by Exactly (codes " root root ")
    followed_by Decimal size
    followed_by Space
    followed_by Exactly (text_of (month_name month))
    followed_by Space
    followed_by Decimal day
    followed_by Space
    followed_by Decimal hours
    followed_by Exactly (codes ":")
    followed_by Decimal minutes
    followed_by Space
    followed_by Exactly name
    followed_by Exactly (codes ".")
    followed_by Exactly ext
    followed_by Exactly (13 ∷ 10 ∷ [])

-- The line of an entry of 28 bytes, whose names end before their NULs.
abbrev pub EntryLine : List ℕ → List ℕ → Type 0
EntryLine e =
    LineOf (text_of e) (text_of (drop 9 e)) (byte_at e 13) (byte_at e 14) (long_at e 16)
      (byte_at e 20) (byte_at e 21) (byte_at e 25) (byte_at e 26)

abbrev IsWord : List ℕ → Type 0
IsWord s = (has_nul s ≡ true) × IsPlain (text_of s)

IsWord-if : (c : Bool) (s t : List ℕ) → IsWord s → IsWord t → IsWord (if c then s else t)
IsWord-if c s t p q = elim (Bool-cases c) [ inl e ↦ (rw e p) | inr e ↦ (rw e q) ]

month_name_plain : (m : ℕ) → IsWord (month_name m)
unfolding month_name text_of has_nul
month_name_plain m =
    IsWord-if (m == 1) (literal "Jan") _ (refl, ground arith)
      (IsWord-if (m == 2) (literal "Feb") _ (refl, ground arith)
        (IsWord-if (m == 3) (literal "Mar") _ (refl, ground arith)
          (IsWord-if (m == 4) (literal "Apr") _ (refl, ground arith)
            (IsWord-if (m == 5) (literal "May") _ (refl, ground arith)
              (IsWord-if (m == 6) (literal "Jun") _ (refl, ground arith)
                (IsWord-if (m == 7) (literal "Jul") _ (refl, ground arith)
                  (IsWord-if (m == 8) (literal "Aug") _ (refl, ground arith)
                    (IsWord-if (m == 9) (literal "Sep") _ (refl, ground arith)
                      (IsWord-if (m == 10) (literal "Oct") _ (refl, ground arith)
                        (IsWord-if (m == 11) (literal "Nov") _ (refl, ground arith)
                          (IsWord-if (m == 12) (literal "Dec") _ (refl, ground arith)
                            (refl, ground arith))))))))))))

-- An entry that ls can print: small numbers, and terminated names without %.
pub record IsListable (e : List ℕ) : Type 0 where
  pub size : long_at e 16 < 2 ^ 32
  pub day : byte_at e 20 < 128
  pub hours : byte_at e 26 < 128
  pub minutes : byte_at e 25 < 128
  pub name : has_nul e ≡ true
  pub plain_name : IsPlain (text_of e)
  pub ext : has_nul (drop 9 e) ≡ true
  pub plain_ext : IsPlain (text_of (drop 9 e))

module _ (o : Os) where
  print_flag-Types :
      (dir : ℕ)
      → Types (Exactly (flag_text dir)) (print o (if dir == 0 then literal "-" else literal "d"))
  unfolding text_of has_nul
  print_flag-Types dir = elim (Bool-cases (dir == 0)) [
    | inl e ↦ (rw e (print-Types o (literal "-") refl (ground arith)))
    | inr e ↦ (rw e (print-Types o (literal "d") refl (ground arith)))
  ]

  print_write-Types :
      (read_only : ℕ)
      → Types
          (Exactly (if read_only == 0 then codes "w" else codes "-"))
          (print o (if read_only == 0 then literal "w" else literal "-"))
  unfolding text_of has_nul
  print_write-Types read_only = elim (Bool-cases (read_only == 0)) [
    | inl e ↦ (rw e (print-Types o (literal "w") refl (ground arith)))
    | inr e ↦ (rw e (print-Types o (literal "-") refl (ground arith)))
  ]

  print_rights-Types :
      (n read_only : ℕ) → Types (Exactly (rights_text n read_only)) (print_rights o n read_only)
  unfolding print_rights rights_text text_of has_nul
  print_rights-Types zero read_only = λ u running. (u, [], refl, refl, Printed-refl u running)
  print_rights-Types (suc n) read_only =
      print-Types o (literal "r") refl (ground arith)
      then_exactly print_write-Types read_only
      then_exactly print-Types o (literal "x") refl (ground arith)
      then_exactly print_rights-Types n read_only

  print_month-Types : (m : ℕ) → Types (Exactly (text_of (month_name m))) (print o (month_name m))
  print_month-Types m =
      let (ended, plain) = month_name_plain m in print-Types o (month_name m) ended plain

  -- A program with its block and the buffers of `itoa` and `ultoa`, and an entry whose size has four
  -- bytes, whose day, hour and minute are below 128, and whose names are terminated and have no %.
  -- ls prints its line, and nothing else of the kernel changes.
  pub print_list_entry-Types :
      (e : List ℕ) → IsListable e → Types (EntryLine e) (print_list_entry o e)
  unfolding print_list_entry text_of has_nul
  print_list_entry-Types e h =
      print_flag-Types (byte_at e 13)
      then_type print_rights-Types 3 (byte_at e 14)
      then_type print-Types o (literal " root root ") refl (ground arith)
      then_type print_ultoa-Types o (long_at e 16) h.size
      then_type print-Types o (literal " ") refl (ground arith)
      then_type print_month-Types (byte_at e 21)
      then_type print-Types o (literal " ") refl (ground arith)
      then_type print_byte-Types o (byte_at e 20) h.day
      then_type print-Types o (literal " ") refl (ground arith)
      then_type print_byte-Types o (byte_at e 26) h.hours
      then_type print-Types o (literal ":") refl (ground arith)
      then_type print_byte-Types o (byte_at e 25) h.minutes
      then_type print-Types o (literal " ") refl (ground arith)
      then_type print-Types o e h.name h.plain_name
      then_type print-Types o (literal ".") refl (ground arith)
      then_type print-Types o (drop 9 e) h.ext h.plain_ext
      then_type print-Types o (line []) refl (ground arith)

-- The lines of `n` entries that follow each other, and the sum of their sizes onto `total`.
abbrev pub EntryLines : ℕ → List ℕ → List ℕ → Type 0
EntryLines zero e = Exactly []
EntryLines (suc n) e = EntryLine e followed_by EntryLines n (drop 28 e)

abbrev pub AreListable : ℕ → List ℕ → Type 0
AreListable zero e = Unit
AreListable (suc n) e = IsListable e × AreListable n (drop 28 e)

unfoldable pub total_size : ℕ → List ℕ → ℕ → ℕ
total_size zero e total = total
total_size (suc n) e total = total_size n (drop 28 e) (u32 (total + long_at e 16))

total_size-Fits : (n : ℕ) (e : List ℕ) (total : ℕ) → total < 2 ^ 32 → total_size n e total < 2 ^ 32
unfolding total_size
total_size-Fits zero e total h = h
total_size-Fits (suc n) e total h =
    total_size-Fits n (drop 28 e) (u32 (total + long_at e 16)) (omega arith)

module _ (o : Os) where
  -- A program with its block and the buffers of `itoa` and `ultoa`, and `n` entries behind each
  -- other that ls can print: sizes of four bytes, days, hours and minutes below 128, terminated
  -- names without %. The loop of ls in format 0 prints one line for each entry, in their
  -- order, and returns the sum of their sizes onto `total`, modulo 2 ^ 32; of the kernel only the
  -- screen has changed, by those lines.
  pub print_entries_lem :
      (n : ℕ) (e : List ℕ) (total : ℕ) (u : User)
      → IsRunning u
      → AreListable n e
      → (u' : User) × (s : List ℕ) × (print_entries o n 0 e total u ≡ ok (total_size n e total, u'))
        × EntryLines n e s
        × Printed s u u'
  unfolding print_entries total_size
  print_entries_lem zero e total u running h = (u, [], refl, refl, Printed-refl u running)
  print_entries_lem (suc n) e total u running h =
      let (u1, s1, run1, written1, printed1) = print_list_entry-Types o e h.0 u running in
      let (u2, s2, run2, written2, printed2) =
        print_entries_lem n (drop 28 e) (u32 (total + long_at e 16)) u1 printed1.running h.1 in
      (
        u2,
        s1 ++ s2,
        (rw run1 run2),
        (s1, s2, refl, written1, written2),
        Printed-trans s1 s2 u u1 u2 printed1 printed2,
      )

  -- ls in format 0, once it has the listing: the lines, and the total.
  pub ls_lem :
      (buf buf' : List ℕ) (files : ℕ) (u u1 : User)
      → user_list_root_files o buf u ≡ ok (files, buf', u1)
      → IsRunning u1
      → AreListable files buf'
      → (u' : User) × (s : List ℕ) × (ls o 0 buf u ≡ ok u')
        × (EntryLines files buf'
              followed_by Exactly (codes "total ")
              followed_by Decimal (total_size files buf' 0)
              followed_by Exactly (13 ∷ 10 ∷ []))
            s
        × Printed s u1 u'
  unfolding ls text_of has_nul
  ls_lem buf buf' files u u1 listing running h =
      let (u2, s1, run1, written1, printed1) = print_entries_lem files buf' 0 u1 running h in
      let (u', s2, run2, written2, printed2) =
        (print-Types o (literal "total ") refl (ground arith)
            then_type print_ultoa-Types o (total_size files buf' 0)
                (total_size-Fits files buf' 0 (omega arith))
            then_type print-Types o (line []) refl (ground arith))
          u2 printed1.running in
      (
        u',
        s1 ++ s2,
        (rw (listing, run1) run2),
        (s1, s2, refl, written1, written2),
        Printed-trans s1 s2 u1 u2 u' printed1 printed2,
      )
