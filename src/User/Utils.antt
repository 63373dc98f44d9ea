-- ===== src/User/Utils.antt =====
-- The programs utils/ls.c, utils/ps.c, utils/demo.c and src/init/init.c, with `list_root_files` of
-- arch/8088/kernel/io.c.
use rml.Base.{
  ℕ, zero, suc, ◌+◌, ◌-◌, ◌^◌, u32, ℤ, pos, negsuc, List, [], ◌∷◌, ◌++◌, take, drop, codes, literal,
  ltb, ◌==◌, if◌then◌else◌, Outcome, ok, ◌>>=◌,
}
use rml.Clib.Text.{strcpy, memcpy}
use rml.Clib.Number.{itoa, ultoa}
use rml.Clib.Letters.{toupper}
use rml.Console.{line}
use rml.Fs.Layout.{byte_at, long_at}
use rml.User.{User, Os, syscall, myopen, user_run_program, user_get_process_list}
use rml.User.Stdio.{string, int, printf}

-- An int or a char from its bits.
abbrev pub int_of : ℕ → ℤ
int_of w = if ltb w (2 ^ 31) then pos w else negsuc (2 ^ 32 - 1 - w)

abbrev pub char_int : ℕ → ℤ
char_int c = if ltb c 128 then pos c else negsuc (255 - c)

-- `n` entries of 28 bytes, one `memcpy` each.
unfoldable pub copy_entries : ℕ → List ℕ → List ℕ → Outcome (List ℕ)
copy_entries zero src dst = ok dst
copy_entries (suc n) src dst = do
  entry ← memcpy (take 28 dst) src 28
  rest ← copy_entries n (drop 28 src) (drop 28 dst)
  ok (entry ++ rest)

-- The month in the listing of `ls`.
unfoldable pub month_name : ℕ → List ℕ
month_name m =
    if m == 1
    then literal "Jan"
    else if m == 2
    then literal "Feb"
    else if m == 3
    then literal "Mar"
    else if m == 4
    then literal "Apr"
    else if m == 5
    then literal "May"
    else if m == 6
    then literal "Jun"
    else if m == 7
    then literal "Jul"
    else if m == 8
    then literal "Aug"
    else if m == 9
    then literal "Sep"
    else if m == 10
    then literal "Oct"
    else if m == 11
    then literal "Nov"
    else if m == 12
    then literal "Dec"
    else literal "   "

module _ (o : Os) where
  -- `printf` of a string without arguments, of `itoa` and of `ultoa`.
  unfoldable pub print : List ℕ → User → Outcome User
  print s u = do (_, u1) ← printf o s [] u; ok u1

  unfoldable pub print_itoa : ℤ → User → Outcome User
  unfolding print
  print_itoa i u = do (p, buf) ← itoa i u.itoa_buf; print (drop p buf) (record u { itoa_buf = buf })

  unfoldable pub print_ultoa : ℕ → User → Outcome User
  unfolding print
  print_ultoa i u = do
    (p, buf) ← ultoa i u.ultoa_buf
    print (drop p buf) (record u { ultoa_buf = buf })

  unfoldable pub user_list_root_files : List ℕ → User → Outcome (ℕ × List ℕ × User)
  unfolding copy_entries
  user_list_root_files buf u = do
    (fd, u1) ← myopen o (literal "/") u
    (_, u2) ← printf o (line (codes "opened / with file descriptor %d")) (int (int_of fd) ∷ []) u1
    u3 ← syscall o 0x09 u2
    let files = long_at u3.sysparam 512
    buf' ← copy_entries files u3.sysparam buf
    ok (files, buf', u3)

  -- `for (j = 0; j < 3; j++) …` of `ls`, with `n` rounds left.
  unfoldable pub print_rights : ℕ → ℕ → User → Outcome User
  unfolding print
  print_rights zero read_only u = ok u
  print_rights (suc n) read_only u = do
    u1 ← print (literal "r") u
    u2 ← print (if read_only == 0 then literal "w" else literal "-") u1
    u3 ← print (literal "x") u2
    print_rights n read_only u3

  -- One line of `ls`, of the entry in memory from `e` on. The name and the extension are printed as
  -- templates, from their first byte on.
  unfoldable pub print_list_entry : List ℕ → User → Outcome User
  unfolding print print_itoa print_ultoa print_rights month_name
  print_list_entry e u = do
    u1 ← print (if byte_at e 13 == 0 then literal "-" else literal "d") u
    u2 ← print_rights 3 (byte_at e 14) u1
    u3 ← print (literal " root root ") u2
    u4 ← print_ultoa (long_at e 16) u3
    u5 ← print (literal " ") u4
    u6 ← print (month_name (byte_at e 21)) u5
    u7 ← print (literal " ") u6
    u8 ← print_itoa (char_int (byte_at e 20)) u7
    u9 ← print (literal " ") u8
    u10 ← print_itoa (char_int (byte_at e 26)) u9
    u11 ← print (literal ":") u10
    u12 ← print_itoa (char_int (byte_at e 25)) u11
    u13 ← print (literal " ") u12
    u14 ← print e u13
    u15 ← print (literal ".") u14
    u16 ← print (drop 9 e) u15
    print (line []) u16

  unfoldable pub print_wide_entry : List ℕ → User → Outcome User
  unfolding print
  print_wide_entry e u = do
    u1 ← print e u
    u2 ← print (literal ".") u1
    u3 ← print (drop 9 e) u2
    u4 ← print (literal " ") u3
    print (literal "   ") u4

  -- The loop of `ls`: 0 is `FILE_OUT_LIST`, 1 `FILE_OUT_WIDE`.
  unfoldable pub print_entries : ℕ → ℕ → List ℕ → ℕ → User → Outcome (ℕ × User)
  unfolding print_list_entry print_wide_entry
  print_entries zero out_format e total u = ok (total, u)
  print_entries (suc n) out_format e total u = do
    u1 ←
        (if out_format == 1
          then print_wide_entry e u
          else if out_format == 0
          then print_list_entry e u
          else ok u)
    print_entries n out_format (drop 28 e) (u32 (total + long_at e 16)) u1

  -- `main` of ls; `out_format` and `buf`, of 512 bytes, hold what stood there before.
  unfoldable pub ls : ℕ → List ℕ → User → Outcome User
  unfolding user_list_root_files print_entries
  ls out_format buf u = do
    (files, buf', u1) ← user_list_root_files buf u
    (total, u2) ← print_entries files out_format buf' 0 u1
    u3 ← print (literal "total ") u2
    u4 ← print_ultoa total u3
    print (line []) u4

  unfoldable pub ps : User → Outcome User
  unfolding print
  ps u = do u1 ← user_get_process_list o u; print (line []) u1

  -- `for (i = 0; i < 5; i++) string[i] = toupper(string[i]);` from `i` on with `n` rounds left.
  unfoldable pub capitals : ℕ → List ℕ → List ℕ
  capitals zero text = text
  capitals (suc n) [] = []
  capitals (suc n) (c ∷ text) = toupper c ∷ capitals n text

  -- `main` of demo; `stale` is the old content of its 13 bytes.
  unfoldable pub demo : List ℕ → User → Outcome User
  unfolding print capitals
  demo stale u = do
    (p, buf) ← ultoa 1048576 u.ultoa_buf
    (_, u1) ← printf o (line (codes "%s")) (string (drop p buf) ∷ []) (record u { ultoa_buf = buf })
    text ← strcpy stale (literal "hello world!")
    u2 ← print text u1
    print (capitals 5 text) u2

  -- `main` of init; `behind` is the memory behind its last string.
  unfoldable pub init : List ℕ → User → Outcome User
  unfolding print
  init behind u = do
    u1 ← print (line (codes "Entered to init...")) u
    u2 ← print (line (codes "call to shell...")) u1
    (_, u3) ← user_run_program o (literal "shell" ++ behind) u2
    ok u3
