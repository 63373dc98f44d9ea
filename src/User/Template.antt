-- ===== src/User/Template.antt =====
-- `printf` of lib/stdio.c: a template with its arguments against the text that it stands for.
use mathlib.Core.List.{append-nil}
use rml.Base.{
  ℕ, ◌+◌, ℤ, true, false, List, [], ◌∷◌, ◌++◌, All, ◌==◌, ok, ◌≡◌, ◌≢◌, refl, sym, ap, arith,
}
use rml.Clib.Text.Scan.{text_of, has_nul}
use rml.User.{User, Os}
use rml.User.Laws.{shown}
use rml.User.Stdio.{Arg, string, int, next_string, next_int, vfprintf_from, vfprintf, printf}
use rml.User.Printf.{
  IsDecimal, InRange, IsRunning, Printed, Printed-trans, putchar_lem, put_string_lem, put_int_lem,
}

-- A character of the template that is printed, a %s with its string, or a %d with its int.
pub data Item : Type 0 where
  plain : ℕ → Item
  a_string : List ℕ → Item
  a_number : ℤ → Item

unfoldable pub template_of : List Item → List ℕ
template_of [] = []
template_of (plain c ∷ items) = c ∷ template_of items
template_of (a_string s ∷ items) = b'%' ∷ b's' ∷ template_of items
template_of (a_number n ∷ items) = b'%' ∷ b'd' ∷ template_of items

unfoldable pub args_of : List Item → List Arg
args_of [] = []
args_of (plain c ∷ items) = args_of items
args_of (a_string s ∷ items) = string s ∷ args_of items
args_of (a_number n ∷ items) = int n ∷ args_of items

-- A character is neither NUL nor %, a string is terminated, an int is one that `itoa` has room for.
abbrev pub IsItem : Item → Type 0
IsItem (plain c) = (c ≢ 0) × (c ≢ b'%')
IsItem (a_string s) = has_nul s ≡ true
IsItem (a_number n) = InRange n

abbrev pub Stands : Item → List ℕ → Type 0
Stands (plain c) s = s ≡ c ∷ []
Stands (a_string t) s = s ≡ text_of t
Stands (a_number n) s = IsDecimal n s

-- What the items stand for, one behind the other.
abbrev pub StandFor : List Item → List ℕ → Type 0
StandFor [] out = out ≡ []
StandFor (item ∷ items) out =
    (s : List ℕ) × (rest : List ℕ) × (out ≡ s ++ rest) × Stands item s × StandFor items rest

module _ (o : Os) where
  vfprintf_lem :
      (i : ℕ) (items : List Item) (behind : List ℕ) (u : User)
      → IsRunning u
      → All IsItem items
      → (n : ℕ) × (u' : User) × (out : List ℕ) × (vfprintf_from o i false
            (template_of items ++ 0 ∷ behind)
            (args_of items)
            u
          ≡ ok (n, u'))
        × StandFor items out
        × Printed out u u'
  unfolding vfprintf_from template_of args_of next_string next_int
  vfprintf_lem i [] behind u running h = (
    i,
    u,
    [],
    refl,
    refl,
    record {
      kernel =
          ap (λ l. record u.kernel { console = record u.kernel.console { screen = l } })
            (sym (append-nil u.kernel.console.screen));
      running = running;
    },
  )
  vfprintf_lem i (plain c ∷ items) behind u running h =
      let (u1, run1, printed1) = putchar_lem o c u running in
      let (n, u2, out, run2, stand, printed2) =
        vfprintf_lem (i + 1) items behind u1 printed1.running h.1 in
      let not_nul : (c == 0) ≡ false = ground (arith, h.0.0) in
      let not_percent : (c == b'%') ≡ false = ground (arith, h.0.1) in
      (
        n,
        u2,
        c ∷ out,
        (rw (not_nul, not_percent, run1) run2),
        (c ∷ [], out, refl, refl, stand),
        Printed-trans (c ∷ []) out u u1 u2 printed1 printed2,
      )
  vfprintf_lem i (a_string s ∷ items) behind u running h =
      let (u1, run1, printed1) = put_string_lem o s u running h.0 in
      let (n, u2, out, run2, stand, printed2) =
        vfprintf_lem (i + 1 + 1) items behind u1 printed1.running h.1 in
      (
        n,
        u2,
        text_of s ++ out,
        (rw run1 run2),
        (text_of s, out, refl, refl, stand),
        Printed-trans (text_of s) out u u1 u2 printed1 printed2,
      )
  vfprintf_lem i (a_number z ∷ items) behind u running h =
      let (u1, s, run1, decimal, printed1) = put_int_lem o z u running h.0 in
      let (n, u2, out, run2, stand, printed2) =
        vfprintf_lem (i + 1 + 1) items behind u1 printed1.running h.1 in
      (
        n,
        u2,
        s ++ out,
        (rw run1 run2),
        (s, out, refl, decimal, stand),
        Printed-trans s out u u1 u2 printed1 printed2,
      )

  -- For a program with its block of 576 bytes and the 7 and 12 bytes of `itoa` and `ultoa`, and a terminated template
  -- of characters, %s and %d, with terminated strings and ints that `itoa` has room for as its
  -- arguments, `printf` returns, and the screen has more text: each character, each string and the
  -- decimal text of each int, in order. Nothing else of the kernel changes.
  pub printf_lem :
      (items : List Item) (behind : List ℕ) (u : User)
      → IsRunning u
      → All IsItem items
      → (n : ℕ) × (u' : User) × (out : List ℕ) × (printf o
            (template_of items ++ 0 ∷ behind)
            (args_of items)
            u
          ≡ ok (n, u'))
        × StandFor items out
        × (u'.kernel ≡ shown out u.kernel)
        × IsRunning u'
  unfolding printf vfprintf
  printf_lem items behind u running h =
      let (n, u', out, run, stand, printed) = vfprintf_lem 0 items behind u running h in
      (n, u', out, run, stand, printed.kernel, printed.running)
