-- ===== src/User/Lines.antt =====
-- What the user programs print with `print`, `itoa` and `ultoa`, as a grammar.
pub mod Entry
pub mod Listed
pub mod Directory
use mathlib.Core.List.{append-nil}
use rml.Base.{
  ℕ, zero, suc, ◌+◌, ◌*◌, ◌^◌, u32, ◌<◌, ◌≤◌, set, length-set, true, ℤ, pos, negsuc, List, [], ◌∷◌,
  ◌++◌, All, drop, length, codes, literal, ltb, ltb-true, ◌==◌, Bool, Bool-cases, inl, inr,
  if◌then◌else◌, Outcome, ok, ◌>>=◌, ◌≡◌, ◌≢◌, refl, sym, ap, ap₂, ◌∙◌, subst, arith,
}
use rml.Base.Post.{Post, result_of, weaken}
use rml.Clib.Number.{itoa, ultoa}
use rml.Clib.Number.Digits.{IsDigit}
use rml.Clib.Number.RoundTrip.{IsNumeral, ultoa-Prints, itoa-Prints}
use rml.Clib.Text.Scan.{text_of, has_nul}
use rml.Console.{line}
use rml.Console.Lines.{Exactly, Decimal, Space, ◌followed_by◌}
use rml.Fs.Layout.{byte_at, long_at}
use rml.User.{User, Os}
use rml.User.Laws.{shown}
use rml.User.Printf.{IsRunning, Printed, Printed-trans, put_digits-Size, itoa-Size}
use rml.User.Missing.{IsPlain, print_lem}
use rml.User.Round.{split_at_nul}
use rml.User.Utils.{
  char_int, month_name, print, print_itoa, print_ultoa, print_rights, print_list_entry,
  print_entries, user_list_root_files, ls,
}

-- From a program that is running the code ends, and the screen has a text of the form behind it;
-- nothing else of the kernel has changed.
abbrev pub Types : (List ℕ → Type 0) → (User → Outcome User) → Type 0
Types P f =
    (u : User) → IsRunning u → (u' : User) × (s : List ℕ) × (f u ≡ ok u') × P s × Printed s u u'

module _ {P Q : List ℕ → Type 0} {f g : User → Outcome User} where
  infixr 6 ◌then_type◌
  pub ◌then_type◌ : Types P f → Types Q g → Types (P followed_by Q) (λ u. f u >>= g)
  ◌then_type◌ p q u running =
      let (u1, s1, run1, a, printed1) = p u running in
      let (u2, s2, run2, b, printed2) = q u1 printed1.running in
      (
        u2,
        s1 ++ s2,
        ap (λ o. o >>= g) run1 ∙ run2,
        (s1, s2, refl, a, b),
        Printed-trans s1 s2 u u1 u2 printed1 printed2,
      )

module _ {s t : List ℕ} {f g : User → Outcome User} where
  infixr 6 ◌then_exactly◌
  pub ◌then_exactly◌ :
      Types (Exactly s) f → Types (Exactly t) g → Types (Exactly (s ++ t)) (λ u. f u >>= g)
  ◌then_exactly◌ p q u running =
      let (u', text, run, (s1, s2, whole, a, b), printed) = (p then_type q) u running in
      (u', text, run, whole ∙ ap₂ (λ x y. x ++ y) a b, printed)

pub Printed-refl : (u : User) → IsRunning u → Printed [] u u
Printed-refl u running = record {
  kernel =
      ap (λ l. record u.kernel { console = record u.kernel.console { screen = l } })
        (sym (append-nil u.kernel.console.screen));
  running = running;
}

digits-IsPlain : (s : List ℕ) → All IsDigit s → IsPlain s
digits-IsPlain [] h = tt
digits-IsPlain (c ∷ s) h = (ground (arith, h.0), digits-IsPlain s h.1)

ultoa-Size : (i : ℕ) (buf : List ℕ) → Post (λ r. length r.1 ≡ length buf) (ultoa i buf)
unfolding ultoa
ultoa-Size i buf = weaken (put_digits-Size 11 i (set buf 11 0)) (λ r h. h ∙ length-set buf 11 0)

char_int_small : (b : ℕ) → b < 128 → char_int b ≡ pos b
char_int_small b h = ground arith

module _ (o : Os) where
  -- A terminated string without % is printed up to its NUL.
  pub print-Types :
      (s : List ℕ)
      → has_nul s ≡ true
      → IsPlain (text_of s)
      → Types (Exactly (text_of s)) (print o s)
  print-Types s ended plain u running =
      let (u', run, kernel, running') =
        print_lem o (text_of s) (drop (suc (length (text_of s))) s) u running plain in
      (
        u',
        text_of s,
        ap (λ t. print o t u) (split_at_nul s ended) ∙ run,
        refl,
        record { kernel = kernel; running = running' },
      )

  pub print_ultoa-Types : (n : ℕ) → n < 2 ^ 32 → Types (Decimal n) (print_ultoa o n)
  unfolding print_ultoa
  print_ultoa-Types n h u running =
      let (q, out, run, numeral) = ultoa-Prints n u.ultoa_buf h running.long_digits in
      let size : length out ≡ 12 = result_of (ultoa-Size n u.ultoa_buf) run ∙ running.long_digits in
      let text = drop q out in
      let u1 = record u { ultoa_buf = out } in
      let running1 : IsRunning u1 = record {
        block = running.block;
        digits = running.digits;
        long_digits = size;
      } in
      let (u2, s, run2, same, printed) =
        print-Types text numeral.ended (digits-IsPlain (text_of text) numeral.all_digits) u1
          running1 in
      (
        u2,
        s,
        (rw run run2),
        (text, numeral, same),
        record { kernel = printed.kernel; running = printed.running },
      )

  print_itoa-Types : (n : ℕ) → n < 10 ^ 6 → Types (Decimal n) (print_itoa o (pos n))
  unfolding print_itoa
  print_itoa-Types n h u running =
      let (q, out, run, numeral) = itoa-Prints n u.itoa_buf h running.digits in
      let size : length out ≡ 7 = result_of (itoa-Size (pos n) u.itoa_buf) run ∙ running.digits in
      let text = drop q out in
      let u1 = record u { itoa_buf = out } in
      let running1 : IsRunning u1 = record {
        block = running.block;
        digits = size;
        long_digits = running.long_digits;
      } in
      let (u2, s, run2, same, printed) =
        print-Types text numeral.ended (digits-IsPlain (text_of text) numeral.all_digits) u1
          running1 in
      (
        u2,
        s,
        (rw run run2),
        (text, numeral, same),
        record { kernel = printed.kernel; running = printed.running },
      )

  -- A byte below 128, as ls prints it.
  pub print_byte-Types : (b : ℕ) → b < 128 → Types (Decimal b) (print_itoa o (char_int b))
  print_byte-Types b h =
      subst (λ i. Types (Decimal b) (print_itoa o i)) (sym (char_int_small b h))
        (print_itoa-Types b (omega arith))
