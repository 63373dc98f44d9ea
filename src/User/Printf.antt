-- ===== src/User/Printf.antt =====
-- What `printf` of lib/stdio.c shows for a template and its arguments.
use mathlib.Core.List.{append-nil, append_assoc}
use rml.Base.{
  ℕ, zero, suc, ◌+◌, ◌/◌, ◌%◌, ◌^◌, ◌≤◌, ◌<◌, ℤ, pos, negsuc, true, List, [], ◌∷◌, ◌++◌, take, drop,
  set, length, length-append, length-set, length-drop, take-append_self, replicate, ◌==◌,
  Bool-cases, inl, inr, ok, ◌≡◌, refl, sym, ap, ◌∙◌, arith,
}
use rml.Base.Post.{Post, returns, stops, result_of, weaken, Post-if, Post-bind}
use rml.Clib.Text.{strlen}
use rml.Clib.Text.Scan.{text_of, has_nul, strlen_lem}
use rml.Clib.Text.Copy.{strcpy_lem, text_of-append_nul}
use rml.Clib.Number.{put_digits, put_sign, itoa}
use rml.Clib.Number.RoundTrip.{IsNumeral, itoa-Prints, itoa_negative}
use rml.User.{User, Os, mywrite}
use rml.User.Laws.{shown, mywrite_lem}
use rml.User.Stdio.{putchar, put_string, put_int}

-- The decimal text of an int, and the ints that `itoa` has room for.
abbrev pub IsDecimal : ℤ → List ℕ → Type 0
IsDecimal (pos n) t = (s : List ℕ) × IsNumeral n s × (t ≡ text_of s)
IsDecimal (negsuc n) t = (s : List ℕ) × IsNumeral (n + 1) s × (t ≡ b'-' ∷ text_of s)

abbrev pub InRange : ℤ → Type 0
InRange (pos n) = n < 10 ^ 6
InRange (negsuc n) = n + 1 < 10 ^ 5

pub put_digits-Size :
    (p i : ℕ) (buf : List ℕ) → Post (λ r. length r.1 ≡ length buf) (put_digits p i buf)
unfolding put_digits
put_digits-Size zero i buf = stops
put_digits-Size (suc p) i buf =
    let written = set buf p (b'0' + i % 10) in
    let same = length-set buf p (b'0' + i % 10) in
    Post-if (i / 10 == 0) (returns same)
      (weaken (put_digits-Size p (i / 10) written) (λ r h. h ∙ same))

put_sign-Size : (p : ℕ) (buf : List ℕ) → Post (λ r. length r.1 ≡ length buf) (put_sign p buf)
unfolding put_sign
put_sign-Size zero buf = stops
put_sign-Size (suc p) buf = returns (length-set buf p b'-')

pub itoa-Size : (i : ℤ) (buf : List ℕ) → Post (λ r. length r.1 ≡ length buf) (itoa i buf)
unfolding itoa
itoa-Size (pos n) buf = weaken (put_digits-Size 6 n (set buf 6 0)) (λ r h. h ∙ length-set buf 6 0)
itoa-Size (negsuc n) buf =
    Post-bind (put_digits 6 (n + 1) (set buf 6 0)) (put_digits-Size 6 (n + 1) (set buf 6 0))
      λ r h. weaken (put_sign-Size r.0 r.1) (λ q g. g ∙ h ∙ length-set buf 6 0)

itoa_text :
    (i : ℤ) (buf : List ℕ)
    → InRange i
    → length buf ≡ 7
    → (q : ℕ) × (out : List ℕ) × (itoa i buf ≡ ok (q, out))
      × (has_nul (drop q out) ≡ true)
      × IsDecimal i (text_of (drop q out))
      × (length out ≡ 7)
unfolding text_of has_nul
itoa_text (pos n) buf h size =
    let (q, out, run, numeral) = itoa-Prints n buf h size in
    (
      q,
      out,
      run,
      numeral.ended,
      (drop q out, numeral, refl),
      result_of (itoa-Size (pos n) buf) run ∙ size,
    )
itoa_text (negsuc n) buf h size =
    let (q, out, rest, run, at_q, numeral) = itoa_negative n buf h size in
    (
      q,
      out,
      run,
      rw at_q numeral.ended,
      (rest, numeral, ap text_of at_q),
      result_of (itoa-Size (negsuc n) buf) run ∙ size,
    )

text_shorter : (s : List ℕ) → has_nul s ≡ true → length (text_of s) < length s
unfolding text_of has_nul
text_shorter [] h = cc
text_shorter (c ∷ s) h = ground (arith, text_shorter s)

has_nul-append_nul : (s r : List ℕ) → has_nul (s ++ 0 ∷ r) ≡ true
unfolding has_nul
has_nul-append_nul [] r = refl
has_nul-append_nul (c ∷ s) r = ground (arith, has_nul-append_nul s r)

-- A program with its block and the buffers of `itoa` and `ultoa`.
pub record IsRunning (u : User) : Type 0 where
  pub block : length u.sysparam ≡ 576
  pub digits : length u.itoa_buf ≡ 7
  pub long_digits : length u.ultoa_buf ≡ 12

-- The program goes on, and the screen has more text; nothing else of the kernel has changed.
pub record Printed (s : List ℕ) (u u' : User) : Type 0 where
  pub kernel : u'.kernel ≡ shown s u.kernel
  pub running : IsRunning u'

pub Printed-trans :
    (s t : List ℕ) (u v w : User) → Printed s u v → Printed t v w → Printed (s ++ t) u w
Printed-trans s t u v w p q = record {
  kernel =
      q.kernel
      ∙ ap (λ k. shown t k) p.kernel
      ∙ ap (λ l. record u.kernel { console = record u.kernel.console { screen = l } })
          (append_assoc u.kernel.console.screen s t);
  running = q.running;
}

module _ (o : Os) where
  write_lem :
      (count : ℕ) (buf : List ℕ) (u : User)
      → IsRunning u
      → count ≤ 512
      → count ≤ length buf
      → (u' : User) × (mywrite o 1 buf count u ≡ ok (0, u')) × Printed (take count buf) u u'
  write_lem count buf u running fits enough =
      let (block, run, size) = mywrite_lem o 1 count buf u refl fits enough running.block in
      (
        record u { kernel = shown (take count buf) u.kernel; sysparam = block },
        run,
        record {
          kernel = refl;
          running = record {
            block = size;
            digits = running.digits;
            long_digits = running.long_digits;
          };
        },
      )

  pub putchar_lem :
      (c : ℕ) (u : User)
      → IsRunning u
      → (u' : User) × (putchar o c u ≡ ok u') × Printed (c ∷ []) u u'
  unfolding putchar
  putchar_lem c u running =
      let (u', run, printed) = write_lem 1 (c ∷ []) u running (omega arith) (omega arith) in
      (u', (rw run refl), printed)

  pub put_string_lem :
      (s : List ℕ) (u : User)
      → IsRunning u
      → has_nul s ≡ true
      → (u' : User) × (put_string o s u ≡ ok u') × Printed (text_of s) u u'
  unfolding put_string text_of has_nul
  put_string_lem [] u running h = cc
  put_string_lem (c ∷ s) u running h = elim (Bool-cases (c == 0)) [
    | inl e ↦ (
      u,
      (rw e refl),
      (rw e (record {
        kernel =
            ap (λ l. record u.kernel { console = record u.kernel.console { screen = l } })
              (sym (append-nil u.kernel.console.screen));
        running = running;
      })),
    )
    | inr e ↦
        let (u1, run1, printed1) = putchar_lem c u running in
        let (u2, run2, printed2) = put_string_lem s u1 printed1.running (ground (arith, h, e)) in
        (
          u2,
          (rw (e, run1) run2),
          (rw e (Printed-trans (c ∷ []) (text_of s) u u1 u2 printed1 printed2)),
        )
  ]

  pub put_int_lem :
      (i : ℤ) (u : User)
      → IsRunning u
      → InRange i
      → (u' : User) × (s : List ℕ) × (put_int o i u ≡ ok u') × IsDecimal i s × Printed s u u'
  unfolding put_int
  put_int_lem i u running h =
      let (q, out, run, ended, decimal, size) = itoa_text i u.itoa_buf h running.digits in
      let s = text_of (drop q out) in
      let short : length s < 7 =
        omega (arith, text_shorter (drop q out) ended, length-drop q out, size) in
      let strnum = s ++ 0 ∷ drop (suc (length s)) (replicate 7 0) in
      let copied = strcpy_lem (replicate 7 0) (drop q out) ended (omega (arith, short)) in
      let text : text_of strnum ≡ s =
        text_of-append_nul (drop q out) (drop (suc (length s)) (replicate 7 0)) in
      let counted : strlen strnum ≡ ok (length s) =
        strlen_lem strnum (has_nul-append_nul s (drop (suc (length s)) (replicate 7 0)))
        ∙ ap (λ t. ok (length t)) text in
      let u1 = record u { itoa_buf = out } in
      let (u2, wrote, printed) =
        write_lem (length s) strnum u1
          (record { block = running.block; digits = size; long_digits = running.long_digits })
          (omega (arith, short))
          (omega (arith, length-append s (0 ∷ drop (suc (length s)) (replicate 7 0)))) in
      let whole : take (length s) strnum ≡ s = take-append_self (length s) s _ refl in
      (
        u2,
        s,
        (rw (run, copied, counted, wrote) refl),
        decimal,
        record {
          kernel = printed.kernel ∙ ap (λ l. shown l u.kernel) whole;
          running = printed.running;
        },
      )
