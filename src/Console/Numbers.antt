-- ===== src/Console/Numbers.antt =====
-- Printing numbers: `print_uint`, and lines that are made of such calls.
use mathlib.Core.List.{append-nil, append_assoc}
use rml.Base.{
  ℕ, ◌+◌, ◌-◌, ◌<◌, ◌^◌, true, List, [], ◌∷◌, ◌++◌, drop, length, drop-append, drop-drop, Outcome,
  ok, ◌>>=◌, ◌≡◌, refl, arith, ap, ◌∙◌, sym,
}
use rml.Clib.Text.Scan.{text_of, has_nul}
use rml.Clib.Number.{uitoa}
use rml.Clib.Number.Digits.{Written, put_digits_lem}
use rml.Clib.Number.RoundTrip.{IsNumeral, Written-IsNumeral}
use rml.Console.{Console, printk, print_uint}
use rml.Console.Laws.{printk_lem}

-- The static buffer of `uitoa` has its seven bytes, the last one 0.
pub record IsReady (con : Console) : Type 0 where
  pub size : length con.digits ≡ 7
  pub last : drop 6 con.digits ≡ 0 ∷ []

-- The screen after some more text, with the buffer ready for the next number.
pub record Extends (con con' : Console) : Type 0 where
  pub text : List ℕ
  pub screen : con'.screen ≡ con.screen ++ text
  pub ready : IsReady con'

Written-last :
    (i : ℕ) (buf : List ℕ) (q : ℕ) (out : List ℕ) → Written 6 i buf q out → drop 6 out ≡ drop 6 buf
Written-last i buf q out w =
    let split : q + (6 - q) ≡ 6 = omega (arith, w.count) in
    let rest : length w.digits ≡ 6 - q = omega (arith, w.count) in
    ap (λ k. drop k out) (sym split)
    ∙ sym (drop-drop (6 - q) q out)
    ∙ ap (λ t. drop (6 - q) t) w.place
    ∙ drop-append (6 - q) w.digits (drop 6 buf) rest

-- `printk(uitoa(i))` below a million adds the decimal text of `i` to the screen, and leaves the
-- buffer ready for the next number.
pub print_uint_lem :
    (i : ℕ) (con : Console)
    → i < 10 ^ 6
    → IsReady con
    → (s : List ℕ) × (con' : Console) × (print_uint i con ≡ ok con')
      × IsNumeral i s
      × (con'.screen ≡ con.screen ++ text_of s)
      × IsReady con'
unfolding print_uint uitoa
print_uint_lem i con h r =
    let (q, out, run, w) = put_digits_lem 6 i con.digits h (omega arith) (omega (arith, r.size)) in
    let numeral = Written-IsNumeral 6 i con.digits q out [] w r.last in
    let printed = printk_lem (drop q out) (record con { digits = out }) numeral.ended in
    (
      drop q out,
      record { screen = con.screen ++ text_of (drop q out); digits = out },
      rw run printed,
      numeral,
      refl,
      record { size = w.size ∙ r.size; last = Written-last i con.digits q out w ∙ r.last },
    )

pub Extends-refl : (con : Console) → IsReady con → Extends con con
Extends-refl con r = record { text = []; screen = sym (append-nil con.screen); ready = r }

pub Extends-trans : (a b c : Console) → Extends a b → Extends b c → Extends a c
Extends-trans a b c p q = record {
  text = p.text ++ q.text;
  screen = q.screen ∙ ap (λ s. s ++ q.text) p.screen ∙ append_assoc a.screen p.text q.text;
  ready = q.ready;
}

-- What a piece of printing code does, from a console that is ready: it ends and extends the screen.
abbrev pub Says : (Console → Outcome Console) → Type 0
Says f = (con : Console) → IsReady con → (con' : Console) × (f con ≡ ok con') × Extends con con'

pub printk-Says : (s : List ℕ) → has_nul s ≡ true → Says (printk s)
printk-Says s h con r = (
  record con { screen = con.screen ++ text_of s },
  printk_lem s con h,
  record { text = text_of s; screen = refl; ready = record { size = r.size; last = r.last } },
)

pub print_uint-Says : (i : ℕ) → i < 10 ^ 6 → Says (print_uint i)
print_uint-Says i h con r =
    let (s, con', run, numeral, screen, ready) = print_uint_lem i con h r in
    (con', run, record { text = text_of s; screen = screen; ready = ready })

infixr 6 ◌then_say◌
pub ◌then_say◌ : {f g : Console → Outcome Console} → Says f → Says g → Says (λ con. f con >>= g)
◌then_say◌ {f} {g} p q con r =
    let (c1, run1, e1) = p con r in
    let (c2, run2, e2) = q c1 e1.ready in
    (c2, ap (λ o. o >>= g) run1 ∙ run2, Extends-trans con c1 c2 e1 e2)
