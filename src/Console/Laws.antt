-- ===== src/Console/Laws.antt =====
-- What the printing functions put on the screen.
use mathlib.Core.List.{append-nil, append_assoc}
use rml.Base.{ℕ, true, List, [], ◌∷◌, ◌++◌, length, ◌==◌, ok, ◌≡◌, Bool-cases, inl, inr}
use rml.Clib.Text.Scan.{text_of, has_nul, strlen_lem}
use rml.Console.{Console, put_chars, write, printk}

put_chars_text :
    (s : List ℕ) (con : Console)
    → put_chars s (length (text_of s)) con ≡ ok (record con { screen = con.screen ++ text_of s })
unfolding put_chars text_of
put_chars_text [] con = rw append-nil
put_chars_text (c ∷ s) con = elim (Bool-cases (c == 0)) [
  | inl e ↦ rw (e, append-nil)
  | inr e ↦ rw (
    e,
    put_chars_text s (record con { screen = con.screen ++ c ∷ [] }),
    append_assoc con.screen (c ∷ []) (text_of s),
  )
]

-- `printk` of a terminated string appends its text to the screen.
pub printk_lem :
    (s : List ℕ) (con : Console)
    → has_nul s ≡ true
    → printk s con ≡ ok (record con { screen = con.screen ++ text_of s })
unfolding printk write
printk_lem s con h = rw (strlen_lem s h, put_chars_text s con)
