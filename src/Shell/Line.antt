-- ===== src/Shell/Line.antt =====
-- The command that the line editor of utils/shell.c reads, against the keys that were pressed.
use mathlib.Core.List.{append_assoc}
use rml.Base.{
  ℕ, suc, ◌+◌, ◌-◌, ◌<◌, true, false, List, [], ◌∷◌, ◌++◌, length, length-append, drop, set,
  set-append, All, ◌==◌, ltb-true, Outcome, ok, ◌≡◌, ◌≢◌, refl, subst, ap, ◌∙◌, arith, Bool-cases,
  inl, inr,
}
use rml.Clib.Text.Scan.{text_of, has_nul}
use rml.Shell.{Editor, press, edit, read_line}
use rml.Shell.Keys.{
  erased, line_of, peak, enters, behind_enter, peak_from, erased_rest, length-erased, no_nul_kept,
  line_fits, ended,
}

-- What the editor leaves for a line, some bytes behind it, and the keys left.
abbrev Leaves : Outcome (Editor × List ℕ) → List ℕ → ℕ → List ℕ → Type 0
Leaves r t size keys =
    (rest : List ℕ) × (screen : List ℕ) × (r
      ≡ ok (record { i = length t; buf = t ++ rest; screen = screen }, keys))
    × (length (t ++ rest) ≡ size)

-- What one key leaves for a line.
abbrev Typed : Outcome Editor → List ℕ → ℕ → Type 0
Typed o t size =
    (rest : List ℕ) × (screen : List ℕ) × (o
      ≡ ok (record { i = length t; buf = t ++ rest; screen = screen }))
    × (length (t ++ rest) ≡ size)

char_typed :
    (c x : ℕ) (t r screen : List ℕ)
    → (c == 8) ≡ false
    → length t < length (t ++ x ∷ r)
    → press c (record { i = length t; buf = t ++ x ∷ r; screen = screen })
      ≡ ok
          (record { i = length (t ++ c ∷ []); buf = (t ++ c ∷ []) ++ r; screen = screen ++ c ∷ [] })
unfolding press
char_typed c x t r screen h g = rw (
  h,
  ltb-true (length t) (length (t ++ x ∷ r)) g,
  set-append t x c r,
  length-append t (c ∷ []),
  append_assoc t (c ∷ []) r,
)

press_char :
    (c : ℕ) (t r screen : List ℕ)
    → (c == 8) ≡ false
    → length t < length (t ++ r)
    → Typed
        (press c (record { i = length t; buf = t ++ r; screen = screen }))
        (t ++ c ∷ [])
        (length (t ++ r))
press_char c t [] screen h g = absurd (omega (arith, length-append t []))
press_char c t (x ∷ r) screen h g = (
  r,
  screen ++ c ∷ [],
  char_typed c x t r screen h g,
  omega (arith, length-append (t ++ c ∷ []) r, length-append t (c ∷ []), length-append t (x ∷ r)),
)

press_back :
    (c : ℕ) (t r screen : List ℕ)
    → (c == 8) ≡ true
    → Typed
        (press c (record { i = length t; buf = t ++ r; screen = screen }))
        (erased t)
        (length (t ++ r))
unfolding press
press_back c [] r screen h = (r, screen, rw h, refl)
press_back c (x ∷ t) r screen h = (
  drop (length (x ∷ t) - 1) (x ∷ t) ++ r,
  screen ++ 8 ∷ 32 ∷ 8 ∷ [],
  (let some_left : (suc (length t) == 0) ≡ false = ground arith in
      rw (h, some_left, erased_rest (x ∷ t) r, length-erased (x ∷ t))),
  ap length (erased_rest (x ∷ t) r),
)

-- A key that is not Enter, and then the others.
edit_step :
    (c : ℕ) (keys : List ℕ) (s : Editor) (t line line' after after' : List ℕ) (size : ℕ)
    → (c == 13) ≡ false
    → line ≡ line'
    → after ≡ after'
    → Typed (press c s) t size
    → ((rest screen : List ℕ)
        → length (t ++ rest) ≡ size
        → Leaves
            (edit keys (record { i = length t; buf = t ++ rest; screen = screen }))
            line'
            size
            after')
    → Leaves (edit (c ∷ keys) s) line size after
unfolding edit
edit_step c keys s t line line' after after' size other same_line same_after (r, scr, run, fits)
      go =
    let (rest, scr', run', fits') = go r scr fits in
    rw (same_line, same_after) (rest, scr', rw (other, run) run', fits')

edit_lem :
    (keys t r screen : List ℕ) (size : ℕ)
    → enters keys ≡ true
    → length (t ++ r) ≡ size
    → peak (length t) keys < size
    → Leaves
        (edit keys (record { i = length t; buf = t ++ r; screen = screen }))
        (line_of t keys)
        size
        (behind_enter keys)
unfolding edit line_of peak enters behind_enter
edit_lem [] t r screen size e f h = ground arith
edit_lem (c ∷ keys) t r screen size e f h = elim (Bool-cases (c == 13)) [
  | inl enter ↦ (r, screen, rw enter, rw enter f)
  | inr other ↦ elim (Bool-cases (c == 8)) [
    | inl back ↦
        edit_step c keys _ (erased t) (line_of t (c ∷ keys)) (line_of (erased t) keys)
          (behind_enter (c ∷ keys)) (behind_enter keys) size other (rw (other, back)) (rw other)
          (subst
            (λ n.
              Typed (press c (record { i = length t; buf = t ++ r; screen = screen })) (erased t) n)
            f (press_back c t r screen back))
          (λ r' scr fits.
            edit_lem keys (erased t) r' scr size (ground arith) fits
              (ground (arith, ap (λ i. peak i keys) (length-erased t))))
    | inr char ↦
        edit_step c keys _ (t ++ c ∷ []) (line_of t (c ∷ keys)) (line_of (t ++ c ∷ []) keys)
          (behind_enter (c ∷ keys)) (behind_enter keys) size other (rw (other, char)) (rw other)
          (subst
            (λ n.
              Typed (press c (record { i = length t; buf = t ++ r; screen = screen })) (t ++ c ∷ [])
                n)
            f (press_char c t r screen char (ground (arith, peak_from (length t + 1) keys))))
          (λ r' scr fits.
            edit_lem keys (t ++ c ∷ []) r' scr size (ground arith) fits
              (ground (arith, ap (λ i. peak i keys) (length-append t (c ∷ [])))))
  ]
]

-- The keys have an Enter and no NUL, and the line never becomes as long as the buffer. `read_line`
-- ends: the buffer is terminated and holds the line that the keys make, backspaces carried out,
-- and the keys behind Enter are left. Nothing is stored outside the buffer.
pub read_line_lem :
    (keys buf screen : List ℕ)
    → enters keys ≡ true
    → All (λ c. c ≢ 0) keys
    → peak 0 keys < length buf
    → (buf' : List ℕ) × (screen' : List ℕ) × (read_line keys buf screen
        ≡ ok (buf', screen', behind_enter keys))
      × (text_of buf' ≡ line_of [] keys)
      × (has_nul buf' ≡ true)
      × (length buf' ≡ length buf)
unfolding read_line
read_line_lem keys buf screen e z h =
    let (rest, scr, run, size) =
      edit_lem keys [] buf (screen ++ 13 ∷ 10 ∷ b'#' ∷ 32 ∷ []) (length buf) e refl h in
    let line = line_of [] keys in
    let room : length line < length (line ++ rest) = omega (arith, line_fits [] keys, size) in
    let (text, nul, same) = ended line rest (no_nul_kept keys [] tt z) room in
    (
      set (line ++ rest) (length line) 0,
      scr ++ 13 ∷ 10 ∷ [],
      rw (run, ltb-true (length line) (length (line ++ rest)) room),
      text,
      nul,
      same ∙ size,
    )
