-- ===== src/Clib/Letters/Laws.antt =====
-- Letters and strings in upper and lower case (lib/ctype.c, lib/utils.c).
use rml.Base.{
  ℕ, zero, suc, ◌+◌, ◌<◌, true, false, List, [], ◌∷◌, ◌++◌, map, drop, length, ok, ◌≡◌, ◌≢◌, refl,
  arith, ◌∙◌, ◌==◌, Bool-cases, inl, inr, length-append, get_elem?-append, set-append,
}
use mathlib.Core.List.{append_assoc}
use rml.Clib.Text.{strlen}
use rml.Clib.Text.Scan.{text_of, has_nul, strlen_lem}
use rml.Clib.Letters.{tolower, toupper, convert, convert_at, stolower, stoupper}

-- `toupper` after `toupper`, and after `tolower`, is `toupper`; and the other way round.
pub case_collapse :
    (c : ℕ)
    → (toupper (toupper c) ≡ toupper c)
      × (toupper (tolower c) ≡ toupper c)
      × (tolower (toupper c) ≡ tolower c)
      × (tolower (tolower c) ≡ tolower c)
unfolding toupper tolower
case_collapse c = ground arith

-- What stands behind the text, from its NUL on.
abbrev pub tail_of : List ℕ → List ℕ
tail_of s = drop (length (text_of s)) s

-- A string as done so far, and the rest of the loop's work on it.
module _ (f : ℕ → ℕ) (keeps : (c : ℕ) → c ≢ 0 → f c ≢ 0) where
  text_of-append :
      (p s : List ℕ)
      → has_nul p ≡ false
      → (text_of (p ++ s) ≡ p ++ text_of s) × (has_nul (p ++ s) ≡ has_nul s)
  unfolding text_of has_nul
  text_of-append [] s h = (refl, refl)
  text_of-append (c ∷ p) s h = ground (arith, text_of-append p s)

  snoc_no_nul : (p : List ℕ) (c : ℕ) → has_nul p ≡ false → c ≢ 0 → has_nul (p ++ c ∷ []) ≡ false
  unfolding has_nul
  snoc_no_nul [] c h g = ground arith
  snoc_no_nul (d ∷ p) c h g = ground (arith, snoc_no_nul p c)

  strlen_behind :
      (p s : List ℕ)
      → has_nul p ≡ false
      → has_nul s ≡ true
      → strlen (p ++ s) ≡ ok (length p + length (text_of s))
  strlen_behind p s hp hs =
      let split = text_of-append p s hp in
      rw (strlen_lem (p ++ s) (split.1 ∙ hs), split.0, length-append p (text_of s))

  -- The loop behind a prefix `p` that is done.
  convert_from :
      (fuel : ℕ) (p s : List ℕ)
      → has_nul p ≡ false
      → has_nul s ≡ true
      → length (text_of s) < fuel
      → convert f fuel (length p) (p ++ s) ≡ ok (p ++ (map f (text_of s) ++ tail_of s))
  unfolding convert convert_at text_of has_nul
  convert_from zero p s hp hs h = absurd (omega arith)
  convert_from (suc fuel) p [] hp hs h = ground arith
  convert_from (suc fuel) p (c ∷ s) hp hs h = elim (Bool-cases (c == 0)) [
    | inl e ↦ ground (arith, strlen_behind p (c ∷ s) hp hs)
    | inr e ↦
        let ih =
          convert_from fuel (p ++ f c ∷ []) s (snoc_no_nul p (f c) hp (keeps c (ground arith)))
            (ground arith) (ground arith) in
        let ih' =
          rw
            (
              append_assoc p (f c ∷ []) s,
              append_assoc p (f c ∷ []) (map f (text_of s) ++ tail_of s),
              length-append p (f c ∷ []),
            )
            at ih in
        ground (
          arith,
          ih',
          strlen_behind p (c ∷ s) hp hs,
          get_elem?-append p c s,
          set-append p c (f c) s,
        )
  ]

pub toupper_keeps : (c : ℕ) → c ≢ 0 → toupper c ≢ 0
unfolding toupper
toupper_keeps c h = ground arith

tolower_keeps : (c : ℕ) → c ≢ 0 → tolower c ≢ 0
unfolding tolower
tolower_keeps c h = ground arith

-- On a terminated string `stoupper` and `stolower` end, once the fuel passes the length of the
-- text; they map the letters of the text and leave the NUL and what stands behind it.
pub stoupper-stolower_lem :
    (fuel : ℕ) (s : List ℕ)
    → has_nul s ≡ true
    → length (text_of s) < fuel
    → (stoupper fuel s ≡ ok (map toupper (text_of s) ++ tail_of s))
      × (stolower fuel s ≡ ok (map tolower (text_of s) ++ tail_of s))
unfolding stoupper stolower
stoupper-stolower_lem fuel s t h = (
  convert_from toupper toupper_keeps fuel [] s (unfold has_nul in refl) t h,
  convert_from tolower tolower_keeps fuel [] s (unfold has_nul in refl) t h,
)
