-- ===== src/User/Editor/Command.antt =====
-- The command that the shell reads through system calls.
use mathlib.Core.List.{append_assoc}
use rml.Base.{
  ℕ, suc, ◌<◌, true, List, [], ◌∷◌, ◌++◌, set, length, All, ltb, if◌then◌else◌, subst, Outcome, ok,
  stop, bounds, ◌>>=◌, ◌≡◌, ◌≢◌, refl, ap, ◌∙◌, arith, Bool-cases, inl, inr,
}
use rml.Clib.Text.Scan.{text_of, has_nul}
use rml.Console.{line}
use rml.Shell.{Editor, edit, read_line}
use rml.Shell.Keys.{line_of, peak, enters, behind_enter}
use rml.Shell.Line.{read_line_lem}
use rml.User.{User, Os}
use rml.User.Printf.{Printed}
use rml.User.Missing.{IsPlain, print_lem}
use rml.User.Utils.{print}
use rml.User.Editor.{Input, input_loop, read_command}
use rml.User.Editor.Refines.{
  Listens, Typing, Typing-trans, Typing-Printed, Follows, screen_of, keys_of, input_loop_lem,
}

-- What the program has read is what the line editor reads, or it ends for the same reason.
abbrev pub Reads : User → Outcome (List ℕ × List ℕ × List ℕ) → Outcome (List ℕ × User) → Type 0
Reads u (ok (buf, screen, keys)) r = (u' : User) × (r ≡ ok (buf, u')) × Typing screen keys u u'
Reads u (stop e) r = r ≡ stop e

Reads-trans :
    (screen keys : List ℕ) (u v : User) (e : Outcome (List ℕ × List ℕ × List ℕ))
    (r : Outcome (List ℕ × User))
    → Typing screen keys u v
    → Reads v e r
    → Reads u e r
Reads-trans screen keys u v (ok (buf, screen', keys')) r p (w, run, q) =
    (w, run, Typing-trans screen keys screen' keys' u v w p q)
Reads-trans screen keys u v (stop e) r p f = f

-- What comes behind Enter, in the line editor and in the shell.
abbrev line_ended : Editor × List ℕ → Outcome (List ℕ × List ℕ × List ℕ)
line_ended (s, keys) =
    if ltb s.i (length s.buf)
    then ok (set s.buf s.i 0, s.screen ++ 13 ∷ 10 ∷ [], keys)
    else stop bounds

abbrev command_ended : Os → Input → Outcome (List ℕ × User)
command_ended o (i, buf, u) =
    print o (line []) u >>= λ u1. if ltb i (length buf) then ok (set buf i 0, u1) else stop bounds

module _ (o : Os) where
  -- Printing a plain text is a step of the editor.
  print-Typing :
      (text behind : List ℕ) (u : User)
      → Listens u
      → IsPlain text
      → (u' : User) × (print o (text ++ 0 ∷ behind) u ≡ ok u')
        × Typing (u.kernel.console.screen ++ text) u.kernel.keys u u'
  print-Typing text behind u listens plain =
      let (u', run, kernel, running) = print_lem o text behind u listens.running plain in
      let printed : Printed text u u' = record { kernel = kernel; running = running } in
      (u', run, Typing-Printed text u u' listens printed)

  -- From Enter to the NUL.
  end_line :
      (u : User) (e : Outcome (Editor × List ℕ)) (r : Outcome Input)
      → Follows u e r
      → Reads u (e >>= line_ended) (r >>= command_ended o)
  end_line u (stop e) r same = rw same refl
  end_line u (ok (s, keys)) r (u1, run, p) =
      let (u2, run2, q) = print-Typing (13 ∷ 10 ∷ []) [] u1 p.listens (ground arith) in
      let screen = screen_of s.screen keys u u1 p in
      let left = keys_of s.screen keys u u1 p in
      let q' =
        subst (λ t. Typing (t ++ 13 ∷ 10 ∷ []) keys u1 u2) screen
          (subst (λ k. Typing (u1.kernel.console.screen ++ 13 ∷ 10 ∷ []) k u1 u2) left q) in
      let whole = Typing-trans s.screen keys (s.screen ++ 13 ∷ 10 ∷ []) keys u u1 u2 p q' in
      elim (Bool-cases (ltb s.i (length s.buf))) [
        | inl room ↦ (rw (run, room, run2) (u2, refl, whole))
        | inr full ↦ (rw (run, full, run2) refl)
      ]

  -- A program that listens reads a command: what it gets from its system calls is what `read_line`
  -- makes of the kernel's keys and screen, or both end for the same reason.
  pub read_command-read_line :
      (stale : ℕ) (buf : List ℕ) (u : User)
      → Listens u
      → Reads u (read_line u.kernel.keys buf u.kernel.console.screen) (read_command o stale buf u)
  unfolding read_line read_command
  read_command-read_line stale buf u listens =
      let keys = u.kernel.keys in
      let screen = u.kernel.console.screen in
      let (u1, run1, p1) = print-Typing (13 ∷ 10 ∷ []) [] u listens (ground arith) in
      let (u2, run2, p2) = print-Typing (b'#' ∷ 32 ∷ []) [] u1 p1.listens (ground arith) in
      let screen1 = screen_of (screen ++ 13 ∷ 10 ∷ []) keys u u1 p1 in
      let keys1 = keys_of (screen ++ 13 ∷ 10 ∷ []) keys u u1 p1 in
      let screen2 : u2.kernel.console.screen ≡ screen ++ 13 ∷ 10 ∷ b'#' ∷ 32 ∷ [] =
        screen_of _ _ u1 u2 p2
        ∙ ap (λ t. t ++ b'#' ∷ 32 ∷ []) screen1
        ∙ append_assoc screen (13 ∷ 10 ∷ []) (b'#' ∷ 32 ∷ []) in
      let keys2 : u2.kernel.keys ≡ keys = keys_of _ _ u1 u2 p2 ∙ keys1 in
      let start : Editor = record { i = 0; buf = buf; screen = u2.kernel.console.screen } in
      let loop =
        input_loop_lem o keys (suc (length keys)) stale 0 buf u2 p2.listens keys2 (omega arith) in
      let ended =
        end_line u2 (edit keys start) (input_loop o (suc (length keys)) stale 0 buf u2) loop in
      let back = Reads-trans (screen ++ 13 ∷ 10 ∷ []) keys u u1 _ _ p1 (
        Reads-trans (u1.kernel.console.screen ++ b'#' ∷ 32 ∷ []) u1.kernel.keys u1 u2 _ _ p2
          ended) in
      rw (run1, run2)
        (subst
          (λ t.
            Reads u (edit keys (record { i = 0; buf = buf; screen = t }) >>= line_ended)
              (input_loop o (suc (length keys)) stale 0 buf u2 >>= command_ended o))
          screen2 back)

  -- A program that listens, with keys that have an Enter and no NUL, and a buffer longer than the
  -- line ever becomes, reads a command by its system calls. It ends; the buffer is terminated and
  -- holds the line that the keys make, and the keys behind Enter are left. Of the kernel's other
  -- state only the screen and the table of descriptors may have changed.
  pub read_command_lem :
      (stale : ℕ) (buf : List ℕ) (u : User)
      → Listens u
      → enters u.kernel.keys ≡ true
      → All (λ c. c ≢ 0) u.kernel.keys
      → peak 0 u.kernel.keys < length buf
      → (buf' : List ℕ) × (screen' : List ℕ) × (u' : User) × (read_command o stale buf u
          ≡ ok (buf', u'))
        × (text_of buf' ≡ line_of [] u.kernel.keys)
        × (has_nul buf' ≡ true)
        × (length buf' ≡ length buf)
        × Typing screen' (behind_enter u.kernel.keys) u u'
  read_command_lem stale buf u listens enter no_nul room =
      let (buf', screen', run, text, nul, size) =
        read_line_lem u.kernel.keys buf u.kernel.console.screen enter no_nul room in
      let (u', run', typing) : Reads u (ok (buf', screen', behind_enter u.kernel.keys))
          (read_command o stale buf u) =
        subst (λ e. Reads u e (read_command o stale buf u)) run
          (read_command-read_line stale buf u listens) in
      (buf', screen', u', run', text, nul, size, typing)
