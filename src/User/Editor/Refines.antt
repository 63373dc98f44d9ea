-- ===== src/User/Editor/Refines.antt =====
-- The shell's input loop, made of system calls, against the line editor of Shell.
use mathlib.Core.Option
use rml.Base.{
  ℕ, zero, suc, ◌<◌, false, List, [], ◌∷◌, ◌++◌, length, ltb, ◌==◌, get_elem?, subst,
  get_elem?-update_at, Outcome, ok, stop, ◌>>=◌, ◌≡◌, refl, sym, ap, ◌∙◌, arith, Bool-cases, inl,
  inr,
}
use rml.Kernel.{Kernel, advanced}
use rml.Kernel.Io.{IsDevice}
use rml.Shell.{Editor, press, edit}
use rml.User.{User, Os}
use rml.User.Printf.{IsRunning, Printed, Printed-trans, putchar_lem}
use rml.User.Editor.{Input, press_key, input_loop}
use rml.User.Editor.Keyboard.{key_taken, getchar_lem, getchar_blocked}

-- A program that has its block and its buffers and whose kernel has the keyboard.
pub record Listens (u : User) : Type 0 where
  pub running : IsRunning u
  pub keyboard : IsDevice 0 u.kernel

-- The program goes on with this screen and these keys; of the kernel's other state only descriptor 0
-- may have changed.
pub record Typing (screen keys : List ℕ) (u u' : User) : Type 0 where
  pub kernel : u'.kernel ≡ record u.kernel {
    fd_list = u'.kernel.fd_list;
    keys = keys;
    console = record u.kernel.console { screen = screen };
  }
  pub others : (i : ℕ) → get_elem? u'.kernel.fd_list (suc i) ≡ get_elem? u.kernel.fd_list (suc i)
  pub listens : Listens u'

pub Typing-trans :
    (screen keys screen' keys' : List ℕ) (u v w : User)
    → Typing screen keys u v
    → Typing screen' keys' v w
    → Typing screen' keys' u w
Typing-trans screen keys screen' keys' u v w p q = record {
  kernel =
      q.kernel
      ∙ ap {A = Kernel}
          (λ k. record k {
            fd_list = w.kernel.fd_list;
            keys = keys';
            console = record k.console { screen = screen' };
          })
          p.kernel;
  others = λ i. q.others i ∙ p.others i;
  listens = q.listens;
}

-- Text on the screen, as a step of the editor.
pub Typing-Printed :
    (s : List ℕ) (u u' : User)
    → Listens u
    → Printed s u u'
    → Typing (u.kernel.console.screen ++ s) u.kernel.keys u u'
Typing-Printed s u u' listens p =
    let table : u'.kernel.fd_list ≡ u.kernel.fd_list = ap {A = Kernel} (λ k. k.fd_list) p.kernel in
    let (d, found, own) = listens.keyboard in
    record {
      kernel =
          p.kernel
          ∙ ap
              (λ t. record u.kernel {
                fd_list = t;
                console = record u.kernel.console { screen = u.kernel.console.screen ++ s };
              })
              (sym table);
      others = λ i. ap (λ t. get_elem? t (suc i)) table;
      listens = record {
        running = p.running;
        keyboard = (d, ap (λ t. get_elem? t 0) table ∙ found, own);
      };
    }

IsDevice-advanced : (k : Kernel) (keys : List ℕ) → IsDevice 0 k → IsDevice 0 (key_taken keys k)
IsDevice-advanced k keys (d, found, own) = (
  advanced 0 d,
  get_elem?-update_at k.fd_list 0 0 (advanced 0) ∙ ap (λ o. Option.map (advanced 0) o) found,
  own,
)

-- The program is where an editor is, on the way from `u`.
abbrev Agrees : User → Editor → List ℕ → Outcome Input → Type 0
Agrees u s keys r = (u' : User) × (r ≡ ok (s.i, s.buf, u')) × Typing s.screen keys u u'

-- It ends as the editor ends.
abbrev pub Follows : User → Outcome (Editor × List ℕ) → Outcome Input → Type 0
Follows u (ok (s, keys)) r = (u' : User) × (r ≡ ok (s.i, s.buf, u')) × Typing s.screen keys u u'
Follows u (stop e) r = r ≡ stop e

abbrev Pressed : User → List ℕ → Outcome Editor → Outcome Input → Type 0
Pressed u keys (ok s) r = (u' : User) × (r ≡ ok (s.i, s.buf, u')) × Typing s.screen keys u u'
Pressed u keys (stop e) r = r ≡ stop e

-- What the editor is at the program's side.
abbrev pub editor_at : ℕ → List ℕ → User → Editor
editor_at i buf u = record { i = i; buf = buf; screen = u.kernel.console.screen }

-- What follows from a later state follows from an earlier one.
pub Follows-trans :
    (screen keys : List ℕ) (u v : User) (e : Outcome (Editor × List ℕ)) (r : Outcome Input)
    → Typing screen keys u v
    → Follows v e r
    → Follows u e r
Follows-trans screen keys u v (ok (s, keys')) r p (w, run, q) =
    (w, run, Typing-trans screen keys s.screen keys' u v w p q)
Follows-trans screen keys u v (stop e) r p f = f

pub screen_of :
    (screen keys : List ℕ) (u u' : User)
    → Typing screen keys u u'
    → u'.kernel.console.screen ≡ screen
screen_of screen keys u u' p = ap {A = Kernel} (λ k. k.console.screen) p.kernel

pub keys_of : (screen keys : List ℕ) (u u' : User) → Typing screen keys u u' → u'.kernel.keys ≡ keys
keys_of screen keys u u' p = ap {A = Kernel} (λ k. k.keys) p.kernel

module _ (o : Os) where
  rub_out :
      (i : ℕ) (buf : List ℕ) (u : User)
      → Listens u
      → Pressed u u.kernel.keys (press 8 (editor_at i buf u)) (press_key o 8 i buf u)
  unfolding press press_key
  rub_out zero buf u listens =
      (u, refl, record { kernel = refl; others = λ i. refl; listens = listens })
  rub_out (suc i) buf u listens =
      let (u1, run1, p1) = putchar_lem o 8 u listens.running in
      let (u2, run2, p2) = putchar_lem o b' ' u1 p1.running in
      let (u3, run3, p3) = putchar_lem o 8 u2 p2.running in
      let all =
        Printed-trans (8 ∷ 32 ∷ []) (8 ∷ []) u u2 u3
          (Printed-trans (8 ∷ []) (32 ∷ []) u u1 u2 p1 p2) p3 in
      let some_left : (suc i == 0) ≡ false = ground arith in
      rw some_left
        (u3, (rw (run1, run2, run3) refl), Typing-Printed (8 ∷ 32 ∷ 8 ∷ []) u u3 listens all)

  type_char :
      (c i : ℕ) (buf : List ℕ) (u : User)
      → Listens u
      → (c == 8) ≡ false
      → Pressed u u.kernel.keys (press c (editor_at i buf u)) (press_key o c i buf u)
  unfolding press press_key
  type_char c i buf u listens char =
      let (u', run, printed) = putchar_lem o c u listens.running in
      elim (Bool-cases (ltb i (length buf))) [
        | inl room ↦ (rw (char, room, run) (u', refl, Typing-Printed (c ∷ []) u u' listens printed))
        | inr full ↦ (rw (char, full, run) refl)
      ]

  press_key_lem :
      (c i : ℕ) (buf : List ℕ) (u : User)
      → Listens u
      → Pressed u u.kernel.keys (press c (editor_at i buf u)) (press_key o c i buf u)
  press_key_lem c i buf u listens = elim (Bool-cases (c == 8)) [
    | inl back ↦
        let eight : c ≡ 8 = ground arith in
        subst (λ d. Pressed u u.kernel.keys (press d (editor_at i buf u)) (press_key o d i buf u))
          (sym eight) (rub_out i buf u listens)
    | inr char ↦ type_char c i buf u listens char
  ]

  -- The rounds behind a key.
  go_on :
      (fuel stale : ℕ) (keys : List ℕ) (u : User) (e : Outcome Editor) (r : Outcome Input)
      → Pressed u keys e r
      → ((i : ℕ) (buf : List ℕ) (u' : User)
          → Listens u'
          → u'.kernel.keys ≡ keys
          → Follows u' (edit keys (editor_at i buf u')) (input_loop o fuel stale i buf u'))
      → Follows u (e >>= λ s. edit keys s) (r >>= λ (i, buf, u'). input_loop o fuel stale i buf u')
  go_on fuel stale keys u (ok s) r (u', run, p) later =
      let next = later s.i s.buf u' p.listens (keys_of s.screen keys u u' p) in
      rw run (
        Follows-trans s.screen keys u u' (edit keys s) (input_loop o fuel stale s.i s.buf u') p (
          subst
            (λ t.
              Follows u' (edit keys (record { i = s.i; buf = s.buf; screen = t }))
                (input_loop o fuel stale s.i s.buf u'))
            (screen_of s.screen keys u u' p) next))
  go_on fuel stale keys u (stop e) r p later = rw p refl

  -- A program that listens, with one more round of fuel than there are keys to come. The loop of
  -- system calls ends as `edit` does on the same keys: with the same count and buffer, and with
  -- the same screen and keys in the kernel, of which only the table of descriptors has changed
  -- besides; or for the same reason.
  pub input_loop_lem :
      (keys : List ℕ) (fuel stale i : ℕ) (buf : List ℕ) (u : User)
      → Listens u
      → u.kernel.keys ≡ keys
      → length keys < fuel
      → Follows u (edit keys (editor_at i buf u)) (input_loop o fuel stale i buf u)
  unfolding edit input_loop
  input_loop_lem keys zero stale i buf u listens same h = absurd (omega arith)
  input_loop_lem [] (suc fuel) stale i buf u listens same h =
      rw (getchar_blocked o stale u listens.running listens.keyboard same) refl
  input_loop_lem (c ∷ keys) (suc fuel) stale i buf u listens same h =
      let (block, run, size) = getchar_lem o stale c keys u listens.running listens.keyboard same in
      let u1 = record u { kernel = key_taken keys u.kernel; sysparam = block } in
      let listens1 : Listens u1 = record {
        running = record {
          block = size;
          digits = listens.running.digits;
          long_digits = listens.running.long_digits;
        };
        keyboard = IsDevice-advanced u.kernel keys listens.keyboard;
      } in
      let taken : Typing u.kernel.console.screen keys u u1 = record {
        kernel = refl;
        others = λ i. ground (arith, get_elem?-update_at u.kernel.fd_list 0 (suc i) (advanced 0));
        listens = listens1;
      } in
      elim (Bool-cases (c == 13)) [
        | inl enter ↦ (rw (run, enter) (u1, refl, taken))
        | inr other ↦
            (rw (run, other)
              (Follows-trans u.kernel.console.screen keys u u1 _ _ taken (
                go_on fuel stale keys u1 (press c (editor_at i buf u1)) (press_key o c i buf u1)
                  (press_key_lem c i buf u1 listens1)
                  (λ i' buf' u2 l e. input_loop_lem keys fuel stale i' buf' u2 l e (omega arith)))))
      ]
