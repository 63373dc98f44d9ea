-- ===== src/Base/Result.antt =====
-- What a piece of C code does: it ends with a value, or it stops.
use Prim.Native.Nat.{ℕ, zero, suc, ◌≤◌, ◌<◌}
use mathlib.Core.Path.{◌≡◌, refl, ap}
use mathlib.Core.List.{List, [], ◌∷◌, ◌++◌}
use mathlib.Core.Option
use mathlib.Core.Option.{Option, none, some}
use native.Mathlib.Omega.{arith}
use rml.Base.Lists.{length, get_elem?}
use rml.Base.Tests.{◌==◌, if◌then◌else◌}

-- `bounds`: an access outside its array, which C leaves undefined. `div_zero`: the divide error of
-- the processor. `blocked`: waiting for a key that never comes. `rebooted`: the BIOS starts the
-- machine again. `no_fuel`: the fuel of the model
-- ran out, as it does at every fuel where the loop does not end.
pub data Stop : Type 0 where
  bounds div_zero blocked rebooted no_fuel : Stop

pub data Outcome {ℓ} (A : Type ℓ) : Type ℓ where
  ok : A → Outcome A
  stop : Stop → Outcome A

infixl 5 ◌>>=◌
abbrev pub ◌>>=◌ {ℓ κ} : {A : Type ℓ} {B : Type κ} → Outcome A → (A → Outcome B) → Outcome B
ok a >>= f = f a
stop e >>= f = stop e

-- Going on with a result that may be missing.
abbrev pub option_elim {ℓ κ} : {A : Type ℓ} {B : Type κ} → Option A → B → (A → B) → B
option_elim none b f = b
option_elim (some a) b f = f a

-- Reading an element of an array, and changing one in place.
unfoldable pub fetch {ℓ} : {A : Type ℓ} → List A → ℕ → Outcome A
fetch [] i = stop bounds
fetch (x ∷ xs) zero = ok x
fetch (x ∷ xs) (suc i) = fetch xs i

unfoldable pub modify {ℓ} : {A : Type ℓ} → List A → ℕ → (A → A) → Outcome (List A)
modify [] i f = stop bounds
modify (x ∷ xs) zero f = ok (f x ∷ xs)
modify (x ∷ xs) (suc i) f = do rest ← modify xs i f; ok (x ∷ rest)

-- A list with the element at one place replaced, as a function for statements.
unfoldable pub update_at {ℓ} : {A : Type ℓ} → List A → ℕ → (A → A) → List A
update_at [] i f = []
update_at (x ∷ xs) zero f = f x ∷ xs
update_at (x ∷ xs) (suc i) f = x ∷ update_at xs i f

module _ {ℓ} {A : Type ℓ} where
  pub modify_lem :
      (xs : List A) (i : ℕ) (f : A → A) → i < length xs → modify xs i f ≡ ok (update_at xs i f)
  unfolding modify update_at
  modify_lem [] i f h = absurd (omega arith)
  modify_lem (x ∷ xs) zero f h = refl
  modify_lem (x ∷ xs) (suc i) f h = rw (modify_lem xs i f (omega arith))

  pub modify_bounds :
      (xs : List A) (i : ℕ) (f : A → A) → length xs ≤ i → modify xs i f ≡ stop bounds
  unfolding modify
  modify_bounds [] i f h = refl
  modify_bounds (x ∷ xs) zero f h = absurd (omega arith)
  modify_bounds (x ∷ xs) (suc i) f h = rw (modify_bounds xs i f (omega arith))

  pub fetch_lem : (xs : List A) (i : ℕ) (x : A) → get_elem? xs i ≡ some x → fetch xs i ≡ ok x
  unfolding fetch
  fetch_lem [] i x h = cc
  fetch_lem (y ∷ xs) zero x h = cc
  fetch_lem (y ∷ xs) (suc i) x h = fetch_lem xs i x h

  pub update_at-update_at :
      (xs : List A) (i : ℕ) (f g : A → A)
      → update_at (update_at xs i f) i g ≡ update_at xs i (λ x. g (f x))
  unfolding update_at
  update_at-update_at [] i f g = refl
  update_at-update_at (x ∷ xs) zero f g = refl
  update_at-update_at (x ∷ xs) (suc i) f g = ap (λ t. x ∷ t) (update_at-update_at xs i f g)

  pub get_elem?-update_at :
      (xs : List A) (i j : ℕ) (f : A → A)
      → get_elem? (update_at xs i f) j
        ≡ (if i == j then Option.map f (get_elem? xs j) else get_elem? xs j)
  unfolding update_at
  get_elem?-update_at [] i j f = ground arith
  get_elem?-update_at (x ∷ xs) zero zero f = refl
  get_elem?-update_at (x ∷ xs) zero (suc j) f = ground arith
  get_elem?-update_at (x ∷ xs) (suc i) zero f = ground arith
  get_elem?-update_at (x ∷ xs) (suc i) (suc j) f = ground (arith, get_elem?-update_at xs i j f)

  pub length-update_at : (xs : List A) (i : ℕ) (f : A → A) → length (update_at xs i f) ≡ length xs
  unfolding update_at
  length-update_at [] i f = refl
  length-update_at (x ∷ xs) zero f = refl
  length-update_at (x ∷ xs) (suc i) f = ap suc (length-update_at xs i f)

pub bind_assoc :
    {A B C : Type 0} (r : Outcome A) (f : A → Outcome B) (g : B → Outcome C)
    → (r >>= f >>= g) ≡ (r >>= λ x. f x >>= g)
bind_assoc (ok x) f g = refl
bind_assoc (stop s) f g = refl

-- Changing the element behind a prefix.
pub modify-append {ℓ} :
    {A : Type ℓ} (p : List A) (x : A) (s : List A) (f : A → A)
    → modify (p ++ x ∷ s) (length p) f ≡ ok (p ++ f x ∷ s)
unfolding modify
modify-append [] x s f = refl
modify-append (y ∷ p) x s f = rw (modify-append p x s f)

pub fetch-append {ℓ} :
    {A : Type ℓ} (p : List A) (x : A) (s : List A) → fetch (p ++ x ∷ s) (length p) ≡ ok x
unfolding fetch
fetch-append [] x s = refl
fetch-append (y ∷ p) x s = fetch-append p x s
