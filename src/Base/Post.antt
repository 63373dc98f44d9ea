-- ===== src/Base/Post.antt =====
-- What a piece of code leaves whenever it ends, and the rules that put such claims together.
use mathlib.Core.Path.{◌≡◌, subst}
use mathlib.Core.Bool.{Bool, true, false}
use mathlib.Core.Option.{Option, none, some}
use rml.Base.Tests.{if◌then◌else◌}
use rml.Base.Result.{Outcome, ok, stop, Stop, ◌>>=◌, option_elim}

abbrev Ended : {A : Type 0} → (A → Type 0) → Outcome A → Type 0
Ended P (ok a) = P a
Ended P (stop e) = Unit

-- If it ends with a value, the value has the property.
pub record Post {A : Type 0} (P : A → Type 0) (o : Outcome A) : Type 0 where
  pub ended : Ended P o

module _ {A : Type 0} {P : A → Type 0} where
  pub returns : {a : A} → P a → Post P (ok a)
  returns p = record { ended = p }

  pub stops : {e : Stop} → Post P (stop e)
  stops = record { ended = tt }

  pub Post-if : (b : Bool) {o r : Outcome A} → Post P o → Post P r → Post P (if b then o else r)
  Post-if true p q = p
  Post-if false p q = q

  pub Post-option_elim :
      {B : Type 0} (x : Option B) {o : Outcome A} {f : B → Outcome A}
      → Post P o
      → ((b : B) → Post P (f b))
      → Post P (option_elim x o f)
  Post-option_elim none p h = p
  Post-option_elim (some b) p h = h b

  -- What the property says of a result.
  pub result_of : {o : Outcome A} {a : A} → Post P o → o ≡ ok a → P a
  result_of p e = subst (λ o. Ended P o) e p.ended

  pub weaken : {Q : A → Type 0} {o : Outcome A} → Post P o → ((a : A) → P a → Q a) → Post Q o
  weaken {Q} {o} p h = weaken_ended o p.ended h
    where
      weaken_ended : (o : Outcome A) → Ended P o → ((a : A) → P a → Q a) → Post Q o
      weaken_ended (ok a) p h = record { ended = h a p }
      weaken_ended (stop e) p h = record { ended = tt }

module _ {A B : Type 0} {Q : B → Type 0} where
  pub Post-then : (o : Outcome A) {f : A → Outcome B} → ((a : A) → Post Q (f a)) → Post Q (o >>= f)
  Post-then (ok a) h = h a
  Post-then (stop e) h = stops

  pub Post-bind :
      {P : A → Type 0} (o : Outcome A) {f : A → Outcome B}
      → Post P o
      → ((a : A) → P a → Post Q (f a))
      → Post Q (o >>= f)
  Post-bind (ok a) p h = h a p.ended
  Post-bind (stop e) p h = stops
