-- ===== src/Prelude/Returns.antt =====
-- What an action returns: a predicate holds of the value, whatever the store, where it returns one.
use mathlib.Core.Path.{◌≡◌, refl, ap, subst}
use mathlib.Core.Logic.{inl, inr}
use mathlib.Core.Bool.{Bool, true, false}
use native.Mathlib.Omega.{arith}
use agentschat.Prelude.Tests.{if◌then◌else◌}
use agentschat.Prelude.Action.{
  Action, Result, ok, err, pure, throw, gets, throw_if, in_transaction, Result-cases, ◌>>=◌, ◌>>◌,
}

pub record Returns {S E A : Type 0} (Q : A → Type 0) (m : Action S E A) : Type 0 where
  pub at : (s : S) (a : A) → (m s).0 ≡ ok a → Q a

-- The other result.
abbrev value_or : {E A : Type 0} → Result E A → A → A
value_or (ok a) b = a
value_or (err e) b = b

module _ {S E A : Type 0} (Q : A → Type 0) where
  pub Returns-pure : (a : A) → Q a → Returns Q (pure {S = S} {E = E} a)
  Returns-pure a q = record { at = λ s b h. subst Q (ap (λ r. value_or r a) h) q }

  pub Returns-throw : (e : E) → Returns {S = S} Q (throw e)
  Returns-throw e = record { at = λ s b h. absurd cc }

  pub Returns-branch :
      (b : Bool) (m n : Action S E A)
      → (b ≡ true → Returns Q m)
      → (b ≡ false → Returns Q n)
      → Returns Q (if b then m else n)
  Returns-branch true m n h i = h refl
  Returns-branch false m n h i = i refl

  pub Returns-throw_if :
      (b : Bool) (e : E) (k : Action S E A)
      → (b ≡ false → Returns Q k)
      → Returns Q (throw_if b e >> k)
  Returns-throw_if true e k h = record { at = λ s a i. absurd cc }
  Returns-throw_if false e k h = record { at = (h refl).at }

  pub Returns-then :
      (m : Action S E (Unit {0})) (k : Action S E A) → Returns Q k → Returns Q (m >> k)
  Returns-then m k h = record {
    at = λ s a e. elim (Result-cases (m s).0) [
      | inl (u, f) ↦ h.at (m s).1 a (ground arith)
      | inr (x, f) ↦ absurd (ground arith)
    ];
  }

  pub Returns-in_transaction : (m : Action S E A) → Returns Q m → Returns Q (in_transaction m)
  unfolding in_transaction
  Returns-in_transaction m h = record {
    at = λ s a e. elim (Result-cases (m s).0) [
      | inl (b, f) ↦ h.at s a (ground arith)
      | inr (x, f) ↦ absurd (ground arith)
    ];
  }

module _ {S E A B : Type 0} (Q : A → Type 0) where
  pub Returns-gets :
      (f : S → B) (k : B → Action S E A)
      → ((s : S) → Returns Q (k (f s)))
      → Returns Q (gets f >>= k)
  Returns-gets f k h = record { at = λ s. (h s).at s }

  -- What the first action returns is known of the second's argument.
  pub Returns-bind :
      (R : B → Type 0) (m : Action S E B) (k : B → Action S E A)
      → Returns R m
      → ((b : B) → R b → Returns Q (k b))
      → Returns Q (m >>= k)
  Returns-bind R m k hm hk = record {
    at = λ s a e. elim (Result-cases (m s).0) [
      | inl (b, f) ↦ (hk b (hm.at s b f)).at (m s).1 a (ground arith)
      | inr (x, f) ↦ absurd (ground arith)
    ];
  }

  pub Returns-bind_any :
      (m : Action S E B) (k : B → Action S E A) → ((b : B) → Returns Q (k b)) → Returns Q (m >>= k)
  Returns-bind_any m k h =
      Returns-bind (λ b. Unit {0}) m k (record { at = λ s a e. tt }) (λ b u. h b)
