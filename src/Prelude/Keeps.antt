-- ===== src/Prelude/Keeps.antt =====
-- What actions keep: a relation between the store before and after, reflexive and transitive, holds
-- of an action whether it returns or throws.
use mathlib.Core.Path.{◌≡◌, refl, sym, subst, ◌∙◌}
use mathlib.Core.Logic.{inl, inr}
use mathlib.Core.Bool.{Bool, true, false}
use native.Mathlib.Omega.{arith}
use mathlib.Core.Option.{Option, none, some}
use agentschat.Prelude.Tests.{if◌then◌else◌}
use agentschat.Prelude.Action.{
  Action, Result, ok, err, pure, throw, gets, or_throw, or_refuse, throw_if, in_transaction,
  Result-cases, ◌>>=◌, ◌>>◌,
}

pub record Preorder (S : Type 0) : Type 1 where
  pub Le : S → S → Type 0
  pub le_refl : (s : S) → Le s s
  pub le_trans : (s t u : S) → Le s t → Le t u → Le s u

pub record Keeps {S E A : Type 0} (P : Preorder S) (m : Action S E A) : Type 0 where
  pub at : (s : S) → P.Le s (m s).1

-- A part of the store that does not change.
abbrev pub unchanged : {S T : Type 0} → (S → T) → Preorder S
unchanged g = record { Le = λ s t. g t ≡ g s; le_refl = λ s. refl; le_trans = λ s t u p q. q ∙ p }

module _ {S E A : Type 0} (P : Preorder S) where
  -- What an action does not change keeps everything.
  pub Keeps-same : (m : Action S E A) → ((s : S) → (m s).1 ≡ s) → Keeps P m
  Keeps-same m h = record { at = λ s. subst (λ t. P.Le s t) (sym (h s)) (P.le_refl s) }

  -- A transaction keeps what it keeps when it returns.
  pub Keeps-in_transaction :
      (m : Action S E A)
      → ((s : S) (a : A) → (m s).0 ≡ ok a → P.Le s (m s).1)
      → Keeps P (in_transaction m)
  unfolding in_transaction
  Keeps-in_transaction m h = record {
    at = λ s. elim (Result-cases (m s).0) [
      | inl (a, e) ↦ ground (arith, h s a e)
      | inr (x, e) ↦ ground (arith, P.le_refl s)
    ];
  }

module _ {S E A B : Type 0} (P : Preorder S) where
  pub Keeps-bind :
      (m : Action S E A) (f : A → Action S E B)
      → Keeps P m
      → ((a : A) → Keeps P (f a))
      → Keeps P (m >>= f)
  Keeps-bind m f km kf = record {
    at = λ s. elim (Result-cases (m s).0) [
      | inl (a, e) ↦
          ground (arith, P.le_trans s (m s).1 (f a (m s).1).1 (km.at s) ((kf a).at (m s).1))
      | inr (x, e) ↦ ground (arith, km.at s)
    ];
  }

module _ {S E B : Type 0} (P : Preorder S) where
  -- The rest runs only where the guard did not throw.
  pub Keeps-throw_if :
      (b : Bool) (e : E) (k : Action S E B) → (b ≡ false → Keeps P k) → Keeps P (throw_if b e >> k)
  Keeps-throw_if true e k h = record { at = λ s. P.le_refl s }
  Keeps-throw_if false e k h = record { at = (h refl).at }

  pub Keeps-then :
      (m : Action S E (Unit {0})) (k : Action S E B) → Keeps P m → Keeps P k → Keeps P (m >> k)
  Keeps-then m k km kk = record {
    at = λ s. elim (Result-cases (m s).0) [
      | inl (a, e) ↦ ground (arith, P.le_trans s (m s).1 (k (m s).1).1 (km.at s) (kk.at (m s).1))
      | inr (x, e) ↦ ground (arith, km.at s)
    ];
  }

module _ {S E A : Type 0} (P : Preorder S) where
  either :
      (b : Bool) (s : S) (x y : Result E A × S)
      → P.Le s x.1
      → P.Le s y.1
      → P.Le s (if b then x else y).1
  either true s x y h i = h
  either false s x y h i = i

  -- A test of the store decides.
  pub Keeps-if :
      (t : S → Bool) (m n : Action S E A)
      → Keeps P m
      → Keeps P n
      → Keeps P (λ s. if t s then m s else n s)
  Keeps-if t m n h i = record { at = λ s. either (t s) s (m s) (n s) (h.at s) (i.at s) }

  pub Keeps-branch :
      (b : Bool) (m n : Action S E A) → Keeps P m → Keeps P n → Keeps P (if b then m else n)
  Keeps-branch true m n h i = h
  Keeps-branch false m n h i = i

  -- The same, where the branches may use the outcome of the test.
  pub Keeps-branch_on :
      (b : Bool) (m n : Action S E A)
      → (b ≡ true → Keeps P m)
      → (b ≡ false → Keeps P n)
      → Keeps P (if b then m else n)
  Keeps-branch_on true m n h i = h refl
  Keeps-branch_on false m n h i = i refl

  pub Keeps-throw : (e : E) → Keeps P (throw {A = A} e)
  Keeps-throw e = record { at = λ s. P.le_refl s }

  pub Keeps-or_refuse :
      {B : Type 0} (r : Result E B) (k : B → Action S E A)
      → ((b : B) → Keeps P (k b))
      → Keeps P (or_refuse r >>= k)
  Keeps-or_refuse (ok b) k h = record { at = λ s. (h b).at s }
  Keeps-or_refuse (err e) k h = record { at = λ s. P.le_refl s }

  -- Reading the store changes nothing.
  pub Keeps-gets :
      {B : Type 0} (f : S → B) (k : B → Action S E A)
      → ((b : B) → Keeps P (k b))
      → Keeps P (gets f >>= k)
  Keeps-gets f k h = record { at = λ s. (h (f s)).at s }

  pub Keeps-or_throw :
      {B : Type 0} (o : Option B) (e : E) (k : B → Action S E A)
      → ((b : B) → o ≡ some b → Keeps P (k b))
      → Keeps P (or_throw o e >>= k)
  Keeps-or_throw none e k h = record { at = λ s. P.le_refl s }
  Keeps-or_throw (some b) e k h = record { at = (h b refl).at }

  pub Keeps-pure : (a : A) → Keeps P (pure {E = E} a)
  Keeps-pure a = record { at = λ s. P.le_refl s }

  pub Keeps-or_throw_last : (o : Option A) (e : E) → Keeps P (or_throw o e)
  Keeps-or_throw_last none e = record { at = P.le_refl }
  Keeps-or_throw_last (some a) e = record { at = P.le_refl }

  pub Keeps-transaction : (m : Action S E A) → Keeps P m → Keeps P (in_transaction m)
  Keeps-transaction m h = Keeps-in_transaction P m (λ s a e. h.at s)

-- How an action keeps what its parts keep; for `search`.
pub ruleset keeping = (
  Keeps-or_throw_last, Keeps-transaction, Keeps-branch, Keeps-gets, Keeps-or_throw, Keeps-pure,
  Keeps-throw_if, Keeps-throw, Keeps-or_refuse, Keeps-bind, Keeps-then,
)
