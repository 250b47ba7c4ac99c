-- ===== src/Prelude/Action.antt =====
-- A service method: it reads and writes a store and may throw. What was written before a throw
-- stays written, unless the method runs inside a transaction.
use mathlib.Core.Path.{◌≡◌, refl}
use mathlib.Core.Logic.{◌⊎◌, inl, inr}
use mathlib.Core.Bool.{Bool, true, false}
use mathlib.Core.Option.{Option, none, some}

pub data Result {κ} (E : Type κ) (A : Type κ) : Type κ where
  ok : A → Result E A
  err : E → Result E A

abbrev pub is_ok {κ} : {E A : Type κ} → Result E A → Bool
is_ok (ok a) = true
is_ok (err e) = false

pub ok_value {κ} : {E A : Type κ} (r : Result E A) → is_ok r ≡ true → (a : A) × (r ≡ ok a)
ok_value (ok a) h = (a, refl)
ok_value (err e) h = cc

pub Result-cases {κ} :
    {E A : Type κ} (r : Result E A) → ((a : A) × (r ≡ ok a)) ⊎ ((e : E) × (r ≡ err e))
Result-cases (ok a) = inl (a, refl)
Result-cases (err e) = inr (e, refl)

abbrev pub Action : Type 0 → Type 0 → Type 0 → Type 0
Action S E A = S → Result E A × S

module _ {S E A : Type 0} where
  abbrev pub pure : A → Action S E A
  pure a s = (ok a, s)

  abbrev pub throw : E → Action S E A
  throw e s = (err e, s)

  abbrev pub gets : (S → A) → Action S E A
  gets f s = (ok (f s), s)

  abbrev pub or_throw : Option A → E → Action S E A
  or_throw none e s = (err e, s)
  or_throw (some a) e s = (ok a, s)

  -- A computation that may throw and does not touch the store.
  abbrev pub or_refuse : Result E A → Action S E A
  or_refuse r s = (r, s)

  abbrev roll_back : S → Result E A × S → Result E A × S
  roll_back s (ok a, s') = (ok a, s')
  roll_back s (err e, s') = (err e, s)

  -- The store is as before when the work throws.
  unfoldable pub in_transaction : Action S E A → Action S E A
  in_transaction m s = roll_back s (m s)

module _ {S E : Type 0} where
  abbrev pub modify : (S → S) → Action S E (Unit {0})
  modify f s = (ok tt, f s)

  abbrev pub throw_if : Bool → E → Action S E (Unit {0})
  throw_if true e s = (err e, s)
  throw_if false e s = (ok tt, s)

module _ {S E A B : Type 0} where
  abbrev pub continue : Result E A × S → (A → Action S E B) → Result E B × S
  continue (ok a, s) f = f a s
  continue (err e, s) f = (err e, s)

  infixl 5 ◌>>=◌
  abbrev pub ◌>>=◌ : Action S E A → (A → Action S E B) → Action S E B
  ◌>>=◌ m f s = continue (m s) f

module _ {S E B : Type 0} where
  infixl 5 ◌>>◌
  abbrev pub ◌>>◌ : Action S E (Unit {0}) → Action S E B → Action S E B
  ◌>>◌ m k s = continue (m s) (λ _. k)
