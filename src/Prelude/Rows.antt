-- ===== src/Prelude/Rows.antt =====
-- Laws of the tables: what a query finds after an update or an insertion.
use Prim.Native.Nat.{ℕ}
use mathlib.Core.Path.{◌≡◌, refl}
use mathlib.Core.Logic.{inl, inr}
use mathlib.Core.Bool.{◌||◌, Bool, true, false}
use mathlib.Core.Option.{Option, none, some}
use mathlib.Core.Option
use mathlib.Core.List.{List, [], ◌∷◌}
use native.Mathlib.Omega.{arith}
use agentschat.Prelude.Tests.{Bool-cases, is_some, ◌==◌, if◌then◌else◌, or_else}
use agentschat.Prelude.Table.{find_one, find_by, exists, update, insert_row}

module _ {ℓ} {A : Type ℓ} (key : A → ℕ) (f : A → A) (keeps : (a : A) → key (f a) ≡ key a) where
  -- A row is found by its key after an update by key: changed if it is the row updated.
  pub find_one-update :
      (i k : ℕ) (xs : List A)
      → find_one (λ a. key a == i) (update (λ a. key a == k) f xs) ≡ (
          if i == k
          then Option.map f (find_one (λ a. key a == i) xs)
          else find_one (λ a. key a == i) xs)
  unfolding find_one update
  find_one-update i k [] = ground arith
  find_one-update i k (x ∷ xs) = ground (arith, keeps x, find_one-update i k xs)

module _ {ℓ} {A : Type ℓ} (p : A → Bool) where
  -- A row that was found is found after an insertion.
  pub find_one-insert_row :
      (xs : List A) (x : A)
      → find_one p (insert_row xs x)
        ≡ or_else (Option.map some (find_one p xs)) (if p x then some x else none)
  unfolding find_one insert_row
  find_one-insert_row [] x = ground arith
  find_one-insert_row (y ∷ ys) x = ground (arith, find_one-insert_row ys x)

  pub find_one-holds : (xs : List A) (x : A) → find_one p xs ≡ some x → p x ≡ true
  unfolding find_one
  find_one-holds [] x e = ground arith
  find_one-holds (y ∷ ys) x e = ground (arith, find_one-holds ys x)

module _ {ℓ} {A : Type ℓ} (p q : A → Bool) (f : A → A) (same : (a : A) → p (f a) ≡ p a) where
  -- A query that an update does not disturb finds the same row, updated where it was to be.
  pub find_one-update_kept :
      (xs : List A)
      → find_one p (update q f xs) ≡ Option.map (λ a. if q a then f a else a) (find_one p xs)
  unfolding find_one update
  find_one-update_kept [] = ground arith
  find_one-update_kept (x ∷ xs) = ground (arith, same x, find_one-update_kept xs)

module _ {ℓ} {A : Type ℓ} (p : A → Bool) where
  pub find_one-exists : (xs : List A) → exists p xs ≡ is_some (find_one p xs)
  unfolding find_one exists
  find_one-exists [] = refl
  find_one-exists (x ∷ xs) = ground (arith, find_one-exists xs)

  pub exists-insert_row : (xs : List A) (x : A) → exists p (insert_row xs x) ≡ exists p xs || p x
  unfolding exists insert_row
  exists-insert_row [] x = ground arith
  exists-insert_row (y ∷ ys) x = ground (arith, exists-insert_row ys x)

module _ {ℓ} {A : Type ℓ} (p q : A → Bool) where
  pub find_one-exists_of :
      (xs : List A) (x : A) → find_one p xs ≡ some x → q x ≡ true → exists q xs ≡ true
  unfolding find_one exists
  find_one-exists_of [] x e h = ground arith
  find_one-exists_of (y ∷ ys) x e h = ground (arith, find_one-exists_of ys x)

  -- A row that a query finds is found among those that pass a test, if it does.
  pub find_one-find_by :
      (xs : List A) (x : A)
      → find_one p xs ≡ some x
      → q x ≡ true
      → find_one p (find_by q xs) ≡ some x
  unfolding find_one find_by
  find_one-find_by [] x e h = ground arith
  find_one-find_by (y ∷ ys) x e h = ground (arith, find_one-find_by ys x)

module _ {ℓ} {A : Type ℓ} (p : A → Bool) (f : A → A) where
  -- An update after which a row no longer fits leaves none that does.
  pub exists-update_none :
      ((a : A) → p a ≡ true → p (f a) ≡ false) → (xs : List A) → exists p (update p f xs) ≡ false
  unfolding exists update
  exists-update_none h [] = refl
  exists-update_none h (x ∷ xs) = elim (Bool-cases (p x)) [
    | inl fits ↦ ground (arith, h x fits, exists-update_none h xs)
    | inr other ↦ ground (arith, exists-update_none h xs)
  ]
