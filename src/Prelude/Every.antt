-- ===== src/Prelude/Every.antt =====
-- Tables in which every row passes a test.
use Prim.Native.Nat.{ℕ}
use mathlib.Core.Path.{◌≡◌, refl}
use mathlib.Core.Logic.{inl, inr}
use mathlib.Core.Bool.{Bool, true, ◌&&◌}
use mathlib.Core.Option.{some}
use mathlib.Core.List.{List, [], ◌∷◌}
use native.Mathlib.Omega.{arith}
use agentschat.Prelude.Tests.{Bool-cases}
use agentschat.Prelude.Table.{find_one, find_by, update, insert_row, insert_by, order_by}

module _ {ℓ} {A : Type ℓ} where
  unfoldable pub every : (A → Bool) → List A → Bool
  every p [] = true
  every p (x ∷ xs) = p x && every p xs

module _ {ℓ} {A : Type ℓ} (t : A → Bool) where
  pub every-update :
      (p : A → Bool) (f : A → A)
      → ((a : A) → p a ≡ true → t a ≡ true → t (f a) ≡ true)
      → (xs : List A) → every t xs ≡ true
      → every t (update p f xs) ≡ true
  unfolding every update
  every-update p f h [] s = refl
  every-update p f h (x ∷ xs) s =
      let rest = every-update p f h xs (ground arith) in
      elim (Bool-cases (p x)) [
        | inl fits ↦ ground (arith, rest, h x fits)
        | inr other ↦ ground (arith, rest)
      ]

  pub every-insert_row : (xs : List A) (x : A) → every t (insert_row xs x) ≡ every t xs && t x
  unfolding every insert_row
  every-insert_row [] x = ground arith
  every-insert_row (y ∷ ys) x = ground (arith, every-insert_row ys x)

  -- What is read of such a table is such a table, and passes the test of the query.
  pub every-find_by :
      (p : A → Bool) (xs : List A)
      → every t xs ≡ true
      → every (λ a. t a && p a) (find_by p xs) ≡ true
  unfolding every find_by
  every-find_by p [] h = refl
  every-find_by p (x ∷ xs) h = ground (arith, every-find_by p xs)

  every-insert_by :
      (key : A → ℕ) (x : A) (xs : List A) → every t (insert_by key x xs) ≡ t x && every t xs
  unfolding every insert_by
  every-insert_by key x [] = refl
  every-insert_by key x (y ∷ ys) = ground (arith, every-insert_by key x ys)

  pub every-order_by : (key : A → ℕ) (xs : List A) → every t (order_by key xs) ≡ every t xs
  unfolding every order_by
  every-order_by key [] = refl
  every-order_by key (x ∷ xs) =
      ground (arith, every-order_by key xs, every-insert_by key x (order_by key xs))

  pub every-find_one :
      (p : A → Bool) (xs : List A) (x : A) → every t xs ≡ true → find_one p xs ≡ some x → t x ≡ true
  unfolding every find_one
  every-find_one p [] x h e = ground arith
  every-find_one p (y ∷ ys) x h e = ground (arith, every-find_one p ys x)
