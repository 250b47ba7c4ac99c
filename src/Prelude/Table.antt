-- ===== src/Prelude/Table.antt =====
-- A database table as the list of its rows, and the repository calls that the services make:
-- `findOneBy`, `findBy`, `exists`, `update`, and `find` with an ascending order.
use Prim.Native.Nat.{ℕ}
use mathlib.Core.Bool.{Bool, false, ◌||◌}
use mathlib.Core.Option.{Option, none, some}
use mathlib.Core.List.{List, [], ◌∷◌, ◌++◌}
use agentschat.Prelude.Tests.{leb, if◌then◌else◌}

module _ {ℓ} {A : Type ℓ} where
  unfoldable pub find_one : (A → Bool) → List A → Option A
  find_one p [] = none
  find_one p (x ∷ xs) = if p x then some x else find_one p xs

  unfoldable pub find_by : (A → Bool) → List A → List A
  find_by p [] = []
  find_by p (x ∷ xs) = if p x then x ∷ find_by p xs else find_by p xs

  unfoldable pub exists : (A → Bool) → List A → Bool
  exists p [] = false
  exists p (x ∷ xs) = p x || exists p xs

  -- Every row that fits is changed.
  unfoldable pub update : (A → Bool) → (A → A) → List A → List A
  update p f [] = []
  update p f (x ∷ xs) = (if p x then f x else x) ∷ update p f xs

  -- Every row that fits is removed.
  unfoldable pub delete : (A → Bool) → List A → List A
  delete p [] = []
  delete p (x ∷ xs) = if p x then delete p xs else x ∷ delete p xs

  unfoldable pub insert_row : List A → A → List A
  insert_row xs x = xs ++ x ∷ []

  unfoldable pub insert_by : (A → ℕ) → A → List A → List A
  insert_by key x [] = x ∷ []
  insert_by key x (y ∷ ys) = if leb (key x) (key y) then x ∷ y ∷ ys else y ∷ insert_by key x ys

  -- Rows in ascending order of a key.
  unfoldable pub order_by : (A → ℕ) → List A → List A
  unfolding insert_by
  order_by key [] = []
  order_by key (x ∷ xs) = insert_by key x (order_by key xs)
