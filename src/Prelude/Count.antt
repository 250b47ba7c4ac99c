-- ===== src/Prelude/Count.antt =====
-- How many rows of a table fit a query.
use Prim.Native.Nat.{ℕ, suc, ◌+◌, ◌≤◌}
use mathlib.Core.Path.{◌≡◌, refl}
use mathlib.Core.Bool.{Bool, false}
use mathlib.Core.Option.{none}
use mathlib.Core.List.{List, [], ◌∷◌}
use native.Mathlib.Omega.{arith}
use agentschat.Prelude.Tests.{if◌then◌else◌}
use agentschat.Prelude.Table.{find_one, exists, delete, insert_row}

module _ {A : Type 0} (p : A → Bool) where
  -- How many rows fit.
  unfoldable pub count : List A → ℕ
  count [] = 0
  count (x ∷ xs) = let rest = count xs in if p x then suc rest else rest

  pub count-exists : (xs : List A) → count xs ≡ 0 → exists p xs ≡ false
  unfolding count exists
  count-exists [] h = refl
  count-exists (x ∷ xs) h = ground (arith, count-exists xs)

  pub exists-delete :
      (q : A → Bool) (xs : List A) → exists p xs ≡ false → exists p (delete q xs) ≡ false
  unfolding exists delete
  exists-delete q [] h = refl
  exists-delete q (x ∷ xs) h = ground (arith, exists-delete q xs)

  pub count-insert_row :
      (xs : List A) (x : A) → count (insert_row xs x) ≡ count xs + (if p x then 1 else 0)
  unfolding count insert_row
  count-insert_row [] x = ground arith
  count-insert_row (y ∷ ys) x = ground (arith, count-insert_row ys x)

  pub count-none : (xs : List A) → find_one p xs ≡ none → count xs ≡ 0
  unfolding count find_one
  count-none [] h = refl
  count-none (x ∷ xs) h = ground (arith, count-none xs)

  pub count-delete : (q : A → Bool) (xs : List A) → count (delete q xs) ≤ count xs
  unfolding count delete
  count-delete q [] = ground arith
  count-delete q (x ∷ xs) = ground (arith, count-delete q xs)
