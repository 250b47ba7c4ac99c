-- ===== src/Prelude/Distinct.antt =====
-- Tables in which no row clashes with a later one.
use mathlib.Core.Path.{◌≡◌, refl}
use mathlib.Core.Logic.{inl, inr}
use mathlib.Core.Bool.{Bool, true, not, ◌&&◌}
use mathlib.Core.List.{List, [], ◌∷◌}
use native.Mathlib.Omega.{arith}
use agentschat.Prelude.Tests.{Bool-cases}
use agentschat.Prelude.Table.{exists, update, insert_row}
use agentschat.Prelude.Rows.{exists-insert_row}

module _ {ℓ} {A : Type ℓ} where
  unfoldable pub distinct : (A → A → Bool) → List A → Bool
  distinct clash [] = true
  distinct clash (x ∷ xs) = not (exists (clash x) xs) && distinct clash xs

module _ {ℓ} {A : Type ℓ} (clash : A → A → Bool) where
  -- An insertion asks for no clash with what is there.
  pub distinct-insert_row :
      (xs : List A) (x : A)
      → distinct clash (insert_row xs x) ≡ distinct clash xs && not (exists (λ y. clash y x) xs)
  unfolding distinct insert_row exists
  distinct-insert_row [] x = refl
  distinct-insert_row (y ∷ ys) x =
      ground (arith, distinct-insert_row ys x, exists-insert_row (clash y) ys x)

module _ {ℓ} {A : Type ℓ} (clash : A → A → Bool) (p : A → Bool) (f : A → A)
    (left : (x y : A) → p x ≡ true → clash (f x) y ≡ clash x y)
    (right : (x y : A) → p y ≡ true → clash x (f y) ≡ clash x y) where
  exists_right : (x : A) (ys : List A) → exists (clash x) (update p f ys) ≡ exists (clash x) ys
  unfolding exists update
  exists_right x [] = refl
  exists_right x (y ∷ ys) = elim (Bool-cases (p y)) [
    | inl fits ↦ ground (arith, exists_right x ys, right x y fits)
    | inr other ↦ ground (arith, exists_right x ys)
  ]

  exists_left : (x : A) (ys : List A) → p x ≡ true → exists (clash (f x)) ys ≡ exists (clash x) ys
  unfolding exists
  exists_left x [] h = refl
  exists_left x (y ∷ ys) h = ground (arith, exists_left x ys h, left x y h)

  -- An update that no clash sees.
  pub distinct-update : (xs : List A) → distinct clash (update p f xs) ≡ distinct clash xs
  unfolding distinct update
  distinct-update [] = refl
  distinct-update (x ∷ xs) = elim (Bool-cases (p x)) [
    | inl fits ↦ ground (arith, distinct-update xs, exists_right (f x) xs, exists_left x xs fits)
    | inr other ↦ ground (arith, distinct-update xs, exists_right x xs)
  ]
