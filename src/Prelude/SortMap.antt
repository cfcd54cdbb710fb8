-- ===== src/Prelude/SortMap.antt =====
-- A sort under a map that its test does not see, and the first row of a sort.
use Prim.Native.Nat.{◌≤◌}
use mathlib.Core.Path.{◌≡◌, refl, ap, ◌∙◌}
use mathlib.Core.Logic.{inl, inr}
use mathlib.Core.Bool.{Bool}
use mathlib.Core.List.{List, map, [], ◌∷◌}
use native.Mathlib.Omega.{arith}
use open_praxis.Prelude.Rows.{insert_by, length, sort_by}
use open_praxis.Prelude.Tests.{Bool-cases}

module _ {ℓ} {A : Type ℓ} (le : A → A → Bool) (f : A → A)
    (same : (a b : A) → le (f a) (f b) ≡ le a b) where
  map-insert_by : (x : A) (ys : List A) → map f (insert_by le x ys) ≡ insert_by le (f x) (map f ys)
  unfolding insert_by
  map-insert_by x [] = refl
  map-insert_by x (y ∷ ys) = elim (Bool-cases (le x y)) [
    | inl e ↦ rw (same x y, e) refl
    | inr e ↦ rw (same x y, e) (ap (λ l. f y ∷ l) (map-insert_by x ys))
  ]

  pub map-sort_by : (xs : List A) → map f (sort_by le xs) ≡ sort_by le (map f xs)
  unfolding sort_by
  map-sort_by [] = refl
  map-sort_by (x ∷ xs) = map-insert_by x (sort_by le xs) ∙ ap (insert_by le (f x)) (map-sort_by xs)

module _ {ℓ} {A : Type ℓ} (le : A → A → Bool) where
  pub sort_by_one : (xs : List A) → length xs ≤ 1 → sort_by le xs ≡ xs
  unfolding sort_by insert_by
  sort_by_one [] h = refl
  sort_by_one (x ∷ []) h = refl
  sort_by_one (x ∷ (y ∷ ys)) h = absurd (omega (arith, h))
