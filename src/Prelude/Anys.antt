-- ===== src/Prelude/Anys.antt =====
-- Whether a row matches, through counts, selections, sorts and disjunctions.
use Prim.Native.Nat.{suc, ◌≤◌}
use mathlib.Core.Path.{sym, ◌≡◌, refl, ap, ◌∙◌}
use mathlib.Core.Bool.{true, Bool, not, ◌||◌, ◌&&◌}
use mathlib.Core.Option.{some}
use mathlib.Core.Bool.{false≢true}
use mathlib.Core.Logic.{inl, inr}
use mathlib.Core.List.{List, [], ◌∷◌}
use native.Mathlib.Omega.{arith}
use open_praxis.Prelude.Rows.{any, count, first, insert_by, length, select, sort_by}
use open_praxis.Prelude.Tests.{Bool-cases, ltb}

module _ {ℓ} {A : Type ℓ} (p : A → Bool) where
  pub any-eq-count : (xs : List A) → any p xs ≡ ltb 0 (count p xs)
  unfolding any count
  any-eq-count [] = refl
  any-eq-count (x ∷ xs) = ground (arith, any-eq-count xs)

  count-insert_by :
      (le : A → A → Bool) (x : A) (ys : List A) → count p (insert_by le x ys) ≡ count p (x ∷ ys)
  unfolding insert_by count
  count-insert_by le x [] = refl
  count-insert_by le x (y ∷ ys) = elim (Bool-cases (le x y)) [
    | inl e ↦ rw e
    | inr e ↦ rw e (ground (arith, count-insert_by le x ys))
  ]

  pub count-sort_by : (le : A → A → Bool) (xs : List A) → count p (sort_by le xs) ≡ count p xs
  unfolding sort_by count
  count-sort_by le [] = refl
  count-sort_by le (x ∷ xs) =
      count-insert_by le x (sort_by le xs) ∙ ground (arith, count-sort_by le xs)

  pub select_none : (xs : List A) → count p xs ≡ 0 → select (λ x. not (p x)) xs ≡ xs
  unfolding select count
  select_none [] h = refl
  select_none (x ∷ xs) h = elim (Bool-cases (p x)) [
    | inl e ↦ absurd (ground (arith, e))
    | inr e ↦ rw e (ap (λ l. x ∷ l) (select_none xs (ground (arith, e))))
  ]

  pub count-select-not : (xs : List A) → count p (select (λ x. not (p x)) xs) ≡ 0
  unfolding count select
  count-select-not [] = refl
  count-select-not (x ∷ xs) = ground (arith, count-select-not xs)

  pub first_of_any : (xs : List A) → any p xs ≡ true → (a : A) × (first p xs ≡ some a)
  unfolding any first
  first_of_any [] h = absurd (false≢true h)
  first_of_any (x ∷ xs) h = elim (Bool-cases (p x)) [
    | inl e ↦ (x, rw e refl)
    | inr e ↦ let (a, found) = first_of_any xs (rw e at h) in (a, rw e found)
  ]

  pub any_same_count : (xs ys : List A) → count p xs ≡ count p ys → any p xs ≡ any p ys
  any_same_count xs ys h = any-eq-count xs ∙ ap (λ n. ltb 0 n) h ∙ sym (any-eq-count ys)

module _ {ℓ} {A : Type ℓ} (p q : A → Bool) where
  pub count-select : (xs : List A) → count p (select q xs) ≡ count (λ x. p x && q x) xs
  unfolding select count
  count-select [] = refl
  count-select (x ∷ xs) = ground (arith, count-select xs)

  pub any_or :
      (b : Bool) (xs : List A)
      → any (λ x. p x && (b || q x)) xs ≡ ((b && any p xs) || any (λ x. p x && q x) xs)
  unfolding any
  any_or b [] = ground arith
  any_or b (x ∷ xs) = ground (arith, any_or b xs)

  pub count-and_le : (xs : List A) → count (λ x. p x && q x) xs ≤ count p xs
  unfolding count
  count-and_le [] = omega arith
  count-and_le (x ∷ xs) = ground (arith, count-and_le xs)

module _ {ℓ} {A : Type ℓ} where
  length-eq-count : (xs : List A) → length xs ≡ count (λ x. true) xs
  unfolding count
  length-eq-count [] = refl
  length-eq-count (x ∷ xs) = ap suc (length-eq-count xs)

  pub length-sort_by : (le : A → A → Bool) (xs : List A) → length (sort_by le xs) ≡ length xs
  length-sort_by le xs =
      length-eq-count (sort_by le xs) ∙ count-sort_by (λ x. true) le xs ∙ sym (length-eq-count xs)
