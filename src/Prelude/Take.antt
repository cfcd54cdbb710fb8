-- ===== src/Prelude/Take.antt =====
-- `LIMIT ?`
use Prim.Native.Nat.{ℕ, zero, suc, ◌≤◌}
use mathlib.Core.Path.{◌≡◌, refl, ap}
use mathlib.Core.Logic.{inl, inr}
use mathlib.Core.Bool.{Bool}
use mathlib.Core.List.{List, map, [], ◌∷◌, Memᴰ}
use native.Mathlib.Omega.{arith}
use open_praxis.Prelude.Rows.{length, mem-cons_cases}
use open_praxis.Prelude.Sorting.{IsSortedBy}

module _ {ℓ} {A : Type ℓ} where
  unfoldable pub take : ℕ → List A → List A
  take zero t = []
  take (suc n) [] = []
  take (suc n) (c ∷ t) = c ∷ take n t

  pub length-take : (n : ℕ) (t : List A) → length (take n t) ≤ n
  unfolding take
  length-take zero t = omega arith
  length-take (suc n) [] = omega arith
  length-take (suc n) (c ∷ t) = omega (arith, length-take n t)

  pub mem_of_mem-take : (n : ℕ) (t : List A) {c : A} → Memᴰ c (take n t) → Memᴰ c t
  unfolding take
  mem_of_mem-take zero t m = elim m [ ]
  mem_of_mem-take (suc n) [] m = elim m [ ]
  mem_of_mem-take (suc n) (x ∷ t) m = elim (mem-cons_cases m) [
    | inl q ↦ Memᴰ.head q
    | inr later ↦ Memᴰ.tail (mem_of_mem-take n t later)
  ]

  pub take-IsSortedBy :
      (le : A → A → Bool) (n : ℕ) (t : List A) → IsSortedBy le t → IsSortedBy le (take n t)
  unfolding take
  take-IsSortedBy le zero t s = tt
  take-IsSortedBy le (suc n) [] s = tt
  take-IsSortedBy le (suc n) (c ∷ t) (newest, s) =
      ((λ d m. newest d (mem_of_mem-take n t m)), take-IsSortedBy le n t s)

  pub take_all : (n : ℕ) (t : List A) → length t ≤ n → take n t ≡ t
  unfolding take
  take_all zero [] h = refl
  take_all zero (c ∷ t) h = absurd (omega (arith, h))
  take_all (suc n) [] h = refl
  take_all (suc n) (c ∷ t) h = ap (λ l. c ∷ l) (take_all n t (omega (arith, h)))

module _ {ℓ κ} {A : Type ℓ} {B : Type κ} (f : A → B) where
  pub map-take : (n : ℕ) (t : List A) → map f (take n t) ≡ take n (map f t)
  unfolding take
  map-take zero t = refl
  map-take (suc n) [] = refl
  map-take (suc n) (c ∷ t) = ap (λ l. f c ∷ l) (map-take n t)
