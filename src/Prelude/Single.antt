-- ===== src/Prelude/Single.antt =====
-- Tests that one row at most passes.
use Prim.Native.Nat.{◌≤◌}
use mathlib.Core.Path.{◌≡◌, refl, sym, ap, ◌∙◌, subst}
use mathlib.Core.Logic.{inl, inr}
use mathlib.Core.Bool.{Bool, true, false}
use mathlib.Core.Option.{none, some}
use mathlib.Core.List.{List, map, [], ◌∷◌, Memᴰ}
use native.Mathlib.Omega.{arith}
use open_praxis.Prelude.Rows.{
  any, count, count-update-le, first, first-none_of_count, length, select, update,
}
use open_praxis.Prelude.Tests.{Bool-cases, if◌then◌else◌}
use open_praxis.Prelude.Updates.{same_some}

module _ {ℓ} {A : Type ℓ} (p : A → Bool) where
  pub select_of_count : (xs : List A) → count p xs ≡ 0 → select p xs ≡ []
  unfolding select count
  select_of_count [] h = refl
  select_of_count (x ∷ xs) h = elim (Bool-cases (p x)) [
    | inl e ↦ absurd (ground (arith, e))
    | inr e ↦ rw e (select_of_count xs (rw e at h))
  ]

  pub select_one :
      (xs : List A) {a : A} → count p xs ≤ 1 → first p xs ≡ some a → select p xs ≡ a ∷ []
  unfolding select count first
  select_one [] h k = cc
  select_one (x ∷ xs) {a} h k = elim (Bool-cases (p x)) [
    | inl e ↦
        let found : x ≡ a = same_some (rw e at k) in
        rw (e, select_of_count xs (ground (arith, e))) (ap (λ y. y ∷ []) found)
    | inr e ↦ rw e (select_one xs (ground (arith, e)) (rw e at k))
  ]

  pub any_of_mem : (xs : List A) {a : A} → Memᴰ a xs → p a ≡ true → any p xs ≡ true
  unfolding any
  any_of_mem [] m h = elim m [ ]
  any_of_mem (x ∷ xs) (Memᴰ.head q) h = rw (sym (ap p q) ∙ h) refl
  any_of_mem (x ∷ xs) (Memᴰ.tail m) h = rw (any_of_mem xs m h) (ground arith)

module _ {ℓ} {A : Type ℓ} (p q : A → Bool) where
  pub count_pos_of_first : (xs : List A) {a : A} → first p xs ≡ some a → q a ≡ true → 1 ≤ count q xs
  unfolding first count
  count_pos_of_first [] h k = cc
  count_pos_of_first (x ∷ xs) {a} h k = elim (Bool-cases (p x)) [
    | inl e ↦
        let found : x ≡ a = same_some (rw e at h) in
        let here : q x ≡ true = ap q found ∙ k in rw here (omega arith)
    | inr e ↦ ground (arith, count_pos_of_first xs (rw e at h) k)
  ]

-- When the row that `q` takes is among those that the UPDATE takes out of `q`, none is left.
module _ {ℓ} {A : Type ℓ} (p q : A → Bool) (f : A → A) (off : (a : A) → q (f a) ≡ false) where
  pub count-update_only :
      (xs : List A) {a : A}
      → first p xs ≡ some a
      → q a ≡ true
      → count q xs ≤ 1
      → count q (update p f xs) ≡ 0
  unfolding first count update
  count-update_only [] h k one = cc
  count-update_only (x ∷ xs) {a} h k one = elim (Bool-cases (p x)) [
    | inl e ↦
        let found : x ≡ a = same_some (rw e at h) in
        let here : q x ≡ true = ap q found ∙ k in
        rw (e, off x) (ground (arith, here, count-update-le p q f off xs))
    | inr e ↦ elim (Bool-cases (q x)) [
      | inl t ↦ absurd (ground (arith, t, count_pos_of_first p q xs (rw e at h) k))
      | inr t ↦ rw (e, t) (count-update_only xs (rw e at h) k (rw t at one))
    ]
  ]

-- An UPDATE that puts rows under `q`, which had none.
module _ {ℓ} {A : Type ℓ} (p q : A → Bool) (f : A → A)
    (into : (a : A) → p a ≡ true → q (f a) ≡ true) where
  pub select-update_fresh :
      (xs : List A) → count q xs ≡ 0 → select q (update p f xs) ≡ map f (select p xs)
  unfolding select update count
  select-update_fresh [] h = refl
  select-update_fresh (x ∷ xs) h = elim (Bool-cases (q x)) [
    | inl t ↦ absurd (ground (arith, t))
    | inr t ↦ elim (Bool-cases (p x)) [
      | inl e ↦ rw (e, into x e) (ap (λ l. f x ∷ l) (select-update_fresh xs (rw t at h)))
      | inr e ↦ rw (e, t) (select-update_fresh xs (rw t at h))
    ]
  ]

module _ {ℓ} {A : Type ℓ} (p q : A → Bool) where
  pub count_mono : ((a : A) → p a ≡ true → q a ≡ true) → (xs : List A) → count p xs ≤ count q xs
  unfolding count
  count_mono within [] = omega arith
  count_mono within (x ∷ xs) = ground (arith, within x, count_mono within xs)

module _ {ℓ} {A : Type ℓ} (p q : A → Bool) (f : A → A) (off : (a : A) → q (f a) ≡ false) where
  pub first-update_one :
      (xs : List A) {t : A}
      → first q xs ≡ some t
      → count q xs ≤ 1
      → first q (update p f xs) ≡ (if p t then none else some t)
  unfolding first count update
  first-update_one [] h one = cc
  first-update_one (x ∷ xs) {t} h one = elim (Bool-cases (q x)) [
    | inl here ↦
        let found : x ≡ t = same_some (rw here at h) in
        subst (λ y. first q (update p f (x ∷ xs)) ≡ (if p y then none else some y)) found
          (elim (Bool-cases (p x)) [
            | inl e ↦
                rw (e, off x)
                  (first-none_of_count q (update p f xs)
                    (ground (arith, here, count-update-le p q f off xs)))
            | inr e ↦ rw (e, here) refl
          ])
    | inr absent ↦ elim (Bool-cases (p x)) [
      | inl e ↦ rw (e, off x) (first-update_one xs (rw absent at h) (rw absent at one))
      | inr e ↦ rw (e, absent) (first-update_one xs (rw absent at h) (rw absent at one))
    ]
  ]

-- An UPDATE of rows of which none, before or after, is under `q`.
module _ {ℓ} {A : Type ℓ} (p q : A → Bool) (f : A → A) (off : (a : A) → q (f a) ≡ false) where
  pub select-update_other :
      (xs : List A)
      → ((a : A) → Memᴰ a xs → p a ≡ true → q a ≡ false)
      → select q (update p f xs) ≡ select q xs
  unfolding select update
  select-update_other [] before = refl
  select-update_other (x ∷ xs) before =
      let rest = select-update_other xs (λ a m. before a (Memᴰ.tail m)) in
      elim (Bool-cases (p x)) [
        | inl e ↦ rw (e, off x, before x (Memᴰ.head refl) e, rest) refl
        | inr e ↦ rw (e, rest) refl
      ]

module _ {ℓ} {A : Type ℓ} (p : A → Bool) where
  pub count_le_length : (xs : List A) → count p xs ≤ length xs
  unfolding count
  count_le_length [] = omega arith
  count_le_length (x ∷ xs) = ground (arith, count_le_length xs)
