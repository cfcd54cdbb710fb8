-- ===== src/Prelude/Updates.antt =====
-- What an UPDATE that keeps a test does to the rows under it.
use mathlib.Core.Path.{◌≡◌, refl, sym, ap, ◌∙◌}
use mathlib.Core.Bool.{Bool, true}
use mathlib.Core.Option.{some}
use mathlib.Core.List.{List, [], ◌∷◌, Memᴰ}
use native.Mathlib.Omega.{arith}
use mathlib.Core.Path.{subst}
use mathlib.Core.Logic.{inl, inr}
use open_praxis.Prelude.Rows.{count, first, update}
use open_praxis.Prelude.Tests.{Bool-cases, if◌then◌else◌}

pub same_some {ℓ} : {A : Type ℓ} {a b : A} → some a ≡ some b → a ≡ b
same_some h = cc

module _ {ℓ} {A : Type ℓ} (p q : A → Bool) (f : A → A) (same : (a : A) → q (f a) ≡ q a) where
  pub count-update_same : (xs : List A) → count q (update p f xs) ≡ count q xs
  unfolding count update
  count-update_same [] = refl
  count-update_same (x ∷ xs) = ground (arith, same x, count-update_same xs)

  pub first-update_same :
      (xs : List A) (a : A)
      → first q xs ≡ some a
      → first q (update p f xs) ≡ some (if p a then f a else a)
  unfolding first update
  first-update_same [] a h = cc
  first-update_same (x ∷ xs) a h = elim (Bool-cases (q x)) [
    | inl e ↦
        let found : x ≡ a = same_some (rw e at h) in
        subst
          (λ b.
            (if q (if p x then f x else x)
              then some (if p x then f x else x)
              else first q (update p f xs))
            ≡ some (if p b then f b else b))
          found (elim (Bool-cases (p x)) [ inl t ↦ rw (t, same x, e) | inr t ↦ rw (t, e) ])
    | inr e ↦ elim (Bool-cases (p x)) [
      | inl t ↦ rw (t, same x, e) (first-update_same xs a (rw e at h))
      | inr t ↦ rw (t, e) (first-update_same xs a (rw e at h))
    ]
  ]

module _ {ℓ} {A : Type ℓ} (q : A → Bool) where
  pub mem_of_first : (xs : List A) {a : A} → first q xs ≡ some a → Memᴰ a xs × (q a ≡ true)
  unfolding first
  mem_of_first [] h = cc
  mem_of_first (x ∷ xs) {a} h = elim (Bool-cases (q x)) [
    | inl e ↦
        let found : x ≡ a = same_some (rw e at h) in (Memᴰ.head (sym found), sym (ap q found) ∙ e)
    | inr e ↦ let (m, t) = mem_of_first xs (rw e at h) in (Memᴰ.tail m, t)
  ]

-- An UPDATE of rows that the test leaves out changes nothing.
module _ {ℓ} {A : Type ℓ} (p : A → Bool) (f : A → A) where
  pub update_none : (xs : List A) → count p xs ≡ 0 → update p f xs ≡ xs
  unfolding count update
  update_none [] h = refl
  update_none (x ∷ xs) h = elim (Bool-cases (p x)) [
    | inl e ↦ absurd (ground (arith, e))
    | inr e ↦ rw e (ap (λ l. x ∷ l) (update_none xs (ground (arith, e))))
  ]
