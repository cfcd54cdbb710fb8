-- ===== src/Prelude/Ends.antt =====
-- A row at the end of a table, and the first row of a table under an UPDATE.
use Prim.Native.Nat.{suc, ◌≤◌}
use native.Mathlib.Omega.{arith}
use mathlib.Core.Path.{◌≡◌, refl, ap, ◌∙◌}
use mathlib.Core.Logic.{inl, inr, ◌⊎◌}
use mathlib.Core.Bool.{Bool, true, false}
use mathlib.Core.Option.{Option, none, some}
use mathlib.Core.List.{List, [], ◌∷◌, ◌++◌, Memᴰ}
use open_praxis.Prelude.Rows.{any, count, count-append, first, select, update}
use open_praxis.Prelude.Tests.{Bool-cases, if◌then◌else◌}

module _ {ℓ} {A : Type ℓ} where
  abbrev pub or_else : Option A → Option A → Option A
  or_else none d = d
  or_else (some a) d = some a

module _ {ℓ} {A : Type ℓ} (p : A → Bool) where
  pub first-append_last :
      (xs : List A) (r : A)
      → first p (xs ++ r ∷ []) ≡ or_else (first p xs) (if p r then some r else none)
  unfolding first
  first-append_last [] r = refl
  first-append_last (x ∷ xs) r = elim (Bool-cases (p x)) [
    | inl e ↦ rw e refl
    | inr e ↦ rw e (first-append_last xs r)
  ]

  pub any_of_first : (xs : List A) {a : A} → first p xs ≡ some a → any p xs ≡ true
  unfolding first any
  any_of_first [] h = cc
  any_of_first (x ∷ xs) h = elim (Bool-cases (p x)) [
    | inl e ↦ rw e refl
    | inr e ↦ rw e (any_of_first xs (rw e at h))
  ]

  pub any_of_first-none : (xs : List A) → first p xs ≡ none → any p xs ≡ false
  unfolding first any
  any_of_first-none [] h = refl
  any_of_first-none (x ∷ xs) h = elim (Bool-cases (p x)) [
    | inl e ↦ cc (rw e at h)
    | inr e ↦ rw e (any_of_first-none xs (rw e at h))
  ]

-- An UPDATE of rows that `q` does not see, before or after.
module _ {ℓ} {A : Type ℓ} (p q : A → Bool) (f : A → A) (before : (a : A) → p a ≡ true → q a ≡ false)
    (after : (a : A) → p a ≡ true → q (f a) ≡ false) where
  pub count-update_other : (xs : List A) → count q (update p f xs) ≡ count q xs
  unfolding count update
  count-update_other [] = refl
  count-update_other (x ∷ xs) = ground (arith, before x, after x, count-update_other xs)

  pub first-update_other : (xs : List A) → first q (update p f xs) ≡ first q xs
  unfolding first update
  first-update_other [] = refl
  first-update_other (x ∷ xs) = elim (Bool-cases (p x)) [
    | inl e ↦ rw (e, before x e, after x e) (first-update_other xs)
    | inr e ↦ rw e (ap (λ o. if q x then some x else o) (first-update_other xs))
  ]

module _ {ℓ} {A : Type ℓ} (p : A → Bool) where
  pub count_of_first-none : (xs : List A) → first p xs ≡ none → count p xs ≡ 0
  unfolding first count
  count_of_first-none [] h = refl
  count_of_first-none (x ∷ xs) h = elim (Bool-cases (p x)) [
    | inl e ↦ cc (rw e at h)
    | inr e ↦ rw e (count_of_first-none xs (rw e at h))
  ]

  pub count-append_off : (xs : List A) (r : A) → p r ≡ false → count p (xs ++ r ∷ []) ≡ count p xs
  unfolding count
  count-append_off xs r h = count-append p xs (r ∷ []) ∙ rw h (omega arith)

  pub count-append_one : (xs : List A) (r : A) → count p (xs ++ r ∷ []) ≤ suc (count p xs)
  unfolding count
  count-append_one xs r = rw (count-append p xs (r ∷ [])) (ground arith)

-- What holds of every row.
module _ {ℓ κ} {A : Type ℓ} (P : A → Type κ) where
  abbrev pub Every : List A → Type κ
  Every [] = Unit
  Every (x ∷ xs) = P x × Every xs

  pub Every-append : (xs : List A) (r : A) → Every xs → P r → Every (xs ++ r ∷ [])
  Every-append [] r h k = (k, tt)
  Every-append (x ∷ xs) r (h, hs) k = (h, Every-append xs r hs k)

  pub Every-update :
      (p : A → Bool) (f : A → A)
      → ((a : A) → P a → P (f a))
      → (xs : List A) → Every xs
      → Every (update p f xs)
  unfolding update
  Every-update p f keeps [] h = tt
  Every-update p f keeps (x ∷ xs) (h, hs) = elim (Bool-cases (p x)) [
    | inl e ↦ rw e (keeps x h, Every-update p f keeps xs hs)
    | inr e ↦ rw e (h, Every-update p f keeps xs hs)
  ]

module _ {ℓ} {A : Type ℓ} (p q : A → Bool) where
  pub select_same : (xs : List A) → Every (λ x. p x ≡ q x) xs → select p xs ≡ select q xs
  unfolding select
  select_same [] h = refl
  select_same (x ∷ xs) (h, hs) = rw (h, select_same xs hs) refl

module _ {ℓ κ} {A : Type ℓ} {P Q : A → Type κ} (step : (a : A) → P a → Q a) where
  pub Every-weaken : (xs : List A) → Every P xs → Every Q xs
  Every-weaken [] h = tt
  Every-weaken (x ∷ xs) (h, hs) = (step x h, Every-weaken xs hs)

module _ {ℓ κ} {A : Type ℓ} (P : A → Type κ) (p : A → Bool) (f : A → A) where
  -- What the changed rows and the kept rows have.
  pub Every-updated :
      ((a : A) → p a ≡ true → P (f a))
      → ((a : A) → p a ≡ false → P a)
      → (xs : List A) → Every P (update p f xs)
  unfolding update
  Every-updated changed kept [] = tt
  Every-updated changed kept (x ∷ xs) = elim (Bool-cases (p x)) [
    | inl e ↦ rw e (changed x e, Every-updated changed kept xs)
    | inr e ↦ rw e (kept x e, Every-updated changed kept xs)
  ]

  pub Every-update_on :
      ((a : A) → p a ≡ true → P (f a)) → (xs : List A) → Every P xs → Every P (update p f xs)
  unfolding update
  Every-update_on changed [] h = tt
  Every-update_on changed (x ∷ xs) (h, hs) = elim (Bool-cases (p x)) [
    | inl e ↦ rw e (changed x e, Every-update_on changed xs hs)
    | inr e ↦ rw e (h, Every-update_on changed xs hs)
  ]

module _ {ℓ} {A : Type ℓ} (p : A → Bool) (f : A → A) where
  pub update_fixed : (xs : List A) → Every (λ x. p x ≡ true → f x ≡ x) xs → update p f xs ≡ xs
  unfolding update
  update_fixed [] h = refl
  update_fixed (x ∷ xs) (h, hs) = elim (Bool-cases (p x)) [
    | inl e ↦ rw (e, update_fixed xs hs) (ap (λ y. y ∷ xs) (h e))
    | inr e ↦ rw (e, update_fixed xs hs) refl
  ]

module _ {ℓ} {A : Type ℓ} (p : A → Bool) (f : A → A) where
  -- Where a row of an updated table comes from.
  pub mem_of_mem-update :
      {a : A} (xs : List A)
      → Memᴰ a (update p f xs)
      → (Memᴰ a xs × (p a ≡ false)) ⊎ ((b : A) × Memᴰ b xs × (p b ≡ true) × (a ≡ f b))
  unfolding update
  mem_of_mem-update [] m = elim m [ ]
  mem_of_mem-update (x ∷ xs) (Memᴰ.head q) = elim (Bool-cases (p x)) [
    | inl e ↦ inr (x, Memᴰ.head refl, e, rw e at q)
    | inr e ↦ let same = rw e at q in inl (Memᴰ.head same, ap p same ∙ e)
  ]
  mem_of_mem-update (x ∷ xs) (Memᴰ.tail m) = elim (mem_of_mem-update xs m) [
    | inl (n, e) ↦ inl (Memᴰ.tail n, e)
    | inr (b, n, e, q) ↦ inr (b, Memᴰ.tail n, e, q)
  ]

module _ {ℓ} {A : Type ℓ} (p : A → Bool) where
  pub count_none : (xs : List A) → ((a : A) → Memᴰ a xs → p a ≡ false) → count p xs ≡ 0
  unfolding count
  count_none [] h = refl
  count_none (x ∷ xs) h = rw (h x (Memᴰ.head refl)) (count_none xs (λ a m. h a (Memᴰ.tail m)))
