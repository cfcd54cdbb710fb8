-- ===== src/Prelude/Rows.antt =====
-- A table is the list of its rows, in the order of insertion. `select` is
-- `SELECT … WHERE test`, `update` is `UPDATE … SET change WHERE test`, `any` tells whether a row
-- matches and `count` is `SELECT COUNT(*)`.
use Prim.Native.Nat.{ℕ, suc, ◌+◌, ◌≤◌}
use mathlib.Core.Path.{◌≡◌, refl, sym, ap, ◌∙◌}
use mathlib.Core.Logic.{◌⊎◌, inl, inr}
use mathlib.Core.Bool.{Bool, true, false, ◌||◌}
use mathlib.Core.Option.{Option, none, some}
use mathlib.Core.List.{List, map, [], ◌∷◌, ◌++◌, Memᴰ}
use native.Mathlib.Omega.{arith}
use open_praxis.Prelude.Tests.{Bool-cases, if◌then◌else◌}

module _ {ℓ} {A : Type ℓ} where
  abbrev pub length : List A → ℕ
  length [] = 0
  length (x ∷ xs) = suc (length xs)

  unfoldable pub select : (A → Bool) → List A → List A
  select p [] = []
  select p (x ∷ xs) = let rest = select p xs in if p x then x ∷ rest else rest

  unfoldable pub update : (A → Bool) → (A → A) → List A → List A
  update p f [] = []
  update p f (x ∷ xs) = (if p x then f x else x) ∷ update p f xs

  unfoldable pub any : (A → Bool) → List A → Bool
  any p [] = false
  any p (x ∷ xs) = p x || any p xs

  unfoldable pub count : (A → Bool) → List A → ℕ
  count p [] = 0
  count p (x ∷ xs) = let rest = count p xs in if p x then suc rest else rest

  unfoldable pub first : (A → Bool) → List A → Option A
  first p [] = none
  first p (x ∷ xs) = let rest = first p xs in if p x then some x else rest

-- `ORDER BY` and `sort.SliceStable`: an insertion sort that keeps equal rows in their order.
module _ {ℓ} {A : Type ℓ} (le : A → A → Bool) where
  unfoldable pub insert_by : A → List A → List A
  insert_by x [] = x ∷ []
  insert_by x (y ∷ ys) = if le x y then x ∷ y ∷ ys else y ∷ insert_by x ys

  unfoldable pub sort_by : List A → List A
  unfolding insert_by
  sort_by [] = []
  sort_by (x ∷ xs) = insert_by x (sort_by xs)

module _ {ℓ} {A : Type ℓ} (p : A → Bool) where
  pub count-append : (xs ys : List A) → count p (xs ++ ys) ≡ count p xs + count p ys
  unfolding count
  count-append [] ys = omega arith
  count-append (x ∷ xs) ys = ground (arith, count-append xs ys)

  pub select-append : (xs ys : List A) → select p (xs ++ ys) ≡ select p xs ++ select p ys
  unfolding select
  select-append [] ys = refl
  select-append (x ∷ xs) ys = elim (Bool-cases (p x)) [
    | inl e ↦ rw e (ap (λ (l : List A). x ∷ l) (select-append xs ys))
    | inr e ↦ rw e (select-append xs ys)
  ]

  pub length-select-eq-count : (xs : List A) → length (select p xs) ≡ count p xs
  unfolding select count
  length-select-eq-count [] = refl
  length-select-eq-count (x ∷ xs) = ground (arith, length-select-eq-count xs)

pub mem-cons_cases {ℓ} :
    {A : Type ℓ} {a x : A} {xs : List A} → Memᴰ a (x ∷ xs) → (a ≡ x) ⊎ Memᴰ a xs
mem-cons_cases (Memᴰ.head e) = inl e
mem-cons_cases (Memᴰ.tail m) = inr m

module _ {ℓ} {A : Type ℓ} (p : A → Bool) where
  pub mem_of_mem-select : {a : A} (xs : List A) → Memᴰ a (select p xs) → Memᴰ a xs
  unfolding select
  mem_of_mem-select [] m = elim m [ ]
  mem_of_mem-select (x ∷ xs) m = elim (Bool-cases (p x)) [
    | inl e ↦ elim (mem-cons_cases (rw e at m)) [
      | inl q ↦ Memᴰ.head q
      | inr r ↦ Memᴰ.tail (mem_of_mem-select xs r)
    ]
    | inr e ↦ Memᴰ.tail (mem_of_mem-select xs (rw e at m))
  ]

  pub test_of_mem-select : {a : A} (xs : List A) → Memᴰ a (select p xs) → p a ≡ true
  unfolding select
  test_of_mem-select [] m = elim m [ ]
  test_of_mem-select (x ∷ xs) m = elim (Bool-cases (p x)) [
    | inl e ↦ elim (mem-cons_cases (rw e at m)) [
      | inl q ↦ ap p q ∙ e
      | inr r ↦ test_of_mem-select xs r
    ]
    | inr e ↦ test_of_mem-select xs (rw e at m)
  ]

  pub mem-select_of_test : {a : A} (xs : List A) → Memᴰ a xs → p a ≡ true → Memᴰ a (select p xs)
  unfolding select
  mem-select_of_test [] m e = elim m [ ]
  mem-select_of_test (x ∷ xs) (Memᴰ.head q) e = rw (sym (ap p q) ∙ e) (Memᴰ.head q)
  mem-select_of_test (x ∷ xs) (Memᴰ.tail m) e = elim (Bool-cases (p x)) [
    | inl t ↦ rw t (Memᴰ.tail (mem-select_of_test xs m e))
    | inr f ↦ rw f (mem-select_of_test xs m e)
  ]

-- An UPDATE whose new rows fail the test `q` leaves no row of those it changes under `q`.
module _ {ℓ} {A : Type ℓ} (p q : A → Bool) (f : A → A) (off : (a : A) → q (f a) ≡ false) where
  pub count-update-le : (xs : List A) → count q (update p f xs) ≤ count q xs
  unfolding count update
  count-update-le [] = omega arith
  count-update-le (x ∷ xs) = ground (arith, off x, count-update-le xs)

module _ {ℓ} {A : Type ℓ} (p : A → Bool) (f : A → A) where
  pub count-update_off : ((a : A) → p (f a) ≡ false) → (xs : List A) → count p (update p f xs) ≡ 0
  unfolding count update
  count-update_off off [] = refl
  count-update_off off (x ∷ xs) = ground (arith, off x, count-update_off off xs)

  pub length-update : (xs : List A) → length (update p f xs) ≡ length xs
  unfolding update
  length-update [] = refl
  length-update (x ∷ xs) = ap suc (length-update xs)

  -- A row that the test leaves out stays as it is, and one that it takes is replaced.
  pub mem-update_kept : {a : A} (xs : List A) → Memᴰ a xs → p a ≡ false → Memᴰ a (update p f xs)
  unfolding update
  mem-update_kept [] m e = elim m [ ]
  mem-update_kept (x ∷ xs) (Memᴰ.head q) e = rw (sym (ap p q) ∙ e) (Memᴰ.head q)
  mem-update_kept (x ∷ xs) (Memᴰ.tail m) e = Memᴰ.tail (mem-update_kept xs m e)

  pub mem-update_changed :
      {a : A} (xs : List A) → Memᴰ a xs → p a ≡ true → Memᴰ (f a) (update p f xs)
  unfolding update
  mem-update_changed [] m e = elim m [ ]
  mem-update_changed (x ∷ xs) (Memᴰ.head q) e = rw (sym (ap p q) ∙ e) (Memᴰ.head (ap f q))
  mem-update_changed (x ∷ xs) (Memᴰ.tail m) e = Memᴰ.tail (mem-update_changed xs m e)

module _ {ℓ} {A : Type ℓ} where
  pub mem-append_left : {a : A} (xs ys : List A) → Memᴰ a xs → Memᴰ a (xs ++ ys)
  mem-append_left [] ys m = elim m [ ]
  mem-append_left (x ∷ xs) ys (Memᴰ.head q) = Memᴰ.head q
  mem-append_left (x ∷ xs) ys (Memᴰ.tail m) = Memᴰ.tail (mem-append_left xs ys m)

  pub mem-append_right : {a : A} (xs ys : List A) → Memᴰ a ys → Memᴰ a (xs ++ ys)
  mem-append_right [] ys m = m
  mem-append_right (x ∷ xs) ys m = Memᴰ.tail (mem-append_right xs ys m)

  pub mem-append_cases : {a : A} (xs ys : List A) → Memᴰ a (xs ++ ys) → Memᴰ a xs ⊎ Memᴰ a ys
  mem-append_cases [] ys m = inr m
  mem-append_cases (x ∷ xs) ys (Memᴰ.head q) = inl (Memᴰ.head q)
  mem-append_cases (x ∷ xs) ys (Memᴰ.tail m) = elim (mem-append_cases xs ys m) [
    | inl l ↦ inl (Memᴰ.tail l)
    | inr r ↦ inr r
  ]

module _ {ℓ} {A : Type ℓ} (p : A → Bool) where
  pub first-append_of_none : (xs ys : List A) → count p xs ≡ 0 → first p (xs ++ ys) ≡ first p ys
  unfolding first count
  first-append_of_none [] ys h = refl
  first-append_of_none (x ∷ xs) ys h = elim (Bool-cases (p x)) [
    | inl e ↦ absurd (ground (arith, e))
    | inr e ↦ rw e (first-append_of_none xs ys (rw e at h))
  ]

  pub first-none_of_count : (xs : List A) → count p xs ≡ 0 → first p xs ≡ none
  unfolding first count
  first-none_of_count [] h = refl
  first-none_of_count (x ∷ xs) h = ground (arith, first-none_of_count xs)

module _ {ℓ} {A : Type ℓ} where
  pub length-append : (xs ys : List A) → length (xs ++ ys) ≡ length xs + length ys
  length-append [] ys = omega arith
  length-append (x ∷ xs) ys = omega (arith, length-append xs ys)

-- An UPDATE of some of the rows under `q`, which takes them out of it.
module _ {ℓ} {A : Type ℓ} (p q : A → Bool) (f : A → A) (off : (a : A) → q (f a) ≡ false)
    (inside : (a : A) → p a ≡ true → q a ≡ true) where
  pub count-update-add : (xs : List A) → count q (update p f xs) + count p xs ≡ count q xs
  unfolding count update
  count-update-add [] = omega arith
  count-update-add (x ∷ xs) = ground (arith, off x, inside x, count-update-add xs)

-- An UPDATE that `g` does not see, of rows whose test it does not change.
module _ {ℓ κ} {A : Type ℓ} {B : Type κ} (p q : A → Bool) (f : A → A) (g : A → B)
    (same : (a : A) → p a ≡ true → q (f a) ≡ q a) (unseen : (a : A) → g (f a) ≡ g a) where
  pub map-select-update : (xs : List A) → map g (select q (update p f xs)) ≡ map g (select q xs)
  unfolding select update
  map-select-update [] = refl
  map-select-update (x ∷ xs) = ground (arith, same x, unseen x, map-select-update xs)

-- A row that the test leaves out is not seen at the end of the table.
module _ {ℓ} {A : Type ℓ} (q : A → Bool) (r : A) (off : q r ≡ false) where
  pub select-append_off : (xs : List A) → select q (xs ++ r ∷ []) ≡ select q xs
  unfolding select
  select-append_off [] = rw off
  select-append_off (x ∷ xs) = ground (arith, select-append_off xs)

module _ {ℓ κ} {A : Type ℓ} {B : Type κ} (f : A → B) where
  pub mem-map_of_mem : {a : A} (xs : List A) → Memᴰ a xs → Memᴰ (f a) (map f xs)
  mem-map_of_mem [] m = elim m [ ]
  mem-map_of_mem (x ∷ xs) (Memᴰ.head q) = Memᴰ.head (ap f q)
  mem-map_of_mem (x ∷ xs) (Memᴰ.tail m) = Memᴰ.tail (mem-map_of_mem xs m)

  pub mem_of_mem-map : {b : B} (xs : List A) → Memᴰ b (map f xs) → (a : A) × Memᴰ a xs × (b ≡ f a)
  mem_of_mem-map [] m = elim m [ ]
  mem_of_mem-map (x ∷ xs) (Memᴰ.head q) = (x, Memᴰ.head refl, q)
  mem_of_mem-map (x ∷ xs) (Memᴰ.tail m) = let (a, n, e) = mem_of_mem-map xs m in (a, Memᴰ.tail n, e)
