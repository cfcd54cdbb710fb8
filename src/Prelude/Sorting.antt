-- ===== src/Prelude/Sorting.antt =====
-- `sort_by` keeps the rows and puts them in order, under a total and transitive test.
use mathlib.Core.Path.{◌≡◌, refl, sym, subst}
use mathlib.Core.Logic.{◌⊎◌, inl, inr}
use mathlib.Core.Bool.{Bool, true, false}
use mathlib.Core.List.{List, [], ◌∷◌, Memᴰ}
use open_praxis.Prelude.Rows.{first, insert_by, mem-cons_cases, sort_by}
use open_praxis.Prelude.Tests.{Bool-cases}

module _ {ℓ} {A : Type ℓ} (le : A → A → Bool) where
  mem-insert_by_head : (x : A) (ys : List A) → Memᴰ x (insert_by le x ys)
  unfolding insert_by
  mem-insert_by_head x [] = Memᴰ.head refl
  mem-insert_by_head x (y ∷ ys) = elim (Bool-cases (le x y)) [
    | inl e ↦ rw e (Memᴰ.head refl)
    | inr e ↦ rw e (Memᴰ.tail (mem-insert_by_head x ys))
  ]

  mem-insert_by_tail : {a : A} (x : A) (ys : List A) → Memᴰ a ys → Memᴰ a (insert_by le x ys)
  unfolding insert_by
  mem-insert_by_tail x [] m = elim m [ ]
  mem-insert_by_tail x (y ∷ ys) (Memᴰ.head q) = elim (Bool-cases (le x y)) [
    | inl e ↦ rw e (Memᴰ.tail (Memᴰ.head q))
    | inr e ↦ rw e (Memᴰ.head q)
  ]
  mem-insert_by_tail x (y ∷ ys) (Memᴰ.tail m) = elim (Bool-cases (le x y)) [
    | inl e ↦ rw e (Memᴰ.tail (Memᴰ.tail m))
    | inr e ↦ rw e (Memᴰ.tail (mem-insert_by_tail x ys m))
  ]

  mem-insert_by_cases :
      {a : A} (x : A) (ys : List A) → Memᴰ a (insert_by le x ys) → (a ≡ x) ⊎ Memᴰ a ys
  unfolding insert_by
  mem-insert_by_cases x [] m = mem-cons_cases m
  mem-insert_by_cases x (y ∷ ys) m = elim (Bool-cases (le x y)) [
    | inl e ↦ mem-cons_cases (rw e at m)
    | inr e ↦ elim (mem-cons_cases (rw e at m)) [
      | inl q ↦ inr (Memᴰ.head q)
      | inr n ↦ elim (mem-insert_by_cases x ys n) [ inl q ↦ inl q | inr o ↦ inr (Memᴰ.tail o) ]
    ]
  ]

  pub mem-sort_by : {a : A} (xs : List A) → Memᴰ a xs → Memᴰ a (sort_by le xs)
  unfolding sort_by
  mem-sort_by [] m = m
  mem-sort_by {a} (x ∷ xs) (Memᴰ.head q) =
      subst (λ b. Memᴰ b (insert_by le x (sort_by le xs))) (sym q)
        (mem-insert_by_head x (sort_by le xs))
  mem-sort_by (x ∷ xs) (Memᴰ.tail m) = mem-insert_by_tail x (sort_by le xs) (mem-sort_by xs m)

  pub mem_of_mem-sort_by : {a : A} (xs : List A) → Memᴰ a (sort_by le xs) → Memᴰ a xs
  unfolding sort_by
  mem_of_mem-sort_by [] m = m
  mem_of_mem-sort_by (x ∷ xs) m = elim (mem-insert_by_cases x (sort_by le xs) m) [
    | inl q ↦ Memᴰ.head q
    | inr n ↦ Memᴰ.tail (mem_of_mem-sort_by xs n)
  ]

  abbrev pub IsSortedBy : List A → Type ℓ
  IsSortedBy [] = Unit
  IsSortedBy (x ∷ xs) = ((y : A) → Memᴰ y xs → le x y ≡ true) × IsSortedBy xs

  module _ (total : (a b : A) → le a b ≡ false → le b a ≡ true)
      (trans : (a b c : A) → le a b ≡ true → le b c ≡ true → le a c ≡ true) where
    insert_by-IsSortedBy : (x : A) (ys : List A) → IsSortedBy ys → IsSortedBy (insert_by le x ys)
    unfolding insert_by
    insert_by-IsSortedBy x [] s = ((λ y m. elim m [ ]), tt)
    insert_by-IsSortedBy x (y ∷ ys) (first, rest) = elim (Bool-cases (le x y)) [
      | inl e ↦ rw e (
        (λ z m. elim (mem-cons_cases m) [ inl q ↦ rw q e | inr n ↦ trans x y z e (first z n) ]),
        (first, rest),
      )
      | inr e ↦ rw e (
        (λ z m. elim (mem-insert_by_cases x ys m) [
          | inl q ↦ rw q (total x y e)
          | inr n ↦ first z n
        ]),
        insert_by-IsSortedBy x ys rest,
      )
    ]

    pub sort_by-IsSortedBy : (xs : List A) → IsSortedBy (sort_by le xs)
    unfolding sort_by
    sort_by-IsSortedBy [] = tt
    sort_by-IsSortedBy (x ∷ xs) = insert_by-IsSortedBy x (sort_by le xs) (sort_by-IsSortedBy xs)
