-- ===== src/Relationships/Levels.antt =====
-- internal/relationships/store.go: paths in the graph, and the rows that one round of the CTE
-- adds.
use mathlib.Core.Path.{subst}
use open_praxis.Prelude.{
  Bool, List, Memᴰ, String, [], arith, eq_iff, inl, inr, mem-append_cases, mem-append_left,
  mem-append_right, mem-map_of_mem, mem-select_of_test, mem_of_mem-map, mem_of_mem-select, refl,
  select, suc, test_of_mem-select, true, ℕ, ◌<◌, ◌∷◌, ◌≡◌,
}
use open_praxis.Relationships.Edge.{Edge, Table}
use open_praxis.Relationships.Walk.{WalkRow, expand, expand_all, follows, in_kinds, step_row}

-- A path of `n` visible edges of the wanted kinds from `a` to `b`.
pub data Reaches (visible : Edge → Bool) (kinds : List String) (t : Table) (a : String)
    : ℕ → String → Type 0 where
  here : {n : ℕ} {b : String} → n ≡ 0 → b ≡ a → Reaches visible kinds t a n b
  hop :
      {n : ℕ} {b : String} (m : ℕ) (c : String) (r : Edge)
      → Reaches visible kinds t a m c
      → Memᴰ r t
      → r.src_id ≡ c
      → visible r ≡ true
      → in_kinds kinds r ≡ true
      → n ≡ suc m
      → b ≡ r.dst_id
      → Reaches visible kinds t a n b

module _ (visible : Edge → Bool) (kinds : List String) (max_depth : ℕ) (t : Table) where
  pub follows_sound :
      (w : WalkRow) (r : Edge)
      → follows visible kinds max_depth t w r ≡ true
      → (r.src_id ≡ w.id) × (visible r ≡ true) × (in_kinds kinds r ≡ true) × (w.depth < max_depth)
  unfolding follows
  follows_sound w r h = ground (arith, eq_iff r.src_id w.id)

  pub follows_complete :
      (w : WalkRow) (r : Edge)
      → r.src_id ≡ w.id
      → visible r ≡ true
      → in_kinds kinds r ≡ true
      → w.depth < max_depth
      → follows visible kinds max_depth t w r ≡ true
  unfolding follows
  follows_complete w r e v k d = ground (arith, eq_iff r.src_id w.id)

  pub mem-expand_all :
      (w : WalkRow) (ws : List WalkRow) (r : Edge)
      → Memᴰ w ws
      → Memᴰ r t
      → follows visible kinds max_depth t w r ≡ true
      → Memᴰ (step_row w r) (expand_all visible kinds max_depth t ws)
  unfolding expand_all expand
  mem-expand_all w [] r m n h = elim m [ ]
  mem-expand_all w (x ∷ ws) r (Memᴰ.head q) n h =
      mem-append_left (expand visible kinds max_depth t x) (expand_all visible kinds max_depth t ws)
        (subst (λ y. Memᴰ (step_row w r) (expand visible kinds max_depth t y)) q
          (mem-map_of_mem (step_row w) _
            (mem-select_of_test (follows visible kinds max_depth t w) t n h)))
  mem-expand_all w (x ∷ ws) r (Memᴰ.tail m) n h =
      mem-append_right (expand visible kinds max_depth t x) _ (mem-expand_all w ws r m n h)

  mem_of_mem-expand :
      {v : WalkRow} (w : WalkRow)
      → Memᴰ v (expand visible kinds max_depth t w)
      → (r : Edge) × Memᴰ r t × (follows visible kinds max_depth t w r ≡ true) × (v ≡ step_row w r)
  unfolding expand
  mem_of_mem-expand w m =
      let (r, n, e) =
        mem_of_mem-map (step_row w) (select (follows visible kinds max_depth t w) t) m in
      (
        r,
        mem_of_mem-select (follows visible kinds max_depth t w) t n,
        test_of_mem-select (follows visible kinds max_depth t w) t n,
        e,
      )

  pub mem_of_mem-expand_all :
      {v : WalkRow} (ws : List WalkRow)
      → Memᴰ v (expand_all visible kinds max_depth t ws)
      → (w : WalkRow) × (r : Edge) × Memᴰ w ws
        × Memᴰ r t
        × (follows visible kinds max_depth t w r ≡ true)
        × (v ≡ step_row w r)
  unfolding expand_all
  mem_of_mem-expand_all [] m = elim m [ ]
  mem_of_mem-expand_all (x ∷ ws) m =
      elim (mem-append_cases (expand visible kinds max_depth t x)
        (expand_all visible kinds max_depth t ws) m) [
          | inl l ↦ let (r, n, f, e) = mem_of_mem-expand x l in (x, r, Memᴰ.head refl, n, f, e)
          | inr l ↦
              let (w, r, o, n, f, e) = mem_of_mem-expand_all ws l in (w, r, Memᴰ.tail o, n, f, e)
        ]
