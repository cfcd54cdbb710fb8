-- ===== src/Relationships/Rounds.antt =====
-- internal/relationships/store.go: the rounds of the recursive CTE next to paths in the graph.
use native.Mathlib.Nat.{suc-add}
use native.Mathlib.Numerals.{add-one}
use open_praxis.Prelude.{
  Bool, List, Memᴰ, String, [], ap, arith, inl, inr, mem-append_cases, mem-append_left,
  mem-append_right, refl, suc, sym, true, zero, ℕ, ◌++◌, ◌+◌, ◌<◌, ◌∙◌, ◌∷◌, ◌≡◌, ◌≤◌,
}
use open_praxis.Relationships.Edge.{Edge, Table}
use open_praxis.Relationships.Levels.{
  Reaches, follows_complete, follows_sound, mem-expand_all, mem_of_mem-expand_all,
}
use open_praxis.Relationships.Walk.{WalkRow, expand_all, follows, root_row, rounds, step_row}

none_left {ℓ} : {A : Type ℓ} (xs : List A) → ((a : A) → Memᴰ a xs → ⊥) → xs ≡ []
none_left [] h = refl
none_left (x ∷ xs) h = absurd (h x (Memᴰ.head refl))

module _ (visible : Edge → Bool) (kinds : List String) (max_depth : ℕ) (t : Table) where
  -- What `IsFound` says of a row: it ends a path of its depth, within the limit.
  module _ (a : String) where
    abbrev IsFound : WalkRow → Type 0
    IsFound w = Reaches visible kinds t a w.depth w.id × (w.depth ≤ max_depth)

    step_row-IsFound :
        (w : WalkRow) (r : Edge) {v : WalkRow}
        → Memᴰ r t
        → follows visible kinds max_depth t w r ≡ true
        → v ≡ step_row w r
        → IsFound w
        → IsFound v
    step_row-IsFound w r n f e (path, _) =
        let (src, seen, wanted, room) = follows_sound visible kinds max_depth t w r f in
        (
          Reaches.hop w.depth w.id r path n src seen wanted (ap (λ x. x.depth) e ∙ add-one w.depth)
              (ap (λ x. x.id) e),
          omega (arith, ap (λ x. x.depth) e),
        )

    expand_all-IsFound :
        (ws : List WalkRow)
        → ((w : WalkRow) → Memᴰ w ws → IsFound w)
        → (v : WalkRow) → Memᴰ v (expand_all visible kinds max_depth t ws)
        → IsFound v
    expand_all-IsFound ws h v m =
        let (w, r, o, n, f, e) = mem_of_mem-expand_all visible kinds max_depth t ws m in
        step_row-IsFound w r n f e (h w o)

    pub rounds-IsFound :
        (n : ℕ) (ws : List WalkRow)
        → ((w : WalkRow) → Memᴰ w ws → IsFound w)
        → (v : WalkRow) → Memᴰ v (rounds visible kinds max_depth t n ws)
        → IsFound v
    unfolding rounds
    rounds-IsFound zero ws h v m = elim m [ ]
    rounds-IsFound (suc n) ws h v m =
        elim (mem-append_cases ws
          (rounds visible kinds max_depth t n (expand_all visible kinds max_depth t ws)) m) [
            | inl l ↦ h v l
            | inr l ↦
                rounds-IsFound n (expand_all visible kinds max_depth t ws) (expand_all-IsFound ws h)
                  v l
          ]

  -- The rows of one round.
  pub level : ℕ → List WalkRow → List WalkRow
  level zero ws = ws
  level (suc n) ws = expand_all visible kinds max_depth t (level n ws)

  level-shift :
      (n : ℕ) (ws : List WalkRow)
      → level n (expand_all visible kinds max_depth t ws) ≡ level (suc n) ws
  unfolding level
  level-shift zero ws = refl
  level-shift (suc n) ws = ap (expand_all visible kinds max_depth t) (level-shift n ws)

  mem-rounds :
      (n : ℕ) (fuel : ℕ) (ws : List WalkRow) {w : WalkRow}
      → Memᴰ w (level n ws)
      → n < fuel
      → Memᴰ w (rounds visible kinds max_depth t fuel ws)
  unfolding level rounds
  mem-rounds n zero ws m h = elim h [ ]
  mem-rounds zero (suc fuel) ws m h = mem-append_left ws _ m
  mem-rounds (suc n) (suc fuel) ws m h = mem-append_right ws _ (
      mem-rounds n fuel (expand_all visible kinds max_depth t ws) (rw (sym (level-shift n ws)) at m)
        (omega arith))

  mem-level :
      (a kind : String) {n : ℕ} {b : String}
      → Reaches visible kinds t a n b
      → n ≤ max_depth
      → (w : WalkRow) × Memᴰ w (level n (root_row a kind ∷ [])) × (w.id ≡ b) × (w.depth ≡ n)
  unfolding level
  mem-level a kind (Reaches.here p q) h = (root_row a kind, rw p (Memᴰ.head refl), sym q, sym p)
  mem-level a kind (Reaches.hop m c r path n src seen wanted p q) h =
      let (w, o, i, d) = mem-level a kind path (omega arith) in
      (
        step_row w r,
        rw p (
            mem-expand_all visible kinds max_depth t w (level m (root_row a kind ∷ [])) r o n (
              follows_complete visible kinds max_depth t w r (src ∙ sym i) seen wanted
                (omega arith))),
        sym q,
        omega arith,
      )

  -- A path of at most max_depth edges has a row of its length.
  pub rounds_complete :
      (a kind : String) {n : ℕ} {b : String}
      → Reaches visible kinds t a n b
      → n ≤ max_depth
      → (w : WalkRow) × Memᴰ w
          (rounds visible kinds max_depth t (suc max_depth) (root_row a kind ∷ []))
        × (w.id ≡ b)
        × (w.depth ≡ n)
  rounds_complete a kind {n} path h =
      let (w, o, i, d) = mem-level a kind path h in
      (w, mem-rounds n (suc max_depth) (root_row a kind ∷ []) o (omega arith), i, d)

  -- Rows at the limit lead nowhere.
  expand_all_limit :
      (ws : List WalkRow)
      → ((w : WalkRow) → Memᴰ w ws → w.depth ≡ max_depth)
      → expand_all visible kinds max_depth t ws ≡ []
  expand_all_limit ws h = none_left (expand_all visible kinds max_depth t ws) λ v m.
      let (w, r, o, n, f, e) = mem_of_mem-expand_all visible kinds max_depth t ws m in
      absurd (omega (arith, h w o, (follows_sound visible kinds max_depth t w r f).3))

  rounds-nil : (n : ℕ) → rounds visible kinds max_depth t n [] ≡ []
  unfolding rounds expand_all
  rounds-nil zero = refl
  rounds-nil (suc n) = rounds-nil n

  -- From rows of depth d, `max_depth - d + 1` rounds are all that have rows.
  rounds_enough :
      (j k d : ℕ) (ws : List WalkRow)
      → d + j ≡ max_depth
      → ((w : WalkRow) → Memᴰ w ws → w.depth ≡ d)
      → rounds visible kinds max_depth t (suc (j + k)) ws
        ≡ rounds visible kinds max_depth t (suc j) ws
  unfolding rounds
  rounds_enough zero k d ws e h =
      rw (expand_all_limit ws (λ w m. h w m ∙ omega arith), rounds-nil (0 + k))
  rounds_enough (suc j) k d ws e h =
      let next = expand_all visible kinds max_depth t ws in
      ap (λ l. ws ++ l)
        (ap (λ n. rounds visible kinds max_depth t n next) (suc-add j k)
          ∙ rounds_enough j k (suc d) next (omega arith) (λ v m.
            let (w, r, o, n, f, i) = mem_of_mem-expand_all visible kinds max_depth t ws m in
            ap (λ x. x.depth) i ∙ omega (arith, h w o)))

  root_depth : (a kind : String) (w : WalkRow) → Memᴰ w (root_row a kind ∷ []) → w.depth ≡ 0
  root_depth a kind w (Memᴰ.head e) = ap (λ x. x.depth) e
  root_depth a kind w (Memᴰ.tail m) = elim m [ ]

  -- The recursion of the walk ends by the depth guard: more rounds than max_depth + 1 add no row.
  pub rounds_fuel :
      (a kind : String) (k : ℕ)
      → rounds visible kinds max_depth t (suc max_depth + k) (root_row a kind ∷ [])
        ≡ rounds visible kinds max_depth t (suc max_depth) (root_row a kind ∷ [])
  rounds_fuel a kind k =
      ap (λ n. rounds visible kinds max_depth t n (root_row a kind ∷ [])) (suc-add max_depth k)
      ∙ rounds_enough max_depth k 0 (root_row a kind ∷ []) (omega arith) (root_depth a kind)
