-- ===== src/Relationships/Shortest.antt =====
-- internal/relationships/store.go: the rows of Walk and WalkAt next to shortest paths.
use mathlib.Core.Bool.{false≢true}
use open_praxis.Prelude.{
  Bool, Bool-cases, IsSortedBy, List, Memᴰ, String, [], ap, arith, contains, eq_iff, false, inl,
  inr, is_empty, mem-cons_cases, mem-sort_by, mem_of_mem-sort_by, none, refl, sort_by,
  sort_by-IsSortedBy, suc, sym, true, ℕ, ℤ, ◌==◌, ◌∙◌, ◌∷◌, ◌≡◌, ◌≤◌,
}
use open_praxis.Relationships.Edge.{Edge, Table, is_current, is_valid_at, ok}
use open_praxis.Relationships.Levels.{Reaches}
use open_praxis.Relationships.Read.{validate_as_of}
use open_praxis.Relationships.Rounds.{rounds-IsFound, rounds_complete}
use open_praxis.Relationships.Walk.{
  WalkRow, build_kind_filter, by_depth, clamp_depth, dedupe, root_row, rounds, run_walk, walk,
  walk_at,
}

mem_of_mem-dedupe :
    {w : WalkRow} (seen : List String) (ws : List WalkRow) → Memᴰ w (dedupe seen ws) → Memᴰ w ws
unfolding dedupe
mem_of_mem-dedupe seen [] m = m
mem_of_mem-dedupe seen (x ∷ ws) m = elim (Bool-cases (contains seen x.id)) [
  | inl e ↦ Memᴰ.tail (mem_of_mem-dedupe seen ws (rw e at m))
  | inr e ↦ elim (mem-cons_cases (rw e at m)) [
    | inl q ↦ Memᴰ.head q
    | inr n ↦ Memᴰ.tail (mem_of_mem-dedupe (x.id ∷ seen) ws n)
  ]
]

unseen_of_mem-dedupe :
    {w : WalkRow} (seen : List String) (ws : List WalkRow)
    → Memᴰ w (dedupe seen ws)
    → contains seen w.id ≡ false
unfolding dedupe contains
unseen_of_mem-dedupe seen [] m = elim m [ ]
unseen_of_mem-dedupe {w} seen (x ∷ ws) m = elim (Bool-cases (contains seen x.id)) [
  | inl e ↦ unseen_of_mem-dedupe seen ws (rw e at m)
  | inr e ↦ elim (mem-cons_cases (rw e at m)) [
    | inl q ↦ ap (λ v. contains seen v.id) q ∙ e
    | inr n ↦ ground (arith, unseen_of_mem-dedupe (x.id ∷ seen) ws n)
  ]
]

-- No id occurs twice.
abbrev pub HasDistinctIds : List WalkRow → Type 0
HasDistinctIds [] = Unit
HasDistinctIds (w ∷ ws) = ((v : WalkRow) → Memᴰ v ws → (w.id == v.id) ≡ false) × HasDistinctIds ws

dedupe-HasDistinctIds : (seen : List String) (ws : List WalkRow) → HasDistinctIds (dedupe seen ws)
unfolding dedupe contains
dedupe-HasDistinctIds seen [] = tt
dedupe-HasDistinctIds seen (x ∷ ws) = elim (Bool-cases (contains seen x.id)) [
  | inl e ↦ rw e (dedupe-HasDistinctIds seen ws)
  | inr e ↦ rw e (
    (λ v m. ground (arith, unseen_of_mem-dedupe (x.id ∷ seen) ws m)),
    dedupe-HasDistinctIds (x.id ∷ seen) ws,
  )
]

-- The row that is kept for an id is the first, which in a list sorted by depth is a nearest.
dedupe_nearest :
    (seen : List String) (ws : List WalkRow) {w : WalkRow}
    → IsSortedBy by_depth ws
    → Memᴰ w ws
    → contains seen w.id ≡ false
    → (v : WalkRow) × Memᴰ v (dedupe seen ws) × (v.id ≡ w.id) × (v.depth ≤ w.depth)
unfolding dedupe contains by_depth
dedupe_nearest seen [] s m h = elim m [ ]
dedupe_nearest seen (x ∷ ws) {w} s m h = elim (Bool-cases (contains seen x.id)) [
  | inl e ↦ elim (mem-cons_cases m) [
    | inl q ↦ absurd (false≢true (sym h ∙ ap (λ v. contains seen v.id) q ∙ e))
    | inr n ↦ let (v, o, i, d) = dedupe_nearest seen ws s.1 n h in (v, rw e o, i, d)
  ]
  | inr e ↦ elim (mem-cons_cases m) [
    | inl q ↦ (x, rw e (Memᴰ.head refl), ap (λ v. v.id) (sym q), omega (arith, ap (λ v. v.depth) q))
    | inr n ↦ elim (Bool-cases (x.id == w.id)) [
      | inl i ↦ (x, rw e (Memᴰ.head refl), (eq_iff x.id w.id).0 i, ground (arith, s.0 w n))
      | inr i ↦
          let (v, o, j, d) = dedupe_nearest (x.id ∷ seen) ws s.1 n (rw i h) in
          (v, rw e (Memᴰ.tail o), j, d)
    ]
  ]
]

by_depth-total : (a b : WalkRow) → by_depth a b ≡ false → by_depth b a ≡ true
unfolding by_depth
by_depth-total a b h = ground arith

by_depth_trans : (a b c : WalkRow) → by_depth a b ≡ true → by_depth b c ≡ true → by_depth a c ≡ true
unfolding by_depth
by_depth_trans a b c h k = ground arith

module _ (visible : Edge → Bool) (id : String) (kinds : List String) (max_depth : ℕ)
    (t : Table) where
  -- What a walk promises of its rows: each ends a path of its depth, within the limit; each path
  -- within the limit ends at a row that is no deeper; no id is listed twice.
  pub record IsShortestPaths (rows : List WalkRow) : Type 0 where
    pub sound :
        (w : WalkRow)
        → Memᴰ w rows
        → Reaches visible kinds t id w.depth w.id × (w.depth ≤ max_depth)
    pub complete :
        (n : ℕ) (b : String)
        → Reaches visible kinds t id n b
        → n ≤ max_depth
        → (w : WalkRow) × Memᴰ w rows × (w.id ≡ b) × (w.depth ≤ n)
    pub distinct : HasDistinctIds rows

  root_found :
      (kind : String) (w : WalkRow)
      → Memᴰ w (root_row id kind ∷ [])
      → Reaches visible kinds t id w.depth w.id × (w.depth ≤ max_depth)
  root_found kind w (Memᴰ.head e) =
      (Reaches.here (ap (λ v. v.depth) e) (ap (λ v. v.id) e), omega (arith, ap (λ v. v.depth) e))
  root_found kind w (Memᴰ.tail m) = elim m [ ]

  run_walk-IsShortestPaths :
      (kind : String) → IsShortestPaths (run_walk visible id kind kinds max_depth t)
  unfolding run_walk contains
  run_walk-IsShortestPaths kind =
      let raw : List WalkRow =
        rounds visible kinds max_depth t (suc max_depth) (root_row id kind ∷ []) in
      record {
        sound = λ w m.
            rounds-IsFound visible kinds max_depth t id (suc max_depth) (root_row id kind ∷ [])
              (root_found kind) w
              (mem_of_mem-sort_by by_depth raw (mem_of_mem-dedupe [] (sort_by by_depth raw) m));
        complete = λ n b path h.
            let (w, m, i, d) = rounds_complete visible kinds max_depth t id kind path h in
            let (v, o, j, e) =
              dedupe_nearest [] (sort_by by_depth raw) {w = w}
                (sort_by-IsSortedBy by_depth by_depth-total by_depth_trans raw)
                (mem-sort_by by_depth raw m) refl in
            (v, o, j ∙ i, omega (arith, e, d));
        distinct = dedupe-HasDistinctIds [] (sort_by by_depth raw);
      }

-- For a root id and kind that are not empty and valid edge kinds, Walk returns, and its rows are
-- the shortest paths from the root over current edges of those kinds, up to the clamped depth: each
-- row ends a path of its depth, each path within the depth ends at a row that is no deeper, and no
-- id is listed twice.
pub walk-IsShortestPaths :
    (id kind : String) (kinds : List String) (max_depth : ℤ) (t : Table)
    → is_empty id ≡ false
    → is_empty kind ≡ false
    → build_kind_filter kinds ≡ none
    → (rows : List WalkRow) × (walk id kind kinds max_depth t ≡ ok rows)
      × IsShortestPaths is_current id kinds (clamp_depth max_depth) t rows
unfolding walk
walk-IsShortestPaths id kind kinds max_depth t named typed valid = (
  run_walk is_current id kind kinds (clamp_depth max_depth) t,
  rw (named, typed, valid),
  run_walk-IsShortestPaths is_current id kinds (clamp_depth max_depth) t kind,
)

-- For a root id and kind that are not empty, valid edge kinds and a timestamp that parses, WalkAt
-- returns the shortest paths from the root over the edges of those kinds that were valid at the
-- timestamp, up to the clamped depth.
pub walk_at-IsShortestPaths :
    (is_rfc3339 : String → Bool) (id kind : String) (kinds : List String) (max_depth : ℤ)
    (as_of : String) (t : Table)
    → is_empty id ≡ false
    → is_empty kind ≡ false
    → build_kind_filter kinds ≡ none
    → is_empty as_of ≡ false
    → is_rfc3339 as_of ≡ true
    → (rows : List WalkRow) × (walk_at is_rfc3339 id kind kinds max_depth as_of t ≡ ok rows)
      × IsShortestPaths (is_valid_at as_of) id kinds (clamp_depth max_depth) t rows
unfolding walk_at validate_as_of
walk_at-IsShortestPaths is_rfc3339 id kind kinds max_depth as_of t named typed valid past parses = (
  run_walk (is_valid_at as_of) id kind kinds (clamp_depth max_depth) t,
  ground arith,
  run_walk-IsShortestPaths (is_valid_at as_of) id kinds (clamp_depth max_depth) t kind,
)
