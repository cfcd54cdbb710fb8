-- ===== src/Relationships/PastWalks.antt =====
-- internal/relationships/store.go: walks of the past, before and after a write.
use open_praxis.Prelude.{
  Bool, List, String, [], ap, arith, false, is_empty, ltb, refl, suc, text_lt, true, zero, ℕ, ℤ,
  ◌&&◌, ◌==◌, ◌∷◌, ◌≡◌,
}
use open_praxis.Relationships.Edge.{Edge, Table, is_valid_at}
use open_praxis.Relationships.TimeTravel.{past-create, past-remove}
use open_praxis.Relationships.Walk.{
  WalkRow, clamp_depth, expand, expand_all, in_kinds, root_row, rounds, run_walk, step_row, walk_at,
}
use open_praxis.Relationships.Write.{close, close_by, create, remove}

in_kinds-kind :
    (kinds : List String) (r s : Edge) → r.kind ≡ s.kind → in_kinds kinds r ≡ in_kinds kinds s
unfolding in_kinds
in_kinds-kind [] r s h = refl
in_kinds-kind (k ∷ ks) r s h = rw h

-- Two tables in which each row of a walk leads on to the same rows have the same walks.
module _ (visible : Edge → Bool) (kinds : List String) (max_depth : ℕ) (t u : Table)
    (same : (w : WalkRow)
      → expand visible kinds max_depth t w ≡ expand visible kinds max_depth u w) where
  expand_all-same :
      (ws : List WalkRow)
      → expand_all visible kinds max_depth t ws ≡ expand_all visible kinds max_depth u ws
  unfolding expand_all
  expand_all-same [] = refl
  expand_all-same (w ∷ ws) = rw (same w, expand_all-same ws)

  rounds-same :
      (n : ℕ) (ws : List WalkRow)
      → rounds visible kinds max_depth t n ws ≡ rounds visible kinds max_depth u n ws
  unfolding rounds
  rounds-same zero ws = refl
  rounds-same (suc n) ws =
      rw (expand_all-same ws) (rw (rounds-same n (expand_all visible kinds max_depth u ws)))

  run_walk-same :
      (id kind : String)
      → run_walk visible id kind kinds max_depth t ≡ run_walk visible id kind kinds max_depth u
  unfolding run_walk
  run_walk-same id kind = rw (rounds-same (suc max_depth) (root_row id kind ∷ []))

module _ (as_of now : String) (later : text_lt as_of now ≡ true) (kinds : List String)
    (max_depth : ℕ) where
  expand-create :
      (e : Edge) (t : Table)
      → is_empty e.valid_from ≡ true
      → (w : WalkRow)
      → expand (is_valid_at as_of) kinds max_depth (create now e t).0 w
        ≡ expand (is_valid_at as_of) kinds max_depth t w
  unfolding expand
  expand-create e t now_on w =
      past-create as_of now later (λ r. r.src_id == w.id)
        (λ r. in_kinds kinds r && ltb w.depth max_depth) (step_row w) e t now_on (λ r. refl)
        (λ r. ap (λ b. b && ltb w.depth max_depth) (in_kinds-kind kinds (close now r) r refl))
        (λ r. refl)

  expand-remove :
      (src dst kind by reason : String) (t : Table) (w : WalkRow)
      → expand (is_valid_at as_of) kinds max_depth (remove now src dst kind by reason t).0 w
        ≡ expand (is_valid_at as_of) kinds max_depth t w
  unfolding expand
  expand-remove src dst kind by reason t w =
      past-remove as_of now later (λ r. r.src_id == w.id)
        (λ r. in_kinds kinds r && ltb w.depth max_depth) (step_row w) src dst kind by reason t
        (λ r. refl)
        (λ r.
          ap (λ b. b && ltb w.depth max_depth)
            (in_kinds-kind kinds (close_by now by reason r) r refl))
        (λ r. refl)

-- WalkAt for an earlier time returns the same rows, in the same order, before and after a Create
-- that starts at `now`.
pub walk_at-create :
    (is_rfc3339 : String → Bool) (id kind : String) (kinds : List String) (max_depth : ℤ)
    (as_of now : String) (e : Edge) (t : Table)
    → is_empty as_of ≡ false
    → text_lt as_of now ≡ true
    → is_empty e.valid_from ≡ true
    → walk_at is_rfc3339 id kind kinds max_depth as_of (create now e t).0
      ≡ walk_at is_rfc3339 id kind kinds max_depth as_of t
unfolding walk_at
walk_at-create is_rfc3339 id kind kinds max_depth as_of now e t past later now_on = ground (
  arith,
  run_walk-same (is_valid_at as_of) kinds (clamp_depth max_depth) (create now e t).0 t
      (expand-create as_of now later kinds (clamp_depth max_depth) e t now_on) id kind,
)

-- A Remove at `now` does not change what WalkAt returns for an earlier time.
pub walk_at-remove :
    (is_rfc3339 : String → Bool) (id kind : String) (kinds : List String) (max_depth : ℤ)
    (as_of now src dst edge_kind by reason : String) (t : Table)
    → is_empty as_of ≡ false
    → text_lt as_of now ≡ true
    → walk_at is_rfc3339 id kind kinds max_depth as_of (remove now src dst edge_kind by reason t).0
      ≡ walk_at is_rfc3339 id kind kinds max_depth as_of t
unfolding walk_at
walk_at-remove is_rfc3339 id kind kinds max_depth as_of now src dst edge_kind by reason t past
      later =
    ground (
      arith,
      run_walk-same (is_valid_at as_of) kinds (clamp_depth max_depth)
          (remove now src dst edge_kind by reason t).0 t
          (expand-remove as_of now later kinds (clamp_depth max_depth) src dst edge_kind by reason
            t)
          id kind,
    )

-- WalkAt for an earlier time returns the same rows, in the same order, before and after a Create
-- that starts at `now`, and before and after a Remove at `now`.
pub walk_at-writes :
    (is_rfc3339 : String → Bool) (id kind : String) (kinds : List String) (max_depth : ℤ)
    (as_of now : String) (e : Edge) (src dst edge_kind by reason : String) (t : Table)
    → is_empty as_of ≡ false
    → text_lt as_of now ≡ true
    → is_empty e.valid_from ≡ true
    → (walk_at is_rfc3339 id kind kinds max_depth as_of (create now e t).0
        ≡ walk_at is_rfc3339 id kind kinds max_depth as_of t)
      × (walk_at is_rfc3339 id kind kinds max_depth as_of
            (remove now src dst edge_kind by reason t).0
          ≡ walk_at is_rfc3339 id kind kinds max_depth as_of t)
walk_at-writes is_rfc3339 id kind kinds max_depth as_of now e src dst edge_kind by reason t past
      later now_on =
    (
      walk_at-create is_rfc3339 id kind kinds max_depth as_of now e t past later now_on,
      walk_at-remove is_rfc3339 id kind kinds max_depth as_of now src dst edge_kind by reason t past
          later,
    )
