-- ===== src/Relationships/Walk.antt =====
-- Walk and WalkAt: the recursive CTE, the stable sort by depth and the removal of repeated nodes.
use open_praxis.Prelude.{
  Bool, List, Option, String, [], contains, if◌then◌else◌, is_empty, leb, ltb, map, negsuc, none,
  not, pos, select, some, sort_by, suc, true, zero, ℕ, ℤ, ◌&&◌, ◌++◌, ◌+◌, ◌==◌, ◌∷◌,
}
use open_praxis.Relationships.Edge.{
  Edge, Error, Result, Table, empty_id, err, invalid_kind, is_current, is_valid_at, ok,
  valid_edge_kind, valid_kind,
}
use open_praxis.Relationships.Read.{validate_as_of}

pub record WalkRow : Type 0 where
  pub id : String
  pub kind : String
  pub via_kind : String
  pub via_src : String
  pub depth : ℕ

abbrev pub max_walk_depth : ℕ
max_walk_depth = 100

unfoldable pub clamp_depth : ℤ → ℕ
clamp_depth (pos n) = if ltb max_walk_depth n then max_walk_depth else n
clamp_depth (negsuc n) = max_walk_depth

-- buildKindFilter: the error of the first bad kind, else the clause `AND r.kind IN (…)`, which an
-- empty list leaves out.
unfoldable pub build_kind_filter : List String → Option Error
build_kind_filter [] = none
build_kind_filter (k ∷ ks) =
    if not (valid_edge_kind k) then some invalid_kind else build_kind_filter ks

unfoldable pub in_kinds : List String → Edge → Bool
in_kinds [] r = true
in_kinds (k ∷ ks) r = contains (k ∷ ks) r.kind

abbrev pub root_row : String → String → WalkRow
root_row id kind = record { id = id; kind = kind; via_kind = ""; via_src = ""; depth = 0 }

-- `SELECT r.dst_id, r.dst_kind, r.kind, r.src_id, w.depth + 1`
abbrev pub step_row : WalkRow → Edge → WalkRow
step_row w r = record {
  id = r.dst_id;
  kind = r.dst_kind;
  via_kind = r.kind;
  via_src = r.src_id;
  depth = w.depth + 1;
}

-- The recursive member of the CTE, over the edges that `visible` lets through.
module _ (visible : Edge → Bool) (kinds : List String) (max_depth : ℕ) (t : Table) where
  -- `JOIN walk w ON r.src_id = w.id WHERE <visible> AND r.kind IN (…) AND w.depth < ?`
  unfoldable pub follows : WalkRow → Edge → Bool
  follows w r = r.src_id == w.id && (visible r && (in_kinds kinds r && ltb w.depth max_depth))

  unfoldable pub expand : WalkRow → List WalkRow
  unfolding follows
  expand w = map (step_row w) (select (follows w) t)

  unfoldable pub expand_all : List WalkRow → List WalkRow
  unfolding expand
  expand_all [] = []
  expand_all (w ∷ ws) = expand w ++ expand_all ws

  -- UNION ALL: each round joins the rows of the round before. The fuel counts the rounds.
  unfoldable pub rounds : ℕ → List WalkRow → List WalkRow
  unfolding expand_all
  rounds zero ws = []
  rounds (suc n) ws = ws ++ rounds n (expand_all ws)

-- First occurrence per id wins.
unfoldable pub dedupe : List String → List WalkRow → List WalkRow
dedupe seen [] = []
dedupe seen (w ∷ ws) =
    let kept = w ∷ dedupe (w.id ∷ seen) ws in
    let dropped = dedupe seen ws in if contains seen w.id then dropped else kept

unfoldable pub by_depth : WalkRow → WalkRow → Bool
by_depth v w = leb v.depth w.depth

-- The rows at depth d come from round d, so `max_depth + 1` rounds are all that have rows.
unfoldable pub run_walk : (Edge → Bool) → String → String → List String → ℕ → Table → List WalkRow
unfolding rounds dedupe by_depth
run_walk visible id kind kinds max_depth t =
    dedupe []
      (sort_by by_depth (rounds visible kinds max_depth t (suc max_depth) (root_row id kind ∷ [])))

unfoldable pub walk : String → String → List String → ℤ → Table → Result (List WalkRow)
unfolding run_walk clamp_depth build_kind_filter
walk id kind kinds max_depth t =
    if is_empty id
    then err empty_id
    else if not (valid_kind kind)
    then err invalid_kind
    else elim (build_kind_filter kinds) [
      | some x ↦ err x
      | none ↦ ok (run_walk is_current id kind kinds (clamp_depth max_depth) t)
    ]

unfoldable pub walk_at :
    (String → Bool) → String → String → List String → ℤ → String → Table → Result (List WalkRow)
unfolding walk
walk_at is_rfc3339 id kind kinds max_depth as_of t =
    if is_empty id
    then err empty_id
    else if not (valid_kind kind)
    then err invalid_kind
    else elim (validate_as_of is_rfc3339 as_of) [
      | some x ↦ err x
      | none ↦
          if is_empty as_of
          then walk id kind kinds max_depth t
          else elim (build_kind_filter kinds) [
            | some x ↦ err x
            | none ↦ ok (run_walk (is_valid_at as_of) id kind kinds (clamp_depth max_depth) t)
          ]
    ]
