-- ===== src/Relationships/Read.antt =====
-- The readers. `is_rfc3339` stands for `time.Parse(time.RFC3339Nano, s)` returning no error.
-- A SELECT without ORDER BY returns its rows in table order, one of the orders that SQL allows.
use open_praxis.Prelude.{
  Bool, List, Option, String, [], any, contains, count, first, if◌then◌else◌, is_empty, length,
  none, not, select, some, sort_by, text_le, ℕ, ◌&&◌, ◌++◌, ◌==◌, ◌||◌, ◌∷◌,
}
use open_praxis.Relationships.Edge.{
  Edge, Error, Result, Table, bad_as_of, empty_id, err, invalid_kind, is_current, is_current_edge,
  is_edge, is_valid_at, ok, valid_edge_kind,
}

-- The optional ` AND kind = ?`: an empty edge kind filters nothing.
unfoldable pub has_kind : String → Edge → Bool
has_kind kind r = is_empty kind || r.kind == kind

-- The shape that ListOutgoing and ListIncoming share; `field` is the column that is matched.
unfoldable pub list_current : (Edge → String) → String → String → Table → Result (List Edge)
list_current field id kind t =
    if is_empty id
    then err empty_id
    else if not (is_empty kind) && not (valid_edge_kind kind)
    then err invalid_kind
    else ok (select (λ r. field r == id && (is_current r && has_kind kind r)) t)

unfoldable pub list_outgoing : String → String → Table → Result (List Edge)
unfolding list_current
list_outgoing = list_current (λ r. r.src_id)

unfoldable pub list_incoming : String → String → Table → Result (List Edge)
unfolding list_current
list_incoming = list_current (λ r. r.dst_id)

-- validateAsOf, ahead of the readers that travel in time.
module _ (is_rfc3339 : String → Bool) where
  unfoldable pub validate_as_of : String → Option Error
  validate_as_of as_of =
      if is_empty as_of then none else if is_rfc3339 as_of then none else some bad_as_of

  unfoldable pub list_at : (Edge → String) → String → String → String → Table → Result (List Edge)
  unfolding validate_as_of
  list_at field id kind as_of t =
      if is_empty id
      then err empty_id
      else if not (is_empty kind) && not (valid_edge_kind kind)
      then err invalid_kind
      else elim (validate_as_of as_of) [
        | some x ↦ err x
        | none ↦
            if is_empty as_of
            then list_current field id kind t
            else ok (select (λ r. field r == id && (is_valid_at as_of r && has_kind kind r)) t)
      ]

  unfoldable pub list_outgoing_at : String → String → String → Table → Result (List Edge)
  unfolding list_at list_current
  list_outgoing_at = list_at (λ r. r.src_id)

  unfoldable pub list_incoming_at : String → String → String → Table → Result (List Edge)
  unfolding list_at list_current
  list_incoming_at = list_at (λ r. r.dst_id)

-- `ORDER BY valid_from ASC`
unfoldable pub history : String → String → String → Table → Result (List Edge)
history src dst kind t =
    if is_empty src || is_empty dst
    then err empty_id
    else if not (valid_edge_kind kind)
    then err invalid_kind
    else ok (sort_by (λ a b. text_le a.valid_from b.valid_from) (select (is_edge src dst kind) t))

-- `LIMIT 1`: the first row, if any.
unfoldable pub get : String → String → String → Table → Result (Option Edge)
get src dst kind t =
    if is_empty src || is_empty dst
    then err empty_id
    else if not (valid_edge_kind kind)
    then err invalid_kind
    else ok (first (is_current_edge src dst kind) t)

pub record HealthStats : Type 0 where
  pub current_edges : ℕ
  pub total_rows : ℕ

unfoldable pub health : Table → HealthStats
health t = record { current_edges = count is_current t; total_rows = length t }

-- `out[k] = append(out[k], e)` on a Go map, as an association list.
unfoldable pub append_at : String → Edge → List (String × List Edge) → List (String × List Edge)
append_at k e [] = (k, e ∷ []) ∷ []
append_at k e ((j, es) ∷ m) = if j == k then (j, es ++ e ∷ []) ∷ m else (j, es) ∷ append_at k e m

unfoldable pub group_rows :
    (Edge → String) → List Edge → List (String × List Edge) → List (String × List Edge)
unfolding append_at
group_rows field [] m = m
group_rows field (e ∷ es) m = group_rows field es (append_at (field e) e m)

-- The shape that ListOutgoingForMany and ListIncomingForMany share.
unfoldable pub list_for_many :
    (Edge → String) → List String → String → Table → Result (List (String × List Edge))
unfolding group_rows
list_for_many field [] kind t = ok []
list_for_many field (id ∷ ids) kind t =
    if any is_empty (id ∷ ids)
    then err empty_id
    else if not (is_empty kind) && not (valid_edge_kind kind)
    then err invalid_kind
    else ok (
        group_rows field
          (select (λ r. contains (id ∷ ids) (field r) && (is_current r && has_kind kind r)) t) [])

unfoldable pub list_outgoing_for_many :
    List String → String → Table → Result (List (String × List Edge))
unfolding list_for_many
list_outgoing_for_many = list_for_many (λ r. r.src_id)

unfoldable pub list_incoming_for_many :
    List String → String → Table → Result (List (String × List Edge))
unfolding list_for_many
list_incoming_for_many = list_for_many (λ r. r.dst_id)
