-- ===== src/Relationships/Edge.antt =====
-- internal/relationships/store.go: the rows of the table, the enumerated kinds and the validation
-- of an edge.
use open_praxis.Prelude.{
  Bool, List, Option, String, [], contains, if◌then◌else◌, is_empty, none, not, some, text_le,
  text_lt, ◌&&◌, ◌==◌, ◌||◌, ◌∷◌,
}

-- The sentinel errors, and those that the store makes inline: a missing valid_from on a backfill,
-- an unparsable as_of, and the refusal of an INSERT by the primary key.
pub data Error : Type 0 where
  invalid_kind self_loop empty_id missing_valid_from bad_as_of key_conflict : Error

pub data Result (A : Type 0) : Type 0 where
  ok : A → Result A
  err : Error → Result A

pub record Edge : Type 0 where
  pub src_kind : String
  pub src_id : String
  pub dst_kind : String
  pub dst_id : String
  pub kind : String
  pub metadata : String
  pub valid_from : String
  pub valid_to : String
  pub created_by : String
  pub reason : String
  pub created_at : String

abbrev pub Table : Type 0
Table = List Edge

abbrev pub all_edge_kinds : List String
all_edge_kinds = "owns" ∷ "depends_on" ∷ []

abbrev pub valid_kind : String → Bool
valid_kind k = not (is_empty k)

unfoldable pub valid_edge_kind : String → Bool
unfolding contains
valid_edge_kind k = contains all_edge_kinds k

-- PRIMARY KEY (src_id, dst_id, kind, valid_from)
unfoldable pub same_key : Edge → Edge → Bool
same_key a b =
    a.src_id == b.src_id
    && (a.dst_id == b.dst_id && (a.kind == b.kind && a.valid_from == b.valid_from))

-- `src_id = ? AND dst_id = ? AND kind = ?`
unfoldable pub is_edge : String → String → String → Edge → Bool
is_edge src dst kind r = r.src_id == src && (r.dst_id == dst && r.kind == kind)

-- `valid_to = ''`
unfoldable pub is_current : Edge → Bool
is_current r = is_empty r.valid_to

-- `src_id = ? AND dst_id = ? AND kind = ? AND valid_to = ''`
unfoldable pub is_current_edge : String → String → String → Edge → Bool
is_current_edge src dst kind r = is_edge src dst kind r && is_current r

-- `valid_from <= ? AND (valid_to > ? OR valid_to = '')`
unfoldable pub is_valid_at : String → Edge → Bool
is_valid_at as_of r =
    text_le r.valid_from as_of && (text_lt as_of r.valid_to || is_empty r.valid_to)

-- The checks that Create makes, in its order.
unfoldable pub check_edge : Edge → Option Error
check_edge e =
    if is_empty e.src_id || is_empty e.dst_id
    then some empty_id
    else if not (valid_kind e.src_kind)
    then some invalid_kind
    else if not (valid_kind e.dst_kind)
    then some invalid_kind
    else if not (valid_edge_kind e.kind)
    then some invalid_kind
    else if e.src_id == e.dst_id
    then some self_loop
    else none

unfoldable pub validate_backfill_edge : Edge → Option Error
unfolding check_edge
validate_backfill_edge e = elim (check_edge e) [
  | some x ↦ some x
  | none ↦ if is_empty e.valid_from then some missing_valid_from else none
]
