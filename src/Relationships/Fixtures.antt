-- ===== src/Relationships/Fixtures.antt =====
-- A small graph for the tests of internal/relationships/store.go.
use open_praxis.Prelude.{Bool, String, [], true, ◌∷◌}
use open_praxis.Relationships.Edge.{Edge, Table}

abbrev pub at_ten : String
at_ten = "2026-04-25T10:00:00Z"

abbrev pub at_eleven : String
at_eleven = "2026-04-25T11:00:00Z"

abbrev pub at_noon : String
at_noon = "2026-04-25T12:00:00Z"

abbrev pub edge : String → String → String → String → String → Edge
edge src_kind src dst_kind dst kind = record {
  src_kind = src_kind;
  src_id = src;
  dst_kind = dst_kind;
  dst_id = dst;
  kind = kind;
  metadata = "";
  valid_from = "";
  valid_to = "";
  created_by = "alice";
  reason = "";
  created_at = "";
}

abbrev pub p_owns_m : Edge
p_owns_m = edge "product" "p" "manifest" "m" "owns"

abbrev pub m_owns_t : Edge
m_owns_t = edge "manifest" "m" "task" "t" "owns"

abbrev pub p_needs_t : Edge
p_needs_t = edge "product" "p" "task" "t" "depends_on"

abbrev pub row : Edge → String → Edge
row e from = record e { valid_from = from; created_at = from }

abbrev pub diamond : Table
diamond = row p_owns_m at_ten ∷ row m_owns_t at_ten ∷ row p_needs_t at_ten ∷ []

abbrev pub any_time : String → Bool
any_time s = true
