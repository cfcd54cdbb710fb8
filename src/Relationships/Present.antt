-- ===== src/Relationships/Present.antt =====
-- internal/relationships/store.go: the present through both kinds of reader, and the audit trail
-- of one edge.
use open_praxis.Prelude.{
  Bool, IsSortedBy, List, Memᴰ, String, [], arith, false, is_empty, mem-select_of_test, mem-sort_by,
  mem_of_mem-select, mem_of_mem-sort_by, refl, select, sort_by, sort_by-IsSortedBy,
  test_of_mem-select, text_le, text_le-total, text_le_trans, text_lt, true, ◌&&◌, ◌==◌, ◌||◌, ◌↔◌,
  ◌∷◌, ◌≡◌, ◌⊎◌,
}
use open_praxis.Relationships.Edge.{
  Edge, Table, is_current, is_edge, is_valid_at, ok, valid_edge_kind,
}
use open_praxis.Relationships.Read.{
  has_kind, history, list_at, list_current, list_incoming, list_incoming_at, list_outgoing,
  list_outgoing_at, validate_as_of,
}

-- No row of the table begins after `as_of`, and no row was closed after it.
abbrev pub IsPresent : String → Table → Type 0
IsPresent as_of t =
    (r : Edge)
    → Memᴰ r t
    → (text_le r.valid_from as_of ≡ true)
      × ((is_empty r.valid_to ≡ true) ⊎ (text_lt as_of r.valid_to ≡ false))

is_valid_at-present :
    (as_of : String) (t : Table) (r : Edge)
    → IsPresent as_of t
    → Memᴰ r t
    → is_valid_at as_of r ≡ is_current r
unfolding is_valid_at is_current
is_valid_at-present as_of t r h m = ground (arith, h r m)

select_same :
    (p q : Edge → Bool) (t : Table) → ((r : Edge) → Memᴰ r t → p r ≡ q r) → select p t ≡ select q t
unfolding select
select_same p q [] h = refl
select_same p q (r ∷ t) h = rw (h r (Memᴰ.head refl), select_same p q t (λ s m. h s (Memᴰ.tail m)))

list_at-present :
    (is_rfc3339 : String → Bool) (field : Edge → String) (id kind as_of : String) (t : Table)
    → IsPresent as_of t
    → is_rfc3339 as_of ≡ true
    → list_at is_rfc3339 field id kind as_of t ≡ list_current field id kind t
unfolding list_at list_current validate_as_of
list_at-present is_rfc3339 field id kind as_of t h parses = ground (
  arith,
  select_same (λ r. field r == id && (is_valid_at as_of r && has_kind kind r))
      (λ r. field r == id && (is_current r && has_kind kind r)) t
      (λ r m. rw (is_valid_at-present as_of t r h m)),
)

-- At a timestamp that parses, that no row begins after and that no row was closed after,
-- ListOutgoingAt and ListIncomingAt return what ListOutgoing and ListIncoming return.
pub list_at-eq-list :
    (is_rfc3339 : String → Bool) (id kind as_of : String) (t : Table)
    → IsPresent as_of t
    → is_rfc3339 as_of ≡ true
    → (list_outgoing_at is_rfc3339 id kind as_of t ≡ list_outgoing id kind t)
      × (list_incoming_at is_rfc3339 id kind as_of t ≡ list_incoming id kind t)
unfolding list_outgoing_at list_incoming_at list_outgoing list_incoming
list_at-eq-list is_rfc3339 id kind as_of t h parses = (
  list_at-present is_rfc3339 (λ r. r.src_id) id kind as_of t h parses,
  list_at-present is_rfc3339 (λ r. r.dst_id) id kind as_of t h parses,
)

-- For ids that are not empty and a valid edge kind, History returns the versions of that edge, all
-- of them and no other row, in the order of valid_from.
pub history_lem :
    (src dst kind : String) (t : Table)
    → (is_empty src || is_empty dst) ≡ false
    → valid_edge_kind kind ≡ true
    → (rows : List Edge) × (history src dst kind t ≡ ok rows)
      × IsSortedBy (λ a b. text_le a.valid_from b.valid_from) rows
      × ((r : Edge) → Memᴰ r rows ↔ (Memᴰ r t × (is_edge src dst kind r ≡ true)))
unfolding history
history_lem src dst kind t named valid =
    let le : Edge → Edge → Bool = λ a b. text_le a.valid_from b.valid_from in
    let found : List Edge = select (is_edge src dst kind) t in
    (
      sort_by le found,
      rw (named, valid),
      sort_by-IsSortedBy le (λ a b. text_le-total a.valid_from b.valid_from)
          (λ a b c. text_le_trans a.valid_from b.valid_from c.valid_from) found,
      λ r. (
        (λ m.
            let n = mem_of_mem-sort_by le found m in
            (
              mem_of_mem-select (is_edge src dst kind) t n,
              test_of_mem-select (is_edge src dst kind) t n,
            )),
        (λ (m, e). mem-sort_by le found (mem-select_of_test (is_edge src dst kind) t m e)),
      ),
    )
