-- ===== src/Relationships/Tests.antt =====
-- internal/relationships/store.go: runs of the writes on a small graph, and the theorems on them at
-- concrete inputs.
use open_praxis.Prelude.{
  Memᴰ, [], any, arith, count, if◌then◌else◌, map, none, refl, some, update, ◌&&◌, ◌++◌, ◌+◌, ◌∷◌,
  ◌≡◌,
}
use open_praxis.Relationships.Batches.{backfill_bulk_all}
use open_praxis.Relationships.Edge.{
  Edge, is_current, is_current_edge, is_edge, key_conflict, same_key, self_loop, valid_edge_kind,
  validate_backfill_edge,
}
use open_praxis.Relationships.Effects.{health-create, succeeded, writes_keep_history}
use open_praxis.Relationships.Fixtures.{at_eleven, at_noon, at_ten, diamond, edge, p_owns_m, row}
use open_praxis.Relationships.Read.{health}
use open_praxis.Relationships.Scd.{IsScd, create-IsScd, writes-IsScd}
use open_praxis.Relationships.Write.{backfill_bulk, create, remove}

self_loop_refused :
    create at_ten (edge "task" "t" "task" "t" "owns") diamond ≡ (diamond, some self_loop)
unfolding create valid_edge_kind
self_loop_refused = refl

create_closes_and_inserts :
    create at_eleven p_owns_m (row p_owns_m at_ten ∷ [])
    ≡ (record (row p_owns_m at_ten) { valid_to = at_eleven } ∷ row p_owns_m at_eleven ∷ [], none)
unfolding create valid_edge_kind any update same_key is_current_edge is_edge is_current
create_closes_and_inserts = refl

same_instant_refused : (create at_ten p_owns_m diamond).1 ≡ some key_conflict
unfolding create valid_edge_kind any update same_key is_current_edge is_edge is_current
same_instant_refused = refl

IsScd-empty : IsScd []
unfolding count
IsScd-empty = record { one_current = λ src dst kind. omega arith }

writes-IsScd_example :
    IsScd (create at_eleven p_owns_m (create at_ten p_owns_m []).0).0
    × IsScd (remove at_eleven "p" "m" "owns" "bob" "done" (create at_ten p_owns_m []).0).0
writes-IsScd_example =
    writes-IsScd at_eleven p_owns_m "p" "m" "owns" "bob" "done" (create at_ten p_owns_m []).0 refl
      (create-IsScd at_ten p_owns_m [] refl IsScd-empty)

abbrev p_row : Edge
p_row = row p_owns_m at_ten

writes_keep_history_example :
    Memᴰ
      (if succeeded (create at_eleven p_owns_m diamond).1 && is_current_edge "p" "m" "owns" p_row
        then record {
          src_kind = p_row.src_kind;
          src_id = p_row.src_id;
          dst_kind = p_row.dst_kind;
          dst_id = p_row.dst_id;
          kind = p_row.kind;
          metadata = p_row.metadata;
          valid_from = p_row.valid_from;
          valid_to = at_eleven;
          created_by = p_row.created_by;
          reason = p_row.reason;
          created_at = p_row.created_at;
        }
        else p_row)
      (create at_eleven p_owns_m diamond).0
    × Memᴰ
        (if succeeded (remove at_eleven "p" "m" "owns" "bob" "done" diamond).1
            && is_current_edge "p" "m" "owns" p_row
          then record {
            src_kind = p_row.src_kind;
            src_id = p_row.src_id;
            dst_kind = p_row.dst_kind;
            dst_id = p_row.dst_id;
            kind = p_row.kind;
            metadata = p_row.metadata;
            valid_from = p_row.valid_from;
            valid_to = at_eleven;
            created_by = "bob";
            reason = "done";
            created_at = p_row.created_at;
          }
          else p_row)
        (remove at_eleven "p" "m" "owns" "bob" "done" diamond).0
writes_keep_history_example =
    writes_keep_history at_eleven p_owns_m "p" "m" "owns" "bob" "done" diamond {r = p_row}
      (Memᴰ.head refl)

backfill_bulk_all_example :
    ((e : Edge) → Memᴰ e diamond → validate_backfill_edge e ≡ none)
    × ((backfill_bulk at_noon diamond []).0
        ≡ []
          ++ map
              (λ e. record {
                src_kind = e.src_kind;
                src_id = e.src_id;
                dst_kind = e.dst_kind;
                dst_id = e.dst_id;
                kind = e.kind;
                metadata = e.metadata;
                valid_from = e.valid_from;
                valid_to = e.valid_to;
                created_by = e.created_by;
                reason = e.reason;
                created_at = at_noon;
              })
              diamond)
unfolding backfill_bulk valid_edge_kind any same_key
backfill_bulk_all_example = backfill_bulk_all at_noon diamond [] refl

created_again : (create at_eleven p_owns_m diamond).1 ≡ none
unfolding create valid_edge_kind any update same_key is_current_edge is_edge is_current
created_again = refl

health-create_example :
    ((health (create at_eleven p_owns_m diamond).0).total_rows ≡ (health diamond).total_rows + 1)
    × ((health (create at_eleven p_owns_m diamond).0).current_edges
          + count (is_current_edge "p" "m" "owns") diamond
        ≡ (health diamond).current_edges + 1)
health-create_example = health-create at_eleven p_owns_m diamond refl created_again
