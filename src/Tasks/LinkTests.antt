-- ===== src/Tasks/LinkTests.antt =====
-- Runs of the links and dependencies of tasks, and the theorem at a concrete input.
use open_praxis.Prelude.{
  Option, String, [], any, concat, count, false, first, is_empty, map, none, pos, refl, select,
  some, sort_by, suc, take, text_lt, update, zero, ℕ, ◌∷◌, ◌≡◌,
}
use open_praxis.Relationships.Edge.{
  Edge, Table, is_current, is_current_edge, is_edge, ok, same_key, valid_edge_kind,
}
use open_praxis.Relationships.Read.{get, has_kind, list_incoming, list_outgoing}
use open_praxis.Relationships.Write.{create, remove}
use open_praxis.Tasks.DepWrites.{write_dep_lem}
use open_praxis.Tasks.Deps.{is_task_dep}
use open_praxis.Tasks.Linking.{
  derive_dep_state, link, link_manifest, list_dep_history, list_linked_manifests, not_wired, unlink,
  unlink_manifest, write_dep, write_scd_dep_row,
}
use open_praxis.Tasks.Links.{link_manifest_lem}

abbrev noon : String
noon = "2026-01-01T12:00:00Z"

abbrev dusk : String
dusk = "2026-01-01T18:00:00Z"

abbrev night : String
night = "2026-01-01T23:00:00Z"

link_done : (link noon "t1" "m1" []).1 ≡ none
unfolding link get valid_edge_kind first create any update
link_done = refl

linked_ids : list_linked_manifests "t1" (link_manifest noon "t1" "m1" (some [])).0 ≡ ok ("m1" ∷ [])
unfolding list_linked_manifests link_manifest list_incoming valid_edge_kind select get first create
    any update is_current has_kind
linked_ids = refl

not_linked : (unlink_manifest noon "t1" "m1" none).1 ≡ some not_wired
unfolding unlink_manifest
not_linked = refl

link_manifest_lem_example :
    ((e : Edge) × (get "m1" "t1" "owns" (link noon "t1" "m1" []).0 ≡ ok (some e)))
    × (link dusk "t1" "m1" (link noon "t1" "m1" []).0 ≡ ((link noon "t1" "m1" []).0, none))
    × (get "m1" "t1" "owns" (unlink night "t1" "m1" (link noon "t1" "m1" []).0).0 ≡ ok none)
link_manifest_lem_example = link_manifest_lem noon dusk night "t1" "m1" [] refl refl link_done

blocked :
    derive_dep_state "pending" "running" "t0" ≡ ("waiting", "task t0 not completed (is running)")
unfolding derive_dep_state concat
blocked = refl

abbrev by_turn : ℕ → String
by_turn zero = dusk
by_turn (suc n) = night

abbrev two_deps : Option Table
two_deps =
    (write_scd_dep_row by_turn "t1" "t2" "ann" "second"
      (write_scd_dep_row (λ i. noon) "t1" "t0" "ann" "first" (some [])).0).0

dep_history : map (λ e. e.depends_on) (list_dep_history "t1" (pos 0) two_deps) ≡ "t2" ∷ "t0" ∷ []
unfolding list_dep_history write_scd_dep_row take sort_by select list_outgoing valid_edge_kind
    create any update is_current has_kind remove same_key is_current_edge is_edge text_lt
dep_history = refl

abbrev one_dep : Table
one_dep = (write_dep (λ i. noon) "t1" "t0" "ann" "first" []).0

by_turn_ticks : (i : ℕ) → is_empty (by_turn i) ≡ false
by_turn_ticks zero = refl
by_turn_ticks (suc n) = refl

second_done : (write_dep by_turn "t1" "t2" "ann" "second" one_dep).1 ≡ none
unfolding write_dep list_outgoing valid_edge_kind create any update is_current has_kind remove
    same_key is_current_edge is_edge select
second_done = refl

write_dep_lem_example :
    (count (is_task_dep "t1") (write_dep by_turn "t1" "t2" "ann" "second" one_dep).0 ≡ 1)
    × ((r : Edge) × (first (is_task_dep "t1") (write_dep by_turn "t1" "t2" "ann" "second" one_dep).0
          ≡ some r)
        × (r.dst_id ≡ "t2")
        × (r.created_by ≡ "ann")
        × (r.reason ≡ "second"))
write_dep_lem_example =
    write_dep_lem by_turn "t1" "t2" "ann" "second" one_dep by_turn_ticks refl second_done
