-- ===== src/Entities/Tests.antt =====
-- Runs of the stores of entities and of their links, and the theorems at concrete inputs.
use mathlib.Core.Option
use open_praxis.Entities.Entity.{Entity, is_current_of, is_valid_at, key_conflict, not_found}
use open_praxis.Entities.LinkRuns.{lists-link_replay}
use open_praxis.Entities.Links.{LinkOp, empty_links, link_op, link_replay, link_run, unlink_op}
use open_praxis.Entities.Nodes.{
  add_node_entity, insert_link, is_link, list_by_entity, list_by_node, remove_node_entity,
}
use open_praxis.Entities.Refines.{run-replay}
use open_praxis.Entities.Replay.{Op, create_op, replay, run, update_op, versions}
use open_praxis.Entities.Store.{
  create, get, get_at, history, list, list_as_of, list_by_ids, list_by_types, search, update_entity,
}
use open_praxis.Entities.TimeTravel.{get_at-run, list_as_of-run}
use open_praxis.Entities.Travel.{empty_db, opened}
use open_praxis.Prelude.{
  List, String, [], any, contains, count, false, first, if◌then◌else◌, map, none, pos, refl, select,
  some, sort_by, take, text_lt, update, ◌==◌, ◌∷◌, ◌≡◌,
}

abbrev morning : List Op
morning =
    create_op "2026-01-01T08:00:00Z" "e1" "task" "Write" "" ("go" ∷ []) "ann" "new"
    ∷ create_op "2026-01-01T09:00:00Z" "e2" "idea" "Dream" "active" [] "bob" "new"
    ∷ update_op "2026-01-01T10:00:00Z" "e1" "Write more" "active" ("go" ∷ []) "ann" "scope"
    ∷ []

abbrev evening : List Op
evening =
    update_op "2026-01-01T20:00:00Z" "e1" "Written" "closed" [] "ann" "done"
    ∷ update_op "2026-01-01T21:00:00Z" "e9" "Lost" "closed" [] "ann" "typo"
    ∷ create_op "2026-01-01T22:00:00Z" "e2" "idea" "Twice" "" [] "bob" "again"
    ∷ []

abbrev noon : String
noon = "2026-01-01T12:00:00Z"

titles : List Entity → List String
titles es = map (λ e. e.title) es

morning-titles : titles (list "" "" (pos 0) (run morning empty_db).0) ≡ "Dream" ∷ "Write more" ∷ []
unfolding titles list run sort_by select update_entity first create any is_current_of update text_lt
morning-titles = refl

evening_errors :
    (run evening (run morning empty_db).0).1 ≡ none ∷ some not_found ∷ some key_conflict ∷ []
unfolding run update_entity create first any is_current_of update
evening_errors = refl

evening-titles :
    titles (list_as_of "task" noon (pos 5) (run evening (run morning empty_db).0).0)
    ≡ "Write more" ∷ []
unfolding titles list_as_of run take sort_by select create any update_entity first is_current_of
    update is_valid_at text_lt
evening-titles = refl

titles-history :
    titles (history "e1" (run evening (run morning empty_db).0).0)
    ≡ "Written" ∷ "Write more" ∷ "Write" ∷ []
unfolding titles history run sort_by select create any update_entity first is_current_of update
    text_lt
titles-history = refl

by_ids_titles : titles (list_by_ids ("e2" ∷ "e7" ∷ []) (run morning empty_db).0) ≡ "Dream" ∷ []
unfolding titles list_by_ids run select update_entity first create any is_current_of update contains
by_ids_titles = refl

by_types_titles :
    titles (list_by_types ("task" ∷ "idea" ∷ []) "active" (pos 1) (run morning empty_db).0)
    ≡ "Dream" ∷ []
unfolding titles list_by_types run take sort_by select update_entity first create any is_current_of
    update contains text_lt
by_types_titles = refl

titles-search :
    titles (
      search
        (λ pattern title. title == "Dream")
        (λ s. s)
        "dream"
        ""
        (pos 0)
        (run morning empty_db).0)
    ≡ "Dream" ∷ []
unfolding titles search run sort_by select update_entity first create any is_current_of update
titles-search = refl

run-replay_example :
    (versions (run morning empty_db).0 ≡ (replay morning (versions empty_db)).0)
    × ((run morning empty_db).1 ≡ (replay morning (versions empty_db)).1)
run-replay_example = run-replay morning empty_db (refl, (refl, (refl, tt)))

get_at-run_example :
    Option.map opened (get_at "e1" noon (run evening (run morning empty_db).0).0)
    ≡ Option.map opened (get "e1" (run morning empty_db).0)
unfolding text_lt
get_at-run_example =
    get_at-run noon "e1" morning evening (refl, refl, (refl, refl, (refl, refl, tt)))
      (refl, refl, (refl, refl, (refl, refl, tt)))

list_as_of-run_example :
    map opened (list_as_of "task" noon (pos 5) (run evening (run morning empty_db).0).0)
    ≡ map opened (list "task" "" (pos 5) (run morning empty_db).0)
unfolding text_lt
list_as_of-run_example =
    list_as_of-run noon "task" (pos 5) morning evening (refl, refl, (refl, refl, (refl, refl, tt)))
      (refl, refl, (refl, refl, (refl, refl, tt)))

abbrev link_ops : List LinkOp
link_ops =
    link_op noon "n1" "e1" "ann" ""
    ∷ link_op noon "n1" "e1" "ann" ""
    ∷ link_op noon "n1" "e2" "ann" ""
    ∷ unlink_op noon "n1" "e2" "ann" ""
    ∷ []

links_left : map (λ r. r.entity_uid) (list_by_node "n1" (link_run link_ops empty_links)) ≡ "e1" ∷ []
unfolding list_by_node link_run sort_by select remove_node_entity update add_node_entity count
links_left = refl

lists-link_replay_example :
    (count (λ r. r.entity_uid == "e1") (list_by_node "n1" (link_run link_ops empty_links))
      ≡ (if link_replay link_ops (λ _ _. false) "n1" "e1" then 1 else 0))
    × (count (λ r. r.node_id == "n1") (list_by_entity "e1" (link_run link_ops empty_links))
        ≡ (if link_replay link_ops (λ _ _. false) "n1" "e1" then 1 else 0))
lists-link_replay_example = lists-link_replay link_ops "n1" "e1" (refl, (refl, (refl, (refl, tt))))

-- AddNodeEntity in two calls whose SELECTs both come before the INSERTs: two current rows of the link.
raced_links :
    (count (is_link "n1" "e1") [] ≡ 0)
    × (count
          (is_link "n1" "e1")
          (insert_link "2026-01-01T18:00:00Z" "n1" "e1" "bob" ""
            (insert_link noon "n1" "e1" "ann" "" (record { rows = []; last_id = 0 }))).rows
        ≡ 2)
unfolding count is_link
raced_links = (refl, refl)
