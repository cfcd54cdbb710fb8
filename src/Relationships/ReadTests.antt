-- ===== src/Relationships/ReadTests.antt =====
-- internal/relationships/store.go: runs of the readers and walks on a small graph, and the theorems
-- on them at concrete inputs.
use mathlib.Core.Path.{subst}
use open_praxis.Prelude.{
  IsSortedBy, List, Memᴰ, String, [], any, contains, false, inl, is_empty, map, negsuc, pos, refl,
  select, sort_by, suc, sym, text_le, text_lt, true, ℕ, ◌+◌, ◌↔◌, ◌∷◌, ◌≡◌, ◌⊎◌,
}
use open_praxis.Relationships.Batches.{edges_at, list_for_many_lem}
use open_praxis.Relationships.Edge.{
  Edge, Result, err, is_current, is_edge, is_valid_at, ok, valid_edge_kind,
}
use open_praxis.Relationships.Fixtures.{any_time, at_noon, at_ten, diamond, p_owns_m, row}
use open_praxis.Relationships.PastWalks.{walk_at-writes}
use open_praxis.Relationships.Present.{IsPresent, history_lem, list_at-eq-list}
use open_praxis.Relationships.Read.{
  history, list_incoming, list_incoming_at, list_incoming_for_many, list_outgoing, list_outgoing_at,
  list_outgoing_for_many,
}
use open_praxis.Relationships.Rounds.{rounds_fuel}
use open_praxis.Relationships.Shortest.{
  IsShortestPaths, walk-IsShortestPaths, walk_at-IsShortestPaths,
}
use open_praxis.Relationships.TimeTravel.{erase, list_at-writes}
use open_praxis.Relationships.Walk.{
  WalkRow, build_kind_filter, clamp_depth, in_kinds, root_row, rounds, walk, walk_at,
}
use open_praxis.Relationships.Write.{create, remove}

walk_ids : Result (List WalkRow) → List (String × ℕ)
walk_ids (ok rows) = map (λ w. (w.id, w.depth)) rows
walk_ids (err x) = []

walk-diamond :
    walk_ids (walk "p" "product" [] (negsuc 0) diamond) ≡ ("p", 0) ∷ ("m", 1) ∷ ("t", 1) ∷ []
unfolding walk_ids walk sort_by select is_current in_kinds contains
walk-diamond = refl

list_at-writes_example :
    (erase (list_outgoing_at any_time "p" "" at_ten (create at_noon p_owns_m diamond).0)
      ≡ erase (list_outgoing_at any_time "p" "" at_ten diamond))
    × (erase (list_incoming_at any_time "p" "" at_ten (create at_noon p_owns_m diamond).0)
        ≡ erase (list_incoming_at any_time "p" "" at_ten diamond))
    × (erase (
          list_outgoing_at any_time "p" "" at_ten
            (remove at_noon "p" "m" "owns" "bob" "done" diamond).0)
        ≡ erase (list_outgoing_at any_time "p" "" at_ten diamond))
    × (erase (
          list_incoming_at any_time "p" "" at_ten
            (remove at_noon "p" "m" "owns" "bob" "done" diamond).0)
        ≡ erase (list_incoming_at any_time "p" "" at_ten diamond))
unfolding text_lt
list_at-writes_example =
    list_at-writes any_time "p" "" at_ten at_noon p_owns_m "p" "m" "owns" "bob" "done" diamond refl
      refl refl

walk_at-writes_example :
    (walk_at any_time "p" "product" [] (pos 5) at_ten (create at_noon p_owns_m diamond).0
      ≡ walk_at any_time "p" "product" [] (pos 5) at_ten diamond)
    × (walk_at any_time "p" "product" []
          (pos 5)
          at_ten
          (remove at_noon "p" "m" "owns" "bob" "done" diamond).0
        ≡ walk_at any_time "p" "product" [] (pos 5) at_ten diamond)
unfolding text_lt
walk_at-writes_example =
    walk_at-writes any_time "p" "product" [] (pos 5) at_ten at_noon p_owns_m "p" "m" "owns" "bob"
      "done" diamond refl refl refl

walk-IsShortestPaths_example :
    (rows : List WalkRow) × (walk "p" "product" ("owns" ∷ []) (pos 7) diamond ≡ ok rows)
    × IsShortestPaths is_current "p" ("owns" ∷ []) (clamp_depth (pos 7)) diamond rows
unfolding build_kind_filter valid_edge_kind
walk-IsShortestPaths_example =
    walk-IsShortestPaths "p" "product" ("owns" ∷ []) (pos 7) diamond refl refl refl

walk_at-IsShortestPaths_example :
    (rows : List WalkRow) × (walk_at any_time "p" "product" [] (pos 7) at_noon diamond ≡ ok rows)
    × IsShortestPaths (is_valid_at at_noon) "p" [] (clamp_depth (pos 7)) diamond rows
unfolding build_kind_filter
walk_at-IsShortestPaths_example =
    walk_at-IsShortestPaths any_time "p" "product" [] (pos 7) at_noon diamond refl refl refl refl
      refl

rounds_fuel_example :
    rounds is_current [] 2 diamond (suc 2 + 5) (root_row "p" "product" ∷ [])
    ≡ rounds is_current [] 2 diamond (suc 2) (root_row "p" "product" ∷ [])
rounds_fuel_example = rounds_fuel is_current [] 2 diamond "p" "product" 5

list_for_many_lem_example :
    ((m : List (String × List Edge)) × (list_outgoing_for_many ("m" ∷ "p" ∷ []) "owns" diamond
        ≡ ok m)
      × (list_outgoing "p" "owns" diamond ≡ ok (edges_at "p" m)))
    × ((m : List (String × List Edge)) × (list_incoming_for_many ("m" ∷ "p" ∷ []) "owns" diamond
          ≡ ok m)
        × (list_incoming "p" "owns" diamond ≡ ok (edges_at "p" m)))
unfolding any contains valid_edge_kind
list_for_many_lem_example = list_for_many_lem ("m" ∷ "p" ∷ []) "owns" "p" diamond refl refl refl

IsPresent-diamond : IsPresent at_noon (row p_owns_m at_ten ∷ [])
unfolding text_lt
IsPresent-diamond r (Memᴰ.head e) =
    subst
      (λ s.
        (text_le s.valid_from at_noon ≡ true)
        × ((is_empty s.valid_to ≡ true) ⊎ (text_lt at_noon s.valid_to ≡ false)))
      (sym e) (refl, inl refl)
IsPresent-diamond r (Memᴰ.tail m) = elim m [ ]

list_at-eq-list_example :
    (list_outgoing_at any_time "p" "" at_noon (row p_owns_m at_ten ∷ [])
      ≡ list_outgoing "p" "" (row p_owns_m at_ten ∷ []))
    × (list_incoming_at any_time "p" "" at_noon (row p_owns_m at_ten ∷ [])
        ≡ list_incoming "p" "" (row p_owns_m at_ten ∷ []))
list_at-eq-list_example =
    list_at-eq-list any_time "p" "" at_noon (row p_owns_m at_ten ∷ []) IsPresent-diamond refl

history_lem_example :
    (rows : List Edge) × (history "p" "m" "owns" diamond ≡ ok rows)
    × IsSortedBy (λ a b. text_le a.valid_from b.valid_from) rows
    × ((r : Edge) → Memᴰ r rows ↔ (Memᴰ r diamond × (is_edge "p" "m" "owns" r ≡ true)))
unfolding valid_edge_kind
history_lem_example = history_lem "p" "m" "owns" diamond refl refl
