-- ===== src/Entities/TypeTests.antt =====
-- Runs of the store of entity types, and the theorems at concrete inputs.
use open_praxis.Entities.TypeWrites.{rename_keeps_uid}
use open_praxis.Entities.Types.{
  EntityType, Table, create, exists, is_named, list, new_type, rename, renamed, seed,
}
use open_praxis.Prelude.{
  String, [], any, count, first, map, refl, select, some, sort_by, text_lt, update, ◌==◌, ◌∷◌, ◌≡◌,
}

abbrev noon : String
noon = "2026-01-01T12:00:00Z"

abbrev at_noon : String → String
at_noon name = noon

abbrev uid_of : String → String
uid_of name = name

abbrev seeded : Table
seeded = (seed at_noon uid_of []).0

seeded_names :
    map (λ r. r.name) (list seeded)
    ≡ "RAG" ∷ "idea" ∷ "manifest" ∷ "product" ∷ "skill" ∷ "task" ∷ []
unfolding seed list sort_by select count create any update text_lt
seeded_names = refl

abbrev doc_type : EntityType
doc_type = new_type noon "u7" "doc" "Doc" "" "" "File" "ann"

rename_keeps_uid_example :
    (old : EntityType) × (first (is_named "doc") (doc_type ∷ []) ≡ some old)
    × ("u7" ≡ old.type_uid)
    × (first (is_named "note") (rename noon "doc" "note" "" "" "" "" "bob" (doc_type ∷ [])).0
        ≡ some (renamed noon "u7" "note" "" "" "" "" "bob"))
    × (exists "doc" (rename noon "doc" "note" "" "" "" "" "bob" (doc_type ∷ [])).0
        ≡ ("note" == "doc"))
unfolding rename first is_named any update
rename_keeps_uid_example =
    rename_keeps_uid noon "doc" "note" "" "" "" "" "bob" (doc_type ∷ []) refl refl
