-- ===== src/Templates/Tests.antt =====
-- Runs of the store of templates and of the resolver, and the theorems at concrete inputs.
use open_praxis.Prelude.{
  Every, Option, String, [], any, arith, count, if◌then◌else◌, map, none, refl, select, some,
  sort_by, suc, text_lt, update, ◌==◌, ◌∷◌, ◌≡◌,
}
use open_praxis.Templates.Actives.{create-IsValid, writes-keep_one_active}
use open_praxis.Templates.Edits.{IsFresh, IsValid}
use open_praxis.Templates.Overrides.{retired_override_falls_through}
use open_praxis.Templates.Resolver.{ScopeLookup, resolve, resolve_wider}
use open_praxis.Templates.Revisions.{get-update_body}
use open_praxis.Templates.Seed.{Bucket, seed}
use open_praxis.Templates.SeedRuns.{IsSeeded, seed_again}
use open_praxis.Templates.Store.{
  at_time, close_status, create, get, get_by_uid, history, insert, insert_override, list,
  list_with_scope_id, new_template, tombstone, update_body, was_active,
}
use open_praxis.Templates.Template.{
  Db, Template, duplicate_override, err, is_active_at, is_live_of, is_open_of,
}

abbrev noon : String
noon = "2026-01-01T12:00:00Z"

abbrev dusk : String
dusk = "2026-01-01T18:00:00Z"

abbrev empty_db : Db
empty_db = record { rows = []; last_id = 0 }

empty-IsValid : IsValid empty_db
unfolding count
empty-IsValid = record { one_open = λ uid. omega arith; one_active = λ s i c. omega arith }

-- An override of a task, and one of its manifest.
abbrev task_row : Template
task_row = record (new_template noon "u1" "task" "t1" "preamble" "" "mine" "ann" "") { id = 1 }

abbrev two_db : Db
two_db =
    (create noon "u2" "manifest" "m1" "preamble" "" "ours" "ann" ""
      (create noon "u1" "task" "t1" "preamble" "" "mine" "ann" "" empty_db).0).0

two-IsValid : IsValid two_db
two-IsValid =
    create-IsValid noon "u2" "manifest" "m1" "preamble" "" "ours" "ann" ""
      (create noon "u1" "task" "t1" "preamble" "" "mine" "ann" "" empty_db).0
      (create-IsValid noon "u1" "task" "t1" "preamble" "" "mine" "ann" "" empty_db empty-IsValid)

abbrev find_scopes : Option ScopeLookup
find_scopes = some (λ task. some ("m1", ""))

task_body : resolve find_scopes none "preamble" "t1" two_db ≡ some "mine"
unfolding resolve sort_by select create any is_active_at is_open_of
task_body = refl

other_body : resolve find_scopes none "preamble" "t2" two_db ≡ some "ours"
unfolding resolve sort_by select create any is_active_at is_open_of resolve_wider
other_body = refl

duplicate :
    (create dusk "u3" "task" "t1" "preamble" "" "again" "bob" "" two_db).1 ≡ err duplicate_override
unfolding create sort_by select any is_active_at is_open_of
duplicate = refl

found_task : get "task" "t1" "preamble" two_db ≡ some task_row
unfolding get sort_by select create any is_active_at is_open_of
found_task = refl

IsFresh-dusk : IsFresh dusk "u1" two_db
unfolding count create sort_by select any is_active_at is_open_of
IsFresh-dusk = refl

at_noon :
    at_time "u1" "2026-01-01T13:00:00Z" (update_body dusk "u1" "new" "bob" "" two_db).0
    ≡ some (record task_row { valid_to = dusk })
unfolding at_time update_body sort_by select any create is_active_at is_open_of is_live_of update
    was_active text_lt
at_noon = refl

history_bodies :
    map (λ t. t.body) (history "u1" (update_body dusk "u1" "new" "bob" "" two_db).0)
    ≡ "new" ∷ "mine" ∷ []
unfolding history update_body sort_by select any create is_active_at is_open_of is_live_of update
    text_lt
history_bodies = refl

listed_bodies : map (λ t. t.body) (list "" "preamble" two_db) ≡ "ours" ∷ "mine" ∷ []
unfolding list sort_by select create any is_active_at is_open_of text_lt
listed_bodies = refl

listed_at : map (λ t. t.body) (list_with_scope_id "" "t1" "" two_db) ≡ "mine" ∷ []
unfolding list_with_scope_id sort_by select create any is_active_at is_open_of
listed_at = refl

by_uid : get_by_uid "u2" (close_status "u2" "bob" "" two_db).0 ≡ none
unfolding get_by_uid close_status sort_by select update create any is_active_at is_open_of
    is_live_of
by_uid = refl

get-update_body_example :
    ((update_body dusk "u1" "new" "bob" "" two_db).1 ≡ none)
    × (get "task" "t1" "preamble" (update_body dusk "u1" "new" "bob" "" two_db).0
        ≡ some (record {
          id = suc two_db.last_id;
          template_uid = task_row.template_uid;
          title = task_row.title;
          scope = task_row.scope;
          scope_id = task_row.scope_id;
          section = task_row.section;
          body = "new";
          status = task_row.status;
          tags = task_row.tags;
          source_node = task_row.source_node;
          valid_from = dusk;
          valid_to = "";
          changed_by = "bob";
          reason = "";
          created_at = dusk;
          deleted_at = "";
        }))
    × (get "manifest" "m1" "preamble" (update_body dusk "u1" "new" "bob" "" two_db).0
        ≡ get "manifest" "m1" "preamble" two_db)
unfolding is_active_at
get-update_body_example =
    get-update_body dusk "new" "bob" "" two_db "task" "t1" "preamble" task_row two-IsValid refl
      IsFresh-dusk refl found_task "manifest" "m1" "preamble" refl

retired_override_falls_through_example :
    (resolve find_scopes none "preamble" "t1" (tombstone dusk "u1" "bob" "" two_db).0
      ≡ resolve_wider find_scopes none "preamble" "t1" two_db)
    × (resolve find_scopes none "preamble" "t1" (close_status "u1" "bob" "" two_db).0
        ≡ resolve_wider find_scopes none "preamble" "t1" two_db)
retired_override_falls_through_example =
    retired_override_falls_through dusk "bob" "" two_db find_scopes none "preamble" "t1" task_row
      two-IsValid refl refl found_task

writes-keep_one_active_example :
    IsValid (create dusk "u1" "task" "t2" "preamble" "" "mine" "ann" "" two_db).0
    × IsValid (update_body dusk "u1" "mine" "ann" "" two_db).0
    × IsValid (tombstone dusk "u1" "ann" "" two_db).0
    × IsValid (close_status "u1" "ann" "" two_db).0
writes-keep_one_active_example =
    writes-keep_one_active dusk "u1" "task" "t2" "preamble" "" "mine" "ann" "" two_db refl
      IsFresh-dusk two-IsValid

-- The defaults of the system, of which two sections have a body.
abbrev system_bucket : Bucket
system_bucket = record {
  scope = "system";
  scope_id = "";
  bodies =
      λ s. if s == "preamble" then some "Hello." else if s == "task" then some "Do it." else none;
  titles = λ s. "";
}

abbrev noon_of : Bucket → String
noon_of b = noon

abbrev dusk_of : Bucket → String
dusk_of b = dusk

abbrev uid_of_section : Bucket → String → String
uid_of_section b s = s

seeded_bodies :
    map
      (λ t. t.body)
      (list "system" "" (seed noon_of uid_of_section "peer" (system_bucket ∷ []) two_db).0)
    ≡ "Hello." ∷ "Do it." ∷ []
unfolding list seed sort_by select any create is_active_at is_open_of text_lt
seeded_bodies = refl

seed_done : (seed noon_of uid_of_section "peer" (system_bucket ∷ []) two_db).1 ≡ none
unfolding seed any create sort_by select is_active_at is_open_of
seed_done = refl

seed_again_example :
    Every
      (λ b. IsSeeded b (seed noon_of uid_of_section "peer" (system_bucket ∷ []) two_db).0)
      (system_bucket ∷ [])
    × (seed dusk_of uid_of_section "peer"
          (system_bucket ∷ [])
          (seed noon_of uid_of_section "peer" (system_bucket ∷ []) two_db).0
        ≡ ((seed noon_of uid_of_section "peer" (system_bucket ∷ []) two_db).0, none))
seed_again_example =
    seed_again noon_of dusk_of uid_of_section uid_of_section "peer" (system_bucket ∷ []) two_db
      seed_done

-- Create in two calls whose lookups both come before the INSERTs: two active rows of one place.
raced_overrides :
    (get "task" "t1" "preamble" empty_db ≡ none)
    × (count
          (is_active_at "task" "t1" "preamble")
          (insert_override dusk "u2" "task" "t1" "preamble" "" "b" "bob" ""
            (insert_override noon "u1" "task" "t1" "preamble" "" "a" "ann" "" empty_db).0).0.rows
        ≡ 2)
unfolding get insert count is_active_at sort_by select any is_open_of
raced_overrides = (refl, refl)
