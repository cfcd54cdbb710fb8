-- ===== src/Templates/Seed.antt =====
-- internal/templates/seed.go: the seeding of the sections that have no row. The default bodies and
-- titles are arguments; a map is a function to options, and a missing title is empty.
use open_praxis.Prelude.{
  Bool, List, Option, String, [], any, concat, if◌then◌else◌, is_empty, none, some, ◌&&◌, ◌==◌, ◌∷◌,
}
use open_praxis.Templates.Store.{insert, new_template}
use open_praxis.Templates.Template.{Db, Error, Template, is_at, key_conflict, scope_agent}

abbrev pub sections : List String
sections =
    "preamble" ∷ "visceral_rules" ∷ "manifest_spec" ∷ "prior_context" ∷ "task" ∷ "instructions"
    ∷ "git_workflow" ∷ "closing_protocol" ∷ []

-- The defaults of one bucket.
pub record Bucket : Type 0 where
  pub scope : String
  pub scope_id : String
  pub bodies : String → Option String
  pub titles : String → String

-- `scope = ? AND scope_id = ? AND valid_to = ''`, of a section.
unfoldable pub is_open_at : String → String → String → Template → Bool
unfolding is_at
is_open_at scope scope_id section t = is_at scope scope_id section t && is_empty t.valid_to

unfoldable pub missing_body : Bucket → Db → String → Option String
unfolding is_open_at
missing_body b db section =
    if any (is_open_at b.scope b.scope_id section) db.rows then none else b.bodies section

abbrev pub seed_reason : String → String → String
seed_reason scope scope_id =
    if scope == scope_agent
    then concat "Initial seed: " (concat scope_id " markdown-heading frame")
    else "Initial seed from buildPrompt() defaults"

abbrev pub seeded_row : String → String → String → Bucket → String → String → Template
seeded_row now uid peer b section body =
    record (new_template now uid b.scope b.scope_id section (b.titles section) body "system-seed"
      (seed_reason b.scope b.scope_id)) { source_node = peer }

-- The loop over the sections. `uid_of` gives the UUID that the library makes for a section.
unfoldable pub insert_bucket :
    String
    → (String → String)
    → String
    → Bucket
    → (String → Option String)
    → List String
    → Db
    → Option Db
unfolding insert
insert_bucket now uid_of peer b missing [] db = some db
insert_bucket now uid_of peer b missing (section ∷ rest) db = elim (missing section) [
  | none ↦ insert_bucket now uid_of peer b missing rest db
  | some body ↦ elim (insert (seeded_row now (uid_of section) peer b section body) db) [
    | none ↦ none
    | some after ↦ insert_bucket now uid_of peer b missing rest after
  ]
]

-- A transaction that fails leaves the database as it was.
unfoldable pub seed_bucket : String → (String → String) → String → Bucket → Db → Db × Option Error
unfolding insert_bucket missing_body
seed_bucket now uid_of peer b db =
    elim (insert_bucket now uid_of peer b (missing_body b db) sections db) [
      | none ↦ (db, some key_conflict)
      | some after ↦ (after, none)
    ]

-- The buckets are the system's, then one for each agent. `now` and `uid_of` are asked for each bucket.
unfoldable pub seed :
    (Bucket → String) → (Bucket → String → String) → String → List Bucket → Db → Db × Option Error
unfolding seed_bucket
seed now uid_of peer [] db = (db, none)
seed now uid_of peer (b ∷ bs) db =
    let out = seed_bucket (now b) (uid_of b) peer b db in
    let rest = seed now uid_of peer bs out.0 in
    elim out.1 [ none ↦ rest | some x ↦ (out.0, some x) ]
