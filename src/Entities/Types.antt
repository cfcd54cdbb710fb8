-- ===== src/Entities/Types.antt =====
-- internal/entity/types_store.go: the versions of entity types. A write takes the time that it reads
-- and the UUID that the library makes.
use open_praxis.Prelude.{
  Bool, List, Option, String, [], any, count, first, if◌then◌else◌, is_empty, ltb, none, select,
  some, sort_by, text_le, update, ◌&&◌, ◌++◌, ◌==◌, ◌||◌, ◌∷◌,
}

pub record EntityType : Type 0 where
  pub type_uid : String
  pub name : String
  pub display_name : String
  pub description : String
  pub color : String
  pub icon : String
  pub valid_from : String
  pub valid_to : String
  pub changed_by : String
  pub change_reason : String
  pub created_at : String

abbrev pub Table : Type 0
Table = List EntityType

pub data Error : Type 0 where
  no_rows : Error
  name_conflict : Error

pub data Result (A : Type 0) : Type 0 where
  ok : A → Result A
  err : Error → Result A

abbrev pub default_color : String
default_color = "#6366f1"

abbrev pub default_icon : String
default_icon = "Database"

-- `name = ? AND valid_to = ''`
unfoldable pub is_named : String → EntityType → Bool
is_named name t = t.name == name && is_empty t.valid_to

-- The unique index on name of the rows with `valid_to = ''`.
unfoldable pub insert : EntityType → Table → Option Table
insert row t = if any (is_named row.name) t then none else some (t ++ row ∷ [])

abbrev pub or_default : String → String → String
or_default d s = if is_empty s then d else s

abbrev pub new_type :
    String → String → String → String → String → String → String → String → EntityType
new_type now uid name display description color icon by = record {
  type_uid = uid;
  name = name;
  display_name = display;
  description = description;
  color = or_default default_color color;
  icon = or_default default_icon icon;
  valid_from = now;
  valid_to = "";
  changed_by = by;
  change_reason = "";
  created_at = now;
}

abbrev pub close : String → EntityType → EntityType
close now t = record t { valid_to = now }

-- The transaction closes the rows under `name` and inserts `row`.
unfoldable pub replace : String → String → EntityType → Table → Table × Result EntityType
unfolding insert
replace now name row t = elim (insert row (update (is_named name) (close now) t)) [
  | none ↦ (t, err name_conflict)
  | some after ↦ (after, ok row)
]

unfoldable pub create :
    String
    → String
    → String
    → String
    → String
    → String
    → String
    → String
    → Table
    → Table × Result EntityType
unfolding replace
create now uid name display description color icon by t =
    replace now name (new_type now uid name display description color icon by) t

unfoldable pub exists : String → Table → Bool
exists name t = ltb 0 (count (is_named name) t)

-- `ORDER BY name ASC`
unfoldable pub list : Table → Table
list t = sort_by (λ a b. text_le a.name b.name) (select (λ r. is_empty r.valid_to) t)

abbrev pub renamed :
    String → String → String → String → String → String → String → String → EntityType
renamed now uid name display description color icon by =
    record (new_type now uid name (or_default name display) description color icon by) {
      change_reason = "rename";
    }

unfoldable pub rename :
    String
    → String
    → String
    → String
    → String
    → String
    → String
    → String
    → Table
    → Table × Result EntityType
unfolding replace
rename now old_name new_name display description color icon by t =
    elim (first (is_named old_name) t) [
      | none ↦ (t, err no_rows)
      | some old ↦
          replace now old_name (renamed now old.type_uid new_name display description color icon by)
            t
    ]

pub record Builtin : Type 0 where
  pub name : String
  pub display_name : String
  pub description : String
  pub color : String
  pub icon : String

abbrev pub builtin_types : List Builtin
builtin_types =
    record {
      name = "skill";
      display_name = "Skill";
      description = "Governance rule or coding practice";
      color = "#f59e0b";
      icon = "Wand2";
    }
    ∷ record {
      name = "product";
      display_name = "Product";
      description = "Top-level product with manifests and tasks";
      color = "#3b82f6";
      icon = "Boxes";
    }
    ∷ record {
      name = "manifest";
      display_name = "Manifest";
      description = "Spec or plan that owns a set of tasks";
      color = "#a78bfa";
      icon = "FileText";
    }
    ∷ record {
      name = "task";
      display_name = "Task";
      description = "Atomic execution unit run by an agent";
      color = "#10b981";
      icon = "CheckSquare";
    }
    ∷ record {
      name = "idea";
      display_name = "Idea";
      description = "Unstructured concept or feature request";
      color = "#f97316";
      icon = "Lightbulb";
    }
    ∷ record {
      name = "RAG";
      display_name = "RAG";
      description = "Retrieval-augmented generation knowledge source";
      color = "#06b6d4";
      icon = "Database";
    }
    ∷ []

-- `WHERE name=? AND valid_to='' AND (color='#6366f1' OR icon='Database')`
unfoldable pub is_backfilled : Builtin → EntityType → Bool
unfolding is_named
is_backfilled b t = is_named b.name t && (t.color == default_color || t.icon == default_icon)

abbrev pub backfill : Builtin → EntityType → EntityType
backfill b t = record t { color = b.color; icon = b.icon }

abbrev pub error_of : Result EntityType → Option Error
error_of (ok row) = none
error_of (err x) = some x

-- `now` and `uid` give the time and the UUID of the Create of a built-in type.
unfoldable pub seed_one :
    (String → String) → (String → String) → Builtin → Table → Table × Option Error
unfolding exists is_backfilled
seed_one now uid b t =
    let out =
      create (now b.name) (uid b.name) b.name b.display_name b.description b.color b.icon "system"
        t in
    if exists b.name t
    then (update (is_backfilled b) (backfill b) t, none)
    else (out.0, error_of out.1)

-- The loop of Seed, which an error ends.
unfoldable pub seed_all :
    (String → String) → (String → String) → List Builtin → Table → Table × Option Error
unfolding seed_one
seed_all now uid [] t = (t, none)
seed_all now uid (b ∷ bs) t =
    let rest = seed_all now uid bs (seed_one now uid b t).0 in
    elim (seed_one now uid b t).1 [ none ↦ rest | some x ↦ ((seed_one now uid b t).0, some x) ]

unfoldable pub seed : (String → String) → (String → String) → Table → Table × Option Error
unfolding seed_all
seed now uid t = seed_all now uid builtin_types t
