-- ===== src/Settings/Resolver.antt =====
-- internal/settings/resolver.go: the walk task → manifest → product → system.
use open_praxis.Prelude.{
  List, Option, String, [], if◌then◌else◌, is_empty, none, not, some, ◌&&◌, ◌==◌, ◌∷◌,
}
use open_praxis.Settings.Catalog.{
  JsonLib, Knob, KnobType, Value, enum_knob, float_knob, float_value, int_knob, int_value,
  knob_by_key, multiselect_knob, other_knob, string_knob, text_value, texts_value,
}
use open_praxis.Settings.Store.{
  Entry, Result, Table, decode_failed, err, get, list_scope, lookup_failed, ok, unknown_key,
}

pub record Scope : Type 0 where
  pub product_id : String
  pub manifest_id : String
  pub task_id : String

pub record Resolved (F : Type 0) : Type 0 where
  pub key : String
  pub value : Value F
  pub source : String
  pub source_id : String

-- GetTaskForSettings gives the id of the task's manifest, GetManifestForSettings that of the
-- manifest's product; `none` is their error. A lookup that is nil is `none` too.
abbrev pub Lookup : Type 0
Lookup = Option (String → Option String)

-- `if err != nil { return err }`
abbrev pub and_then : {A B : Type 0} → Result A → (A → Result B) → Result B
and_then (ok a) f = f a
and_then (err x) f = err x

-- The map of one tier, from keys to entries.
abbrev pub Entries : Type 0
Entries = String → Option Entry

-- `out[e.Key] = e`
abbrev pub put : Entry → Entries → Entries
put e m key = if e.key == key then some e else m key

-- The loop of snapshotScope.
unfoldable pub entries_of : List Entry → Entries → Entries
entries_of [] m = m
entries_of (e ∷ es) m = entries_of es (put e m)

unfoldable pub snapshot_scope : String → String → Table → Result Entries
unfolding entries_of list_scope
snapshot_scope scope_type scope_id t =
    if is_empty scope_id then ok (λ key. none) else elim (list_scope scope_type scope_id t) [
      | err x ↦ err x
      | ok es ↦ ok (entries_of es (λ key. none))
    ]

abbrev pub texts_of : List (Option String) → Option (List String)
texts_of [] = some []
texts_of (none ∷ items) = none
texts_of (some s ∷ items) = elim (texts_of items) [ none ↦ none | some ss ↦ some (s ∷ ss) ]

-- The id of the next scope up, in Resolve: a lookup that is nil leaves it as it is.
unfoldable pub promote : String → String → Lookup → Result String
promote upper lower none = ok upper
promote upper lower (some lookup) =
    if is_empty upper && not (is_empty lower)
    then elim (lookup lower) [ some id ↦ ok id | none ↦ err lookup_failed ]
    else ok upper

-- The same in NormalizeScope, where a lookup that is needed and nil is an error.
unfoldable pub promote_strictly : String → String → Lookup → Result String
promote_strictly upper lower lookup =
    if is_empty upper && not (is_empty lower)
    then elim lookup [
      | none ↦ err lookup_failed
      | some f ↦ elim (f lower) [ some id ↦ ok id | none ↦ err lookup_failed ]
    ]
    else ok upper

unfoldable pub normalize_scope : Lookup → Lookup → Scope → Result Scope
unfolding promote_strictly
normalize_scope tasks manifests scope =
    elim (promote_strictly scope.manifest_id scope.task_id tasks) [
      | err x ↦ err x
      | ok manifest_id ↦ elim (promote_strictly scope.product_id manifest_id manifests) [
        | err x ↦ err x
        | ok product_id ↦
            ok (record {
              product_id = product_id;
              manifest_id = manifest_id;
              task_id = scope.task_id;
            })
      ]
    ]

module _ {F : Type 0} where
  -- The loop of ResolveAll over the catalog.
  unfoldable pub pick_all :
      (Knob F → Result (Resolved F))
      → List (Knob F)
      → (String → Option (Resolved F))
      → Result (String → Option (Resolved F))
  pick_all pick [] out = ok out
  pick_all pick (k ∷ ks) out = elim (pick k) [
    | err x ↦ err x
    | ok r ↦ pick_all pick ks (λ key. if k.key == key then some r else out key)
  ]

module _ {F : Type 0} (lib : JsonLib F) where
  -- The switch of decodeValue.
  abbrev pub decode_typed : KnobType → String → Option (Value F)
  decode_typed int_knob json = elim (lib.parse_number json) [
    | none ↦ none
    | some n ↦ some (int_value (lib.truncate n))
  ]
  decode_typed float_knob json = elim (lib.parse_number json) [
    | none ↦ none
    | some n ↦ some (float_value n)
  ]
  decode_typed string_knob json = elim (lib.parse_text json) [
    | none ↦ none
    | some s ↦ some (text_value s)
  ]
  decode_typed enum_knob json = elim (lib.parse_text json) [
    | none ↦ none
    | some s ↦ some (text_value s)
  ]
  decode_typed multiselect_knob json = elim (lib.parse_array json) [
    | none ↦ none
    | some items ↦ elim (texts_of items) [ none ↦ none | some ss ↦ some (texts_value ss) ]
  ]
  decode_typed (other_knob name) json = none

  unfoldable pub decode_value : Knob F → String → Result (Value F)
  decode_value knob json = elim (decode_typed knob.knob_type json) [
    | none ↦ err decode_failed
    | some v ↦ ok v
  ]

  -- A stored value, decoded, with where it comes from.
  abbrev pub found : String → String → Knob F → Entry → Result (Resolved F)
  found scope_type scope_id knob e = elim (decode_value knob e.value) [
    | err x ↦ err x
    | ok v ↦ ok (record { key = knob.key; value = v; source = scope_type; source_id = scope_id })
  ]

  unfoldable pub try_scope : String → String → Knob F → Table → Result (Option (Resolved F))
  unfolding get decode_value
  try_scope scope_type scope_id knob t = elim (get scope_type scope_id knob.key t) [
    | err x ↦ err x
    | ok none ↦ ok none
    | ok (some e) ↦ elim (found scope_type scope_id knob e) [ err x ↦ err x | ok r ↦ ok (some r) ]
  ]

  -- SystemDefault of the key of a knob, which the catalog has.
  abbrev pub system_default : List (Knob F) → Knob F → Resolved F
  system_default catalog knob = record {
    key = knob.key;
    value = elim (knob_by_key catalog knob.key) [ some k ↦ k.default | none ↦ knob.default ];
    source = "system";
    source_id = "";
  }

  -- One tier of Resolve: its hit or its error, else what follows.
  unfoldable pub tier : String → String → Knob F → Table → Result (Resolved F) → Result (Resolved F)
  unfolding try_scope
  tier scope_type scope_id knob t rest =
      if is_empty scope_id then rest else elim (try_scope scope_type scope_id knob t) [
        | err x ↦ err x
        | ok none ↦ rest
        | ok (some r) ↦ ok r
      ]

  -- The walk of Resolve. The lookups are made between the tiers.
  unfoldable pub resolve_knob :
      List (Knob F) → Lookup → Lookup → Scope → Knob F → Table → Result (Resolved F)
  unfolding tier promote
  resolve_knob catalog tasks manifests scope knob t = tier "task" scope.task_id knob t (
      and_then (promote scope.manifest_id scope.task_id tasks) (λ manifest_id.
        tier "manifest" manifest_id knob t (
          and_then (promote scope.product_id manifest_id manifests)
            (λ product_id. tier "product" product_id knob t (ok (system_default catalog knob))))))

  unfoldable pub resolve :
      List (Knob F) → Lookup → Lookup → Scope → String → Table → Result (Resolved F)
  resolve catalog tasks manifests scope key t = elim (knob_by_key catalog key) [
    | none ↦ err unknown_key
    | some knob ↦ resolve_knob catalog tasks manifests scope knob t
  ]

  -- One round of the loop of pickFromMaps.
  unfoldable pub pick_tier :
      String → String → Entries → Knob F → Result (Resolved F) → Result (Resolved F)
  unfolding decode_value
  pick_tier scope_type scope_id entries knob rest =
      if is_empty scope_id
      then rest
      else elim (entries knob.key) [ none ↦ rest | some e ↦ found scope_type scope_id knob e ]

  unfoldable pub pick_from_maps :
      List (Knob F) → Scope → Entries → Entries → Entries → Knob F → Result (Resolved F)
  unfolding pick_tier
  pick_from_maps catalog scope task_map manifest_map product_map knob =
      pick_tier "task" scope.task_id task_map knob (
        pick_tier "manifest" scope.manifest_id manifest_map knob (
          pick_tier "product" scope.product_id product_map knob (ok (system_default catalog knob))))

  unfoldable pub resolve_all :
      List (Knob F) → Lookup → Lookup → Scope → Table → Result (String → Option (Resolved F))
  unfolding normalize_scope snapshot_scope pick_from_maps pick_all
  resolve_all catalog tasks manifests given t =
      and_then (normalize_scope tasks manifests given) (λ scope.
        and_then (snapshot_scope "task" scope.task_id t) (λ task_map.
          and_then (snapshot_scope "manifest" scope.manifest_id t) (λ manifest_map.
            and_then (snapshot_scope "product" scope.product_id t) (λ product_map.
              pick_all (pick_from_maps catalog scope task_map manifest_map product_map) catalog
                (λ key. none)))))
