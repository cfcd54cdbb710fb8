-- ===== src/Settings/Inherit.antt =====
-- internal/settings/resolver.go: Resolve next to ResolveAll.
use open_praxis.Prelude.{
  Bool-cases, List, Memᴰ, Option, String, [], ap, arith, count, eq_refl, false, first,
  if◌then◌else◌, inl, inr, is_empty, mem-cons_cases, none, not, refl, some, sym, true, ◌&&◌, ◌==◌,
  ◌∙◌, ◌∷◌, ◌≡◌, ◌≤◌,
}
use open_praxis.Settings.Agree.{Result-cases, pick_tier-eq-tier, same_ok}
use open_praxis.Settings.Catalog.{JsonLib, Knob, is_knob, knob_by_key}
use open_praxis.Settings.Keys.{HasUniqueKeys}
use open_praxis.Settings.Resolver.{
  Entries, Lookup, Resolved, Scope, and_then, normalize_scope, pick_all, pick_from_maps, pick_tier,
  promote, promote_strictly, resolve, resolve_all, resolve_knob, snapshot_scope, system_default,
  tier,
}
use open_praxis.Settings.Store.{Result, Table, err, ok, validate_scope}

and_then_ok :
    {A B : Type 0} (r : Result A) (f : A → Result B) {b : B}
    → and_then r f ≡ ok b
    → (a : A) × (r ≡ ok a) × (f a ≡ ok b)
and_then_ok (ok a) f h = (a, refl, h)
and_then_ok (err x) f h = cc

promote_of_strict :
    (upper lower : String) (lookup : Lookup) {id : String}
    → promote_strictly upper lower lookup ≡ ok id
    → promote upper lower lookup ≡ ok id
unfolding promote promote_strictly
promote_of_strict upper lower none h = elim (Bool-cases (is_empty upper && not (is_empty lower))) [
  | inl needed ↦ cc (rw needed at h)
  | inr idle ↦ rw idle at h
]
promote_of_strict upper lower (some lookup) h = h

-- What a NormalizeScope that succeeds has looked up.
record Normal (tasks manifests : Lookup) (given scope : Scope) : Type 0 where
  task : scope.task_id ≡ given.task_id
  manifest : promote_strictly given.manifest_id given.task_id tasks ≡ ok scope.manifest_id
  product : promote_strictly given.product_id scope.manifest_id manifests ≡ ok scope.product_id

normalize_scope-Normal :
    (tasks manifests : Lookup) (given scope : Scope)
    → normalize_scope tasks manifests given ≡ ok scope
    → Normal tasks manifests given scope
unfolding normalize_scope
normalize_scope-Normal tasks manifests given scope h =
    elim (Result-cases (promote_strictly given.manifest_id given.task_id tasks)) [
      | inr (x, lost) ↦ cc (rw (lost, normalize_scope) at h)
      | inl (manifest_id, up) ↦
          elim (Result-cases (promote_strictly given.product_id manifest_id manifests)) [
            | inr (x, lost) ↦ cc (rw (up, normalize_scope, lost) at h)
            | inl (product_id, top) ↦
                let same = same_ok (rw (up, normalize_scope, top) at h) in
                record {
                  task = sym (ap (λ s. s.task_id) same);
                  manifest = up ∙ ap ok (ap (λ s. s.manifest_id) same);
                  product =
                      ap (λ m. promote_strictly given.product_id m manifests)
                        (sym (ap (λ s. s.manifest_id) same))
                      ∙ top
                      ∙ ap ok (ap (λ s. s.product_id) same);
                }
          ]
    ]

module _ {F : Type 0} where
  other_key :
      (key : String) (k : Knob F) (ks : List (Knob F))
      → count (is_knob key) (k ∷ ks) ≡ 0
      → (k.key == key) ≡ false
  unfolding count is_knob
  other_key key k ks off = ground (arith, off)

  no_more :
      (knob k : Knob F) (ks : List (Knob F))
      → knob ≡ k
      → count (is_knob knob.key) (k ∷ ks) ≤ 1
      → count (is_knob knob.key) ks ≡ 0
  unfolding count is_knob
  no_more knob k ks same few =
      let here : (k.key == knob.key) ≡ true = rw (ap (λ x. x.key) same) (eq_refl k.key) in
      ground (arith, here, few)

  put_here :
      (r : Resolved F) (out : String → Option (Resolved F)) (key : String)
      → (if key == key then some r else out key) ≡ some r
  put_here r out key = rw (eq_refl key) refl

  -- The loop over the catalog: a knob that is alone with its key is read back.
  pick_all_absent :
      (pick : Knob F → Result (Resolved F)) (key : String) (ks : List (Knob F))
      (out final : String → Option (Resolved F))
      → pick_all pick ks out ≡ ok final
      → count (is_knob key) ks ≡ 0
      → final key ≡ out key
  unfolding pick_all count is_knob
  pick_all_absent pick key [] out final h off = ap (λ m. m key) (sym (same_ok h))
  pick_all_absent pick key (k ∷ ks) out final h off = elim (Result-cases (pick k)) [
    | inr (x, lost) ↦ cc (rw (lost, pick_all) at h)
    | inl (r, picked) ↦
        pick_all_absent pick key ks _ final (rw (picked, pick_all) at h) (ground (arith, off))
        ∙ rw (other_key key k ks off) refl
  ]

  pick_all_alone :
      (pick : Knob F → Result (Resolved F)) (knob : Knob F) (ks : List (Knob F))
      (out final : String → Option (Resolved F))
      → pick_all pick ks out ≡ ok final
      → Memᴰ knob ks
      → count (is_knob knob.key) ks ≤ 1
      → (r : Resolved F) × (pick knob ≡ ok r) × (final knob.key ≡ some r)
  unfolding pick_all count is_knob
  pick_all_alone pick knob [] out final h m few = elim m [ ]
  pick_all_alone pick knob (k ∷ ks) out final h m few = elim (Result-cases (pick k)) [
    | inr (x, lost) ↦ cc (rw (lost, pick_all) at h)
    | inl (r, picked) ↦ elim (mem-cons_cases m) [
      | inl same ↦ (
        r,
        ap pick same ∙ picked,
        pick_all_absent pick knob.key ks _ final (rw (picked, pick_all) at h)
              (no_more knob k ks same few)
            ∙ rw (sym (ap (λ x. x.key) same)) (put_here r out knob.key),
      )
      | inr later ↦
          pick_all_alone pick knob ks _ final (rw (picked, pick_all) at h) later
            (ground (arith, few))
    ]
  ]

own_key : {F : Type 0} {knob k : Knob F} → knob ≡ k → is_knob knob.key k ≡ true
unfolding is_knob
own_key {knob} {k} same = rw (ap (λ x. x.key) same) (eq_refl k.key)

counted :
    {F : Type 0} (knob : Knob F) (ks : List (Knob F))
    → Memᴰ knob ks
    → 1 ≤ count (is_knob knob.key) ks
unfolding count
counted knob [] m = elim m [ ]
counted knob (k ∷ ks) m = elim (mem-cons_cases m) [
  | inl same ↦ ground (arith, own_key same)
  | inr later ↦ ground (arith, counted knob ks later)
]

hit_twice :
    {F : Type 0} (key : String) (k : Knob F) (ks : List (Knob F))
    → is_knob key k ≡ true
    → count (is_knob key) (k ∷ ks) ≤ 1
    → count (is_knob key) ks ≡ 0
unfolding count
hit_twice key k ks hit few = ground (arith, hit, few)

knob_by_key_lem :
    {F : Type 0} (knob : Knob F) (ks : List (Knob F))
    → Memᴰ knob ks
    → count (is_knob knob.key) ks ≤ 1
    → knob_by_key ks knob.key ≡ some knob
unfolding knob_by_key first count is_knob
knob_by_key_lem knob [] m few = elim m [ ]
knob_by_key_lem knob (k ∷ ks) m few = elim (mem-cons_cases m) [
  | inl same ↦ rw (own_key same) (ap some (sym same))
  | inr later ↦ elim (Bool-cases (is_knob knob.key k)) [
    | inl hit ↦ absurd (omega (arith, counted knob ks later, hit_twice knob.key k ks hit few))
    | inr miss ↦ rw miss (knob_by_key_lem knob ks later (ground (arith, few)))
  ]
]

module _ {F : Type 0} (lib : JsonLib F) (catalog : List (Knob F)) (tasks manifests : Lookup)
    (given : Scope) (t : Table) where
  pub resolve_known :
      (key : String) (knob : Knob F)
      → knob_by_key catalog key ≡ some knob
      → resolve lib catalog tasks manifests given key t
        ≡ resolve_knob lib catalog tasks manifests given knob t
  unfolding resolve
  resolve_known key knob known = rw (known, resolve) refl

  -- Resolve with its lookups made first.
  resolve_walk :
      (scope : Scope) (knob : Knob F)
      → Normal tasks manifests given scope
      → knob_by_key catalog knob.key ≡ some knob
      → resolve lib catalog tasks manifests given knob.key t
        ≡ tier lib "task" scope.task_id knob t (
            tier lib "manifest" scope.manifest_id knob t
              (tier lib "product" scope.product_id knob t (ok (system_default lib catalog knob))))
  unfolding resolve_knob
  resolve_walk scope knob normal known =
      let system = ok (system_default lib catalog knob) in
      let above = λ (r : Result String). and_then r (λ p. tier lib "product" p knob t system) in
      resolve_known knob.key knob known
      ∙ ap
          (λ r. tier lib "task" given.task_id knob t (
            and_then r
              (λ m. tier lib "manifest" m knob t (above (promote given.product_id m manifests)))))
          (promote_of_strict _ _ tasks normal.manifest)
      ∙ ap
          (λ r.
            tier lib "task" given.task_id knob t
              (tier lib "manifest" scope.manifest_id knob t (above r)))
          (promote_of_strict _ _ manifests normal.product)
      ∙ ap
          (λ id. tier lib "task" id knob t (
            tier lib "manifest" scope.manifest_id knob t
              (tier lib "product" scope.product_id knob t system)))
          (sym normal.task)

  resolve_all_parts :
      (out : String → Option (Resolved F))
      → resolve_all lib catalog tasks manifests given t ≡ ok out
      → (scope : Scope) × Normal tasks manifests given scope
        × ((task_map manifest_map product_map : Entries) × (snapshot_scope "task" scope.task_id t
              ≡ ok task_map)
            × (snapshot_scope "manifest" scope.manifest_id t ≡ ok manifest_map)
            × (snapshot_scope "product" scope.product_id t ≡ ok product_map)
            × (pick_all
                  (pick_from_maps lib catalog scope task_map manifest_map product_map)
                  catalog
                  (λ key. none)
                ≡ ok out))
  unfolding resolve_all
  resolve_all_parts out h =
      let (scope, up, a) = and_then_ok _ _ h in
      let (task_map, task, b) = and_then_ok _ _ a in
      let (manifest_map, manifest, c) = and_then_ok _ _ b in
      let (product_map, product, all) = and_then_ok _ _ c in
      (
        scope,
        normalize_scope-Normal tasks manifests given scope up,
        (task_map, manifest_map, product_map, task, manifest, product, all),
      )

  -- The three tiers of a walk are those of the snapshots.
  tiers_lem :
      (scope : Scope) (knob : Knob F) (task_map manifest_map product_map : Entries)
      → HasUniqueKeys t
      → snapshot_scope "task" scope.task_id t ≡ ok task_map
      → snapshot_scope "manifest" scope.manifest_id t ≡ ok manifest_map
      → snapshot_scope "product" scope.product_id t ≡ ok product_map
      → tier lib "task" scope.task_id knob t (
          tier lib "manifest" scope.manifest_id knob t
            (tier lib "product" scope.product_id knob t (ok (system_default lib catalog knob))))
        ≡ pick_from_maps lib catalog scope task_map manifest_map product_map knob
  unfolding pick_from_maps validate_scope
  tiers_lem scope knob task_map manifest_map product_map unique task manifest product =
      let system = ok (system_default lib catalog knob) in
      pick_tier-eq-tier lib "task" scope.task_id knob t _ task_map refl unique task
      ∙ ap (pick_tier lib "task" scope.task_id task_map knob) (
          pick_tier-eq-tier lib "manifest" scope.manifest_id knob t _ manifest_map refl unique
            manifest
          ∙ ap (pick_tier lib "manifest" scope.manifest_id manifest_map knob) (
              pick_tier-eq-tier lib "product" scope.product_id knob t system product_map refl unique
                product))

  -- For a table with unique keys and a catalog whose keys differ: when ResolveAll succeeds, Resolve
  -- succeeds for each knob of the catalog at the same scope, and ResolveAll has its answer under
  -- the knob's key.
  pub resolve_all-eq-resolve :
      (out : String → Option (Resolved F)) (knob : Knob F)
      → HasUniqueKeys t
      → resolve_all lib catalog tasks manifests given t ≡ ok out
      → Memᴰ knob catalog
      → ((key : String) → count (is_knob key) catalog ≤ 1)
      → (r : Resolved F) × (resolve lib catalog tasks manifests given knob.key t ≡ ok r)
        × (out knob.key ≡ some r)
  resolve_all-eq-resolve out knob unique h member distinct =
      let (scope, normal, maps) = resolve_all_parts out h in
      let (task_map, manifest_map, product_map, task, manifest, product, all) = maps in
      let (r, picked, read) =
        pick_all_alone _ knob catalog (λ key. none) out all member (distinct knob.key) in
      (
        r,
        resolve_walk scope knob normal (knob_by_key_lem knob catalog member (distinct knob.key))
            ∙ tiers_lem scope knob task_map manifest_map product_map unique task manifest product
            ∙ picked,
        read,
      )
