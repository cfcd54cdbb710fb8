-- ===== src/Settings/Agree.antt =====
-- internal/settings/resolver.go: a tier of Resolve next to a tier of ResolveAll.
use open_praxis.Prelude.{
  Bool, Bool-cases, List, Memᴰ, Option, Option-cases, String, [], ap, arith, count, count-select,
  count-sort_by, false, first, inl, inr, is_empty, mem-select_of_test, mem-sort_by, mem_of_first,
  none, refl, select, some, sort_by, sym, text_le, true, ◌&&◌, ◌==◌, ◌∙◌, ◌∷◌, ◌≡◌, ◌≤◌, ◌⊎◌,
}
use open_praxis.Settings.Catalog.{JsonLib, Knob}
use open_praxis.Settings.Keys.{HasUniqueKeys, get_done}
use open_praxis.Settings.Resolver.{
  Entries, Resolved, entries_of, found, pick_tier, put, snapshot_scope, tier, try_scope,
}
use open_praxis.Settings.Store.{
  Entry, Error, Result, Table, err, get, has_name, in_scope, is_at, list_scope, ok, validate_scope,
}

-- The map that the loop of snapshotScope builds: an entry that is alone with its key is read back.
entries_of_absent :
    (key : String) (es : List Entry) (m : Entries)
    → count (has_name key) es ≡ 0
    → entries_of es m key ≡ m key
unfolding entries_of count has_name
entries_of_absent key [] m h = refl
entries_of_absent key (e ∷ es) m h = elim (Bool-cases (e.key == key)) [
  | inl same ↦ absurd (ground (arith, same))
  | inr other ↦ entries_of_absent key es (put e m) (ground (arith, other)) ∙ rw other refl
]

put_hit : (key : String) (e : Entry) (m : Entries) → has_name key e ≡ true → put e m key ≡ some e
unfolding has_name
put_hit key e m h = rw h refl

entries_of_alone :
    (key : String) (es : List Entry) (m : Entries) {e : Entry}
    → Memᴰ e es
    → has_name key e ≡ true
    → count (has_name key) es ≤ 1
    → entries_of es m key ≡ some e
unfolding entries_of count
entries_of_alone key [] m in_list named few = elim in_list [ ]
entries_of_alone key (x ∷ es) m {e} (Memᴰ.head same) named few =
    let here : has_name key x ≡ true = sym (ap (has_name key) same) ∙ named in
    entries_of_absent key es (put x m) (ground (arith, here, few))
    ∙ put_hit key x m here
    ∙ ap some (sym same)
entries_of_alone key (x ∷ es) m (Memᴰ.tail later) named few =
    entries_of_alone key es (put x m) later named (ground (arith, few))

first_cases :
    (p : Entry → Bool) (t : Table)
    → ((e : Entry) × (first p t ≡ some e)) ⊎ ((first p t ≡ none) × (count p t ≡ 0))
unfolding first count
first_cases p [] = inr (refl, refl)
first_cases p (e ∷ t) = elim (Bool-cases (p e)) [
  | inl hit ↦ inl (e, rw hit refl)
  | inr miss ↦ elim (first_cases p t) [
    | inl (x, found) ↦ inl (x, rw miss found)
    | inr (missing, off) ↦ inr (rw miss missing, rw miss off)
  ]
]

and_both : (a b : Bool) → (a && b) ≡ true → (a ≡ true) × (b ≡ true)
and_both a b h = ground arith

module _ (scope_type scope_id key : String) (t : Table) where
  -- The query of snapshotScope.
  snapshot_rows : List Entry
  snapshot_rows = sort_by (λ a b. text_le a.key b.key) (select (in_scope scope_type scope_id) t)

  count-snapshot_rows : count (has_name key) snapshot_rows ≡ count (is_at scope_type scope_id key) t
  unfolding snapshot_rows is_at
  count-snapshot_rows =
      count-sort_by (has_name key) _ _
      ∙ count-select (has_name key) (in_scope scope_type scope_id) t

  snapshot_reads :
      HasUniqueKeys t
      → entries_of snapshot_rows (λ k. none) key ≡ first (is_at scope_type scope_id key) t
  unfolding snapshot_rows is_at
  snapshot_reads unique = elim (first_cases (is_at scope_type scope_id key) t) [
    | inl (e, found) ↦
        let (in_table, hit) = mem_of_first (is_at scope_type scope_id key) t found in
        let (named, scoped) = and_both (has_name key e) (in_scope scope_type scope_id e) hit in
        entries_of_alone key snapshot_rows (λ k. none)
          (mem-sort_by (λ a b. text_le a.key b.key) _
            (mem-select_of_test (in_scope scope_type scope_id) t in_table scoped))
          named (omega (arith, count-snapshot_rows, unique scope_type scope_id key))
        ∙ sym found
    | inr (missing, off) ↦
        entries_of_absent key snapshot_rows (λ k. none) (count-snapshot_rows ∙ off) ∙ sym missing
  ]

pub same_ok {ℓ} : {A : Type ℓ} {a b : A} → ok a ≡ ok b → a ≡ b
same_ok h = cc

pub Result-cases :
    {A : Type 0} (r : Result A) → ((a : A) × (r ≡ ok a)) ⊎ ((x : Error) × (r ≡ err x))
Result-cases (ok a) = inl (a, refl)
Result-cases (err x) = inr (x, refl)

snapshot_done :
    (scope_type scope_id : String) (t : Table)
    → validate_scope scope_type ≡ none
    → is_empty scope_id ≡ false
    → snapshot_scope scope_type scope_id t
      ≡ ok (entries_of (snapshot_rows scope_type scope_id "" t) (λ k. none))
unfolding snapshot_scope list_scope snapshot_rows
snapshot_done scope_type scope_id t good named = rw (named, snapshot_scope, list_scope, good) refl

module _ {F : Type 0} (lib : JsonLib F) (scope_type scope_id : String) (knob : Knob F) (t : Table)
    (rest : Result (Resolved F)) where
  skipped :
      (entries : Entries)
      → is_empty scope_id ≡ true
      → (tier lib scope_type scope_id knob t rest ≡ rest)
        × (pick_tier lib scope_type scope_id entries knob rest ≡ rest)
  unfolding tier pick_tier
  skipped entries h = (rw (h, tier) refl, rw (h, pick_tier) refl)

  -- The entry that the tier has for the knob, decoded; what follows where it has none.
  hit : Option Entry → Result (Resolved F)
  hit none = rest
  hit (some e) = found lib scope_type scope_id knob e

  picked :
      (entries : Entries)
      → is_empty scope_id ≡ false
      → pick_tier lib scope_type scope_id entries knob rest ≡ hit (entries knob.key)
  unfolding pick_tier hit
  picked entries h = elim (Option-cases (entries knob.key)) [
    | inl missing ↦ rw (h, pick_tier, missing) refl
    | inr (e, there) ↦ rw (h, pick_tier, there) refl
  ]

  tried :
      is_empty scope_id ≡ false
      → (o : Option Entry) → get scope_type scope_id knob.key t ≡ ok o
      → tier lib scope_type scope_id knob t rest ≡ hit o
  unfolding tier try_scope hit
  tried h none read = rw (h, tier, try_scope, read) refl
  tried h (some e) read = elim (Result-cases (found lib scope_type scope_id knob e)) [
    | inl (r, decoded) ↦ rw (h, tier, try_scope, read, decoded) refl
    | inr (x, corrupt) ↦ rw (h, tier, try_scope, read, corrupt) refl
  ]

  pub tier_hit :
      (e : Entry)
      → is_empty scope_id ≡ false
      → get scope_type scope_id knob.key t ≡ ok (some e)
      → tier lib scope_type scope_id knob t rest ≡ found lib scope_type scope_id knob e
  unfolding hit
  tier_hit e named read = tried named (some e) read

  -- A round of pickFromMaps over the snapshot of a tier is that tier of Resolve.
  pub pick_tier-eq-tier :
      (entries : Entries)
      → validate_scope scope_type ≡ none
      → HasUniqueKeys t
      → snapshot_scope scope_type scope_id t ≡ ok entries
      → tier lib scope_type scope_id knob t rest
        ≡ pick_tier lib scope_type scope_id entries knob rest
  unfolding snapshot_rows
  pick_tier-eq-tier entries good unique taken = elim (Bool-cases (is_empty scope_id)) [
    | inl empty ↦ let (a, b) = skipped entries empty in a ∙ sym b
    | inr named ↦
        let same : entries_of (snapshot_rows scope_type scope_id knob.key t) (λ k. none) ≡ entries =
          same_ok (sym (snapshot_done scope_type scope_id t good named) ∙ taken) in
        tried named _ (get_done scope_type scope_id knob.key t good)
        ∙ ap hit
            (sym (snapshot_reads scope_type scope_id knob.key t unique) ∙ ap (λ m. m knob.key) same)
        ∙ sym (picked entries named)
  ]
