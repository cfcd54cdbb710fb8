-- ===== src/Entities/TypeWrites.antt =====
-- internal/entity/types_store.go: Create and Rename.
use open_praxis.Entities.Types.{
  EntityType, Error, Result, Table, close, create, err, exists, insert, is_named, name_conflict,
  new_type, ok, rename, renamed, replace,
}
use open_praxis.Prelude.{
  Bool-cases, Option-cases, String, [], any, any-eq-count, any_of_first, any_of_first-none, ap,
  arith, count, count-append_off, count-update_off, count-update_other, count_of_first-none, eq_iff,
  eq_refl, false, first, first-append_of_none, inl, inr, is_empty, ltb, refl, some, sym, true,
  update, ◌++◌, ◌==◌, ◌∙◌, ◌∷◌, ◌≡◌,
}

pub is_named-name :
    (name : String) (r : EntityType)
    → is_named name r ≡ true
    → (r.name ≡ name) × (is_empty r.valid_to ≡ true)
unfolding is_named
is_named-name name r h = ((eq_iff r.name name).0 (ground arith), ground arith)

pub is_named_not :
    (name other : String) (r : EntityType)
    → (name == other) ≡ false
    → r.name ≡ name
    → is_named other r ≡ false
unfolding is_named
is_named_not name other r apart h = rw (h, apart) refl

pub is_named-close :
    (now name : String)
    → is_empty now ≡ false
    → (r : EntityType) → is_named name (close now r) ≡ false
unfolding is_named
is_named-close now name ticks r = rw ticks (ground arith)

pub count-closed :
    (now name : String)
    → is_empty now ≡ false
    → (t : Table) → count (is_named name) (update (is_named name) (close now) t) ≡ 0
count-closed now name ticks t =
    count-update_off (is_named name) (close now) (is_named-close now name ticks) t

pub count-closed_other :
    (now name other : String)
    → is_empty now ≡ false
    → (name == other) ≡ false
    → (t : Table)
    → count (is_named other) (update (is_named name) (close now) t) ≡ count (is_named other) t
count-closed_other now name other ticks apart t =
    count-update_other (is_named name) (is_named other) (close now)
      (λ r h. is_named_not name other r apart (is_named-name name r h).0)
      (λ r h. is_named-close now other ticks r) t

-- A row that takes a name which no current row has.
abbrev pub replaced : String → String → EntityType → Table → Table
replaced now name row t = update (is_named name) (close now) t ++ row ∷ []

pub replace_cases {ℓ} :
    (P : Table × Result EntityType → Type ℓ) (now name : String) (row : EntityType) (t : Table)
    → ((x : Error) → P (t, err x))
    → (count (is_named row.name) (update (is_named name) (close now) t) ≡ 0
        → P (replaced now name row t, ok row))
    → P (replace now name row t)
unfolding replace insert
replace_cases P now name row t failed done =
    elim (Option-cases (first (is_named row.name) (update (is_named name) (close now) t))) [
      | inl e ↦
          rw (replace, any_of_first-none (is_named row.name) _ e)
            (done (count_of_first-none (is_named row.name) _ e))
      | inr (a, e) ↦ rw (replace, any_of_first (is_named row.name) _ e) (failed name_conflict)
    ]

pub create_done :
    (now uid name display description color icon by : String) (t : Table)
    → is_empty now ≡ false
    → create now uid name display description color icon by t ≡ (
      replaced now name (new_type now uid name display description color icon by) t,
      ok (new_type now uid name display description color icon by),
    )
unfolding create replace insert
create_done now uid name display description color icon by t ticks =
    let free : any (is_named name) (update (is_named name) (close now) t) ≡ false =
      any-eq-count (is_named name) (update (is_named name) (close now) t)
      ∙ rw (count-closed now name ticks t) refl in
    rw (create, replace, insert, free) refl

same_row : {a b : EntityType} → ok a ≡ ok b → a ≡ b
same_row h = cc

exists_of_first :
    (name other : String) (t : Table) {r : EntityType}
    → (name == other) ≡ true
    → first (is_named name) t ≡ some r
    → exists other t ≡ true
unfolding exists
exists_of_first name other t same h =
    rw (sym ((eq_iff name other).0 same))
      (sym (any-eq-count (is_named name) t) ∙ any_of_first (is_named name) t h)

found_self :
    (row : EntityType) → row.valid_to ≡ "" → first (is_named row.name) (row ∷ []) ≡ some row
unfolding first is_named
found_self row open_end = rw (eq_refl row.name, open_end) refl

replace_ok :
    (now name : String) (row : EntityType) (t : Table) {r : EntityType}
    → is_empty now ≡ false
    → row.valid_to ≡ ""
    → (replace now name row t).1 ≡ ok r
    → (r ≡ row)
      × (first (is_named row.name) (replace now name row t).0 ≡ some row)
      × ((row.name == name) ≡ false → exists name (replace now name row t).0 ≡ false)
unfolding exists
replace_ok now name row t {r} ticks open_end =
    replace_cases
      (λ out.
        out.1 ≡ ok r
        → (r ≡ row)
          × (first (is_named row.name) out.0 ≡ some row)
          × ((row.name == name) ≡ false → ltb 0 (count (is_named name) out.0) ≡ false))
      now name row t (λ x h. cc)
      (λ free h. (
        sym (same_row h),
        first-append_of_none (is_named row.name) _ (row ∷ []) free ∙ found_self row open_end,
        λ apart.
            rw
              (
                count-append_off (is_named name) (update (is_named name) (close now) t) row
                    (is_named_not row.name name row apart refl),
                count-closed now name ticks t,
              )
              refl,
      ))

-- A Rename at a non-empty time that returns a row finds a current row under the old name, whose
-- type_uid the new row keeps; the new row is the current one of the new name, and the old name,
-- when the new one differs, has no current row.
pub rename_keeps_uid :
    (now old_name new_name display description color icon by : String) (t : Table) {r : EntityType}
    → is_empty now ≡ false
    → (rename now old_name new_name display description color icon by t).1 ≡ ok r
    → (old : EntityType) × (first (is_named old_name) t ≡ some old)
      × (r.type_uid ≡ old.type_uid)
      × (first
            (is_named new_name)
            (rename now old_name new_name display description color icon by t).0
          ≡ some r)
      × (exists old_name (rename now old_name new_name display description color icon by t).0
          ≡ (new_name == old_name))
unfolding rename
rename_keeps_uid now old_name new_name display description color icon by t {r} ticks h =
    elim (Option-cases (first (is_named old_name) t)) [
      | inl e ↦ cc (rw (rename, e) at h)
      | inr (old, e) ↦
          let (same, found, gone) =
            replace_ok now old_name
              (renamed now old.type_uid new_name display description color icon by) t ticks refl
              (rw (rename, e) at h) in
          rw (rename, e)
            (
              old,
              refl,
              ap (λ x. x.type_uid) same,
              found ∙ ap some (sym same),
              elim (Bool-cases (new_name == old_name)) [
                | inr apart ↦ gone apart ∙ sym apart
                | inl equal ↦ exists_of_first new_name old_name _ equal found ∙ sym equal
              ],
            )
    ]
