-- ===== src/Entities/Seeding.antt =====
-- internal/entity/types_store.go: what Seed does to the built-in types.
use mathlib.Core.Bool.{false≢true}
use open_praxis.Entities.TypeWrites.{
  count-closed_other, create_done, is_named-close, is_named-name, is_named_not, replaced,
}
use open_praxis.Entities.Types.{
  Builtin, EntityType, Error, Table, backfill, close, error_of, exists, is_backfilled, is_named,
  new_type, seed_one,
}
use open_praxis.Prelude.{
  Bool-cases, Every, Every-append, Every-update_on, Every-updated, Option, String, [], ap, arith,
  count, count-append, count-append_off, count-update_same, eq_refl, false, inl, inr, is_empty, ltb,
  none, refl, sym, true, update, ◌==◌, ◌∙◌, ◌∷◌, ◌≡◌,
}

-- A row that the backfill of `b` leaves as it is.
abbrev pub IsKept : Builtin → EntityType → Type 0
IsKept b r = is_backfilled b r ≡ true → backfill b r ≡ r

-- A table that has the type `b`, and in which its backfill changes nothing.
abbrev pub IsSeeded : Builtin → Table → Type 0
IsSeeded b t = (exists b.name t ≡ true) × Every (IsKept b) t

-- A built-in type with a color and an icon.
abbrev pub IsDrawn : Builtin → Type 0
IsDrawn b = (is_empty b.color ≡ false) × (is_empty b.icon ≡ false)

kept_unnamed : (b : Builtin) (r : EntityType) → is_named b.name r ≡ false → IsKept b r
unfolding is_backfilled
kept_unnamed b r h e = absurd (false≢true (sym h ∙ ground arith))

named_of_backfilled :
    (b : Builtin) (r : EntityType) → is_backfilled b r ≡ true → is_named b.name r ≡ true
unfolding is_backfilled
named_of_backfilled b r h = ground arith

exists-backfill :
    (b : Builtin) (name : String) (t : Table)
    → exists name (update (is_backfilled b) (backfill b) t) ≡ exists name t
unfolding exists is_named
exists-backfill b name t =
    ap (ltb 0) (count-update_same (is_backfilled b) (is_named name) (backfill b) (λ r. refl) t)

exists-replaced :
    (now name : String) (row : EntityType) (t : Table)
    → is_named name row ≡ true
    → exists name (replaced now name row t) ≡ true
unfolding exists count
exists-replaced now name row t h =
    rw (count-append (is_named name) (update (is_named name) (close now) t) (row ∷ []), h)
      (ground arith)

exists-replaced_other :
    (now name other : String) (row : EntityType) (t : Table)
    → is_empty now ≡ false
    → (name == other) ≡ false
    → row.name ≡ name
    → exists other (replaced now name row t) ≡ exists other t
unfolding exists
exists-replaced_other now name other row t ticks apart same = ap (ltb 0) (
    count-append_off (is_named other) (update (is_named name) (close now) t) row
      (is_named_not name other row apart same)
    ∙ count-closed_other now name other ticks apart t)

module _ (now uid : String → String) (ticks : (name : String) → is_empty (now name) ≡ false) where
  abbrev pub seeded_row : Builtin → EntityType
  seeded_row b =
      new_type (now b.name) (uid b.name) b.name b.display_name b.description b.color b.icon "system"

  pub seed_one_known :
      (b : Builtin) (t : Table)
      → exists b.name t ≡ true
      → seed_one now uid b t ≡ (update (is_backfilled b) (backfill b) t, none)
  unfolding seed_one
  seed_one_known b t h = rw (h, seed_one) refl

  seed_one_missing :
      (b : Builtin) (t : Table)
      → exists b.name t ≡ false
      → seed_one now uid b t ≡ (replaced (now b.name) b.name (seeded_row b) t, none)
  unfolding seed_one
  seed_one_missing b t h =
      rw (h, seed_one)
        (ap (λ out. (out.0, error_of out.1))
          (create_done (now b.name) (uid b.name) b.name b.display_name b.description b.color b.icon
            "system" t (ticks b.name)))

  -- Whatever holds of the backfilled table and of the table with the type created holds after.
  pub seed_one_cases {ℓ} :
      (P : Table × Option Error → Type ℓ) (b : Builtin) (t : Table)
      → (exists b.name t ≡ true → P (update (is_backfilled b) (backfill b) t, none))
      → (exists b.name t ≡ false → P (replaced (now b.name) b.name (seeded_row b) t, none))
      → P (seed_one now uid b t)
  seed_one_cases P b t known missing = elim (Bool-cases (exists b.name t)) [
    | inl e ↦ rw (seed_one_known b t e) (known e)
    | inr e ↦ rw (seed_one_missing b t e) (missing e)
  ]

  named_self : (b : Builtin) → is_named b.name (seeded_row b) ≡ true
  unfolding is_named
  named_self b = rw (eq_refl b.name) refl

  seeded-IsKept : (b : Builtin) → IsDrawn b → IsKept b (seeded_row b)
  seeded-IsKept b (color, icon) e = rw (color, icon) refl

  pub seed_one-IsSeeded :
      (b : Builtin) (t : Table) → IsDrawn b → IsSeeded b (seed_one now uid b t).0
  seed_one-IsSeeded b t drawn =
      seed_one_cases (λ out. IsSeeded b out.0) b t
        (λ e. (
          exists-backfill b b.name t ∙ e,
          Every-updated (IsKept b) (is_backfilled b) (backfill b) (λ r h k. refl)
              (λ r h k. absurd (false≢true (sym h ∙ k))) t,
        ))
        (λ e. (
          exists-replaced (now b.name) b.name (seeded_row b) t (named_self b),
          Every-append (IsKept b) _ (seeded_row b)
              (Every-updated (IsKept b) (is_named b.name) (close (now b.name))
                (λ r h.
                  kept_unnamed b (close (now b.name) r)
                    (is_named-close (now b.name) b.name (ticks b.name) r))
                (λ r h. kept_unnamed b r h) t)
              (seeded-IsKept b drawn),
        ))

  pub seed_one-other :
      (b other : Builtin) (t : Table)
      → (b.name == other.name) ≡ false
      → IsSeeded other t
      → IsSeeded other (seed_one now uid b t).0
  seed_one-other b other t apart (there, kept) =
      seed_one_cases (λ out. IsSeeded other out.0) b t
        (λ e. (
          exists-backfill b other.name t ∙ there,
          Every-update_on (IsKept other) (is_backfilled b) (backfill b)
              (λ r h. kept_unnamed other (backfill b r) (
                is_named_not b.name other.name (backfill b r) apart
                  (is_named-name b.name r (named_of_backfilled b r h)).0))
              t kept,
        ))
        (λ e. (
          exists-replaced_other (now b.name) b.name other.name (seeded_row b) t (ticks b.name) apart
                refl
              ∙ there,
          Every-append (IsKept other) _ (seeded_row b)
              (Every-update_on (IsKept other) (is_named b.name) (close (now b.name))
                (λ r h.
                  kept_unnamed other (close (now b.name) r)
                    (is_named-close (now b.name) other.name (ticks b.name) r))
                t kept)
              (kept_unnamed other (seeded_row b)
                (is_named_not b.name other.name (seeded_row b) apart refl)),
        ))
