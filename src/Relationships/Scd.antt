-- ===== src/Relationships/Scd.antt =====
-- internal/relationships/store.go: the current rows of one edge under Create and Remove.
use native.Mathlib.Nat.{le_trans}
use open_praxis.Prelude.{
  Bool-cases, Option-cases, String, [], any, arith, count, count-append, count-update-le,
  count-update_off, eq_iff, false, inl, inr, is_empty, none, refl, sym, true, update, ◌++◌, ◌||◌,
  ◌∙◌, ◌∷◌, ◌≡◌, ◌≤◌,
}
use open_praxis.Relationships.Edge.{
  Edge, Table, check_edge, is_current, is_current_edge, is_edge, same_key, valid_edge_kind,
}
use open_praxis.Relationships.Write.{close, close_by, close_prior, create, fresh_row, remove}

pub record IsScd (t : Table) : Type 0 where
  pub one_current : (src dst kind : String) → count (is_current_edge src dst kind) t ≤ 1

module _ (src dst kind : String) where
  pub is_edge_sound :
      (r : Edge)
      → is_edge src dst kind r ≡ true
      → (r.src_id ≡ src) × (r.dst_id ≡ dst) × (r.kind ≡ kind)
  unfolding is_edge
  is_edge_sound r h = ground (arith, eq_iff r.src_id src, eq_iff r.dst_id dst, eq_iff r.kind kind)

  pub is_edge_of_current :
      (r : Edge) → is_current_edge src dst kind r ≡ true → is_edge src dst kind r ≡ true
  unfolding is_current_edge
  is_edge_of_current r h = ground arith

  pub is_current_edge-close :
      (now : String)
      → is_empty now ≡ false
      → (r : Edge) → is_current_edge src dst kind (close now r) ≡ false
  unfolding is_current_edge is_current
  is_current_edge-close now h r = ground arith

  pub is_current_edge-close_by :
      (now by reason : String)
      → is_empty now ≡ false
      → (r : Edge) → is_current_edge src dst kind (close_by now by reason r) ≡ false
  unfolding is_current_edge is_current
  is_current_edge-close_by now by reason h r = ground arith

module _ (now : String) (e : Edge) (ticks : is_empty now ≡ false) (t : Table) where
  pub count-close_prior_self :
      count (is_current_edge e.src_id e.dst_id e.kind) (close_prior now e t) ≡ 0
  unfolding close_prior
  count-close_prior_self =
      count-update_off _ (close now) (is_current_edge-close e.src_id e.dst_id e.kind now ticks) t

  pub count-close_prior-le :
      (src dst kind : String)
      → count (is_current_edge src dst kind) (close_prior now e t)
        ≤ count (is_current_edge src dst kind) t
  unfolding close_prior
  count-close_prior-le src dst kind =
      count-update-le _ _ (close now) (is_current_edge-close src dst kind now ticks) t

  -- A row of the edge `e` may follow, since the prior one is closed.
  count-close_prior-append :
      (r : Edge) (src dst kind : String)
      → (r.src_id ≡ e.src_id) × (r.dst_id ≡ e.dst_id) × (r.kind ≡ e.kind)
      → count (is_current_edge src dst kind) t ≤ 1
      → count (is_current_edge src dst kind) (close_prior now e t ++ r ∷ []) ≤ 1
  unfolding count
  count-close_prior-append r src dst kind same h =
      rw (count-append (is_current_edge src dst kind) (close_prior now e t) (r ∷ []))
        (elim (Bool-cases (is_current_edge src dst kind r)) [
          | inl c ↦
              let edge = is_edge_sound src dst kind r (is_edge_of_current src dst kind r c) in
              rw
                (
                  c,
                  sym edge.0 ∙ same.0,
                  sym edge.1 ∙ same.1,
                  sym edge.2 ∙ same.2,
                  count-close_prior_self,
                )
                (omega arith)
          | inr c ↦ rw c (omega (arith, count-close_prior-le src dst kind))
        ])

-- What holds of the table as it was, and of the table with the prior row closed and the fresh one
-- added, holds after Create.
pub create_cases {ℓ} :
    (P : Table → Type ℓ) (now : String) (e : Edge) (t : Table)
    → P t
    → (check_edge e ≡ none
        → any (same_key (fresh_row now e)) (close_prior now e t) ≡ false
        → P (close_prior now e t ++ fresh_row now e ∷ []))
    → P (create now e t).0
unfolding create
create_cases P now e t before after = elim (Option-cases (check_edge e)) [
  | inl good ↦ elim (Bool-cases (any (same_key (fresh_row now e)) (close_prior now e t))) [
    | inl clash ↦ rw (good, clash, create) before
    | inr free ↦ rw (good, free, create) (after good free)
  ]
  | inr (x, bad) ↦ rw (bad, create) before
]

-- Create at a non-empty time keeps the invariant that each edge has at most one current row.
pub create-IsScd :
    (now : String) (e : Edge) (t : Table)
    → is_empty now ≡ false
    → IsScd t
    → IsScd (create now e t).0
unfolding fresh_row
create-IsScd now e t ticks h = create_cases IsScd now e t h λ good free. record {
  one_current = λ src dst kind.
      count-close_prior-append now e ticks t (fresh_row now e) src dst kind (refl, refl, refl)
        (h.one_current src dst kind);
}

pub remove_cases {ℓ} :
    (P : Table → Type ℓ) (now src dst kind by reason : String) (t : Table)
    → P t
    → P (update (is_current_edge src dst kind) (close_by now by reason) t)
    → P (remove now src dst kind by reason t).0
unfolding remove
remove_cases P now src dst kind by reason t before after =
    elim (Bool-cases (is_empty src || is_empty dst)) [
      | inl e ↦ rw (e, remove) before
      | inr e ↦ elim (Bool-cases (valid_edge_kind kind)) [
        | inl k ↦ rw (e, k, remove) after
        | inr k ↦ rw (e, k, remove) before
      ]
    ]

-- Remove at a non-empty time keeps the invariant that each edge has at most one current row.
pub remove-IsScd :
    (now src dst kind by reason : String) (t : Table)
    → is_empty now ≡ false
    → IsScd t
    → IsScd (remove now src dst kind by reason t).0
remove-IsScd now src dst kind by reason t ticks h =
    remove_cases IsScd now src dst kind by reason t h (record {
      one_current = λ s d k.
          le_trans
            (count-update-le (is_current_edge src dst kind) (is_current_edge s d k)
              (close_by now by reason) (is_current_edge-close_by s d k now by reason ticks) t)
            (h.one_current s d k);
    })

-- Create and Remove at a non-empty time keep the invariant that each edge has at most one current
-- row.
pub writes-IsScd :
    (now : String) (e : Edge) (src dst kind by reason : String) (t : Table)
    → is_empty now ≡ false
    → IsScd t
    → IsScd (create now e t).0 × IsScd (remove now src dst kind by reason t).0
writes-IsScd now e src dst kind by reason t ticks h =
    (create-IsScd now e t ticks h, remove-IsScd now src dst kind by reason t ticks h)
