-- ===== src/Relationships/Effects.antt =====
-- internal/relationships/store.go: what a write does to the table.
use mathlib.Core.List.{append-nil}
use open_praxis.Prelude.{
  Bool, Bool-cases, Memᴰ, Option, Option-cases, String, [], arith, count, count-append,
  count-update-add, count-update_off, eq_refl, false, first, first-append_of_none,
  first-none_of_count, if◌then◌else◌, inl, inr, is_empty, length-append, length-update,
  mem-append_left, mem-update_changed, mem-update_kept, none, refl, some, true, update, ◌&&◌, ◌++◌,
  ◌+◌, ◌||◌, ◌∷◌, ◌≡◌,
}
use open_praxis.Relationships.Edge.{
  Edge, Error, Table, check_edge, is_current, is_current_edge, is_edge, ok, valid_edge_kind,
}
use open_praxis.Relationships.Read.{get, health}
use open_praxis.Relationships.Scd.{count-close_prior_self, is_current_edge-close_by}
use open_praxis.Relationships.Write.{
  close, close_by, close_prior, create, finish, fresh_row, insert_row, remove,
}

abbrev FailsCleanly : Table → Table × Option Error → Type 0
FailsCleanly t result = (x : Error) → result.1 ≡ some x → result.0 ≡ t

finish_cleanly : (t : Table) (o : Option Table) → FailsCleanly t (finish t o)
finish_cleanly t none x h = refl
finish_cleanly t (some u) x h = cc

create_cleanly : (now : String) (e : Edge) (t : Table) → FailsCleanly t (create now e t)
unfolding create
create_cleanly now e t x h =
    ground (arith, finish_cleanly t (insert_row (fresh_row now e) (close_prior now e t)) x)

-- What a Create without an error did.
pub create_done :
    (now : String) (e : Edge) (t : Table)
    → (create now e t).1 ≡ none
    → (check_edge e ≡ none) × ((create now e t).0 ≡ close_prior now e t ++ fresh_row now e ∷ [])
unfolding create insert_row
create_done now e t h = ground arith

checked_edge :
    (e : Edge)
    → check_edge e ≡ none
    → ((is_empty e.src_id || is_empty e.dst_id) ≡ false) × (valid_edge_kind e.kind ≡ true)
unfolding check_edge
checked_edge e h = ground arith

fresh_row-current :
    (now : String) (e : Edge) → is_current_edge e.src_id e.dst_id e.kind (fresh_row now e) ≡ true
unfolding is_current_edge is_edge is_current fresh_row
fresh_row-current now e = simp eq_refl

-- After a Create at a non-empty time that returns no error, Get finds the row that it wrote.
pub get-create :
    (now : String) (e : Edge) (t : Table)
    → is_empty now ≡ false
    → (create now e t).1 ≡ none
    → get e.src_id e.dst_id e.kind (create now e t).0 ≡ ok (some (fresh_row now e))
unfolding get first
get-create now e t ticks h =
    let (good, table) = create_done now e t h in
    let (ids, kind) = checked_edge e good in
    let found = is_current_edge e.src_id e.dst_id e.kind in
    rw
      (
        ids,
        kind,
        table,
        first-append_of_none found (close_prior now e t) _ (count-close_prior_self now e ticks t),
      )
      (rw (fresh_row-current now e))

-- After a Remove at a non-empty time that returns no error, Get finds no current row of that edge.
pub get-remove :
    (now src dst kind by reason : String) (t : Table)
    → is_empty now ≡ false
    → (remove now src dst kind by reason t).1 ≡ none
    → get src dst kind (remove now src dst kind by reason t).0 ≡ ok none
unfolding get remove
get-remove now src dst kind by reason t ticks h = ground (
  arith,
  first-none_of_count (is_current_edge src dst kind)
      (update (is_current_edge src dst kind) (close_by now by reason) t)
      (count-update_off (is_current_edge src dst kind) (close_by now by reason)
        (is_current_edge-close_by src dst kind now by reason ticks) t),
)

-- A write that returns no error.
unfoldable pub succeeded : Option Error → Bool
succeeded none = true
succeeded (some x) = false

updated_row :
    (p : Edge → Bool) (f : Edge → Edge) (t u : Table) {r : Edge}
    → Memᴰ r t
    → Memᴰ (if p r then f r else r) (update p f t ++ u)
updated_row p f t u {r} m = elim (Bool-cases (p r)) [
  | inl it ↦ rw it (mem-append_left _ u (mem-update_changed p f t m it))
  | inr other ↦ rw other (mem-append_left _ u (mem-update_kept p f t m other))
]

create_closes :
    (now : String) (e : Edge) (t : Table) {r : Edge}
    → Memᴰ r t
    → Memᴰ
        (if succeeded (create now e t).1 && is_current_edge e.src_id e.dst_id e.kind r
          then close now r
          else r)
        (create now e t).0
unfolding succeeded close_prior
create_closes now e t {r} m = elim (Option-cases (create now e t).1) [
  | inl h ↦
      rw (h, (create_done now e t h).1)
        (updated_row (is_current_edge e.src_id e.dst_id e.kind) (close now) t _ m)
  | inr (x, h) ↦ rw (h, create_cleanly now e t x h) m
]

remove_closes :
    (now src dst kind by reason : String) (t : Table) {r : Edge}
    → Memᴰ r t
    → Memᴰ
        (if succeeded (remove now src dst kind by reason t).1 && is_current_edge src dst kind r
          then close_by now by reason r
          else r)
        (remove now src dst kind by reason t).0
unfolding remove succeeded
remove_closes now src dst kind by reason t {r} m =
    elim (Bool-cases (is_empty src || is_empty dst)) [
      | inl e ↦ rw (remove, e) m
      | inr e ↦ elim (Bool-cases (valid_edge_kind kind)) [
        | inr f ↦ rw (remove, e, f) m
        | inl f ↦
            rw (remove, e, f)
              (rw append-nil at
                (updated_row (is_current_edge src dst kind) (close_by now by reason) t [] m))
      ]
    ]

-- After a Create, a row of the table is still there, and unchanged unless the Create returned no
-- error and the row was the current version of that edge: then it is there with valid_to set to now
-- and every other column as before. After a Remove the same holds, the row that it closes having
-- also the name and the reason given.
pub writes_keep_history :
    (now : String) (e : Edge) (src dst kind by reason : String) (t : Table) {r : Edge}
    → Memᴰ r t
    → Memᴰ
        (if succeeded (create now e t).1 && is_current_edge e.src_id e.dst_id e.kind r
          then record {
            src_kind = r.src_kind;
            src_id = r.src_id;
            dst_kind = r.dst_kind;
            dst_id = r.dst_id;
            kind = r.kind;
            metadata = r.metadata;
            valid_from = r.valid_from;
            valid_to = now;
            created_by = r.created_by;
            reason = r.reason;
            created_at = r.created_at;
          }
          else r)
        (create now e t).0
      × Memᴰ
          (if succeeded (remove now src dst kind by reason t).1 && is_current_edge src dst kind r
            then record {
              src_kind = r.src_kind;
              src_id = r.src_id;
              dst_kind = r.dst_kind;
              dst_id = r.dst_id;
              kind = r.kind;
              metadata = r.metadata;
              valid_from = r.valid_from;
              valid_to = now;
              created_by = by;
              reason = reason;
              created_at = r.created_at;
            }
            else r)
          (remove now src dst kind by reason t).0
writes_keep_history now e src dst kind by reason t {r} m =
    (create_closes now e t m, remove_closes now src dst kind by reason t m)

is_current_of_edge :
    (e r : Edge) → is_current_edge e.src_id e.dst_id e.kind r ≡ true → is_current r ≡ true
unfolding is_current_edge
is_current_of_edge e r h = ground arith

fresh_row-count : (now : String) (e : Edge) → count is_current (fresh_row now e ∷ []) ≡ 1
unfolding count is_current fresh_row
fresh_row-count now e = refl

-- After a Create at a non-empty time that returns no error, Health counts one row more, and of the
-- current rows one more, less those that the edge had.
pub health-create :
    (now : String) (e : Edge) (t : Table)
    → is_empty now ≡ false
    → (create now e t).1 ≡ none
    → ((health (create now e t).0).total_rows ≡ (health t).total_rows + 1)
      × ((health (create now e t).0).current_edges
            + count (is_current_edge e.src_id e.dst_id e.kind) t
          ≡ (health t).current_edges + 1)
unfolding health close_prior count is_current
health-create now e t ticks h =
    let edge = is_current_edge e.src_id e.dst_id e.kind in
    let (good, table) = create_done now e t h in
    rw table (
      omega (
        arith,
        length-append (close_prior now e t) (fresh_row now e ∷ []),
        length-update edge (close now) t,
      ),
      omega (
        arith,
        count-append is_current (close_prior now e t) (fresh_row now e ∷ []),
        fresh_row-count now e,
        count-update-add edge is_current (close now) (λ r. ticks) (is_current_of_edge e) t,
      ),
    )
