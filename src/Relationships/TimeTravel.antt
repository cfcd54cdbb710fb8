-- ===== src/Relationships/TimeTravel.antt =====
-- internal/relationships/store.go: the readers of a past time, before and after a write.
use open_praxis.Prelude.{
  Bool, List, String, [], ap, arith, false, is_empty, map, map-select-update, refl, select,
  select-append_off, text_lt, true, update, ◌&&◌, ◌++◌, ◌==◌, ◌∙◌, ◌∷◌, ◌≡◌,
}
use open_praxis.Relationships.Edge.{
  Edge, Result, Table, err, is_current, is_current_edge, is_valid_at, ok,
}
use open_praxis.Relationships.Read.{has_kind, list_incoming_at, list_outgoing_at}
use open_praxis.Relationships.Scd.{create_cases, remove_cases}
use open_praxis.Relationships.Write.{close, close_by, close_prior, create, fresh_row, remove}

-- A row without the columns that closing it writes.
abbrev pub forget : Edge → Edge
forget r = record r { valid_to = ""; created_by = ""; reason = "" }

abbrev pub erase : Result (List Edge) → Result (List Edge)
erase (err x) = err x
erase (ok rows) = ok (map forget rows)

-- `f` closes rows at `now`, after `as_of`; `a` and `b` are tests of columns it does not write.
module _ (as_of now : String) (later : text_lt as_of now ≡ true) (p : Edge → Bool) (f : Edge → Edge)
    (current : (r : Edge) → p r ≡ true → is_current r ≡ true)
    (closes : (r : Edge) → (f r).valid_to ≡ now)
    (keeps_from : (r : Edge) → (f r).valid_from ≡ r.valid_from) where
  is_valid_at-closed : (r : Edge) → p r ≡ true → is_valid_at as_of (f r) ≡ is_valid_at as_of r
  unfolding is_valid_at is_current
  is_valid_at-closed r h = rw (closes r, keeps_from r, later) (ground (arith, current r h))

  module _ {κ} {B : Type κ} (a b : Edge → Bool) (g : Edge → B) (same_a : (r : Edge) → a (f r) ≡ a r)
      (same_b : (r : Edge) → b (f r) ≡ b r) (unseen : (r : Edge) → g (f r) ≡ g r) where
    past_select :
        (t : Table)
        → map g (select (λ r. a r && (is_valid_at as_of r && b r)) (update p f t))
          ≡ map g (select (λ r. a r && (is_valid_at as_of r && b r)) t)
    past_select t =
        map-select-update p (λ r. a r && (is_valid_at as_of r && b r)) f g
          (λ r h. rw (same_a r, same_b r, is_valid_at-closed r h)) unseen t

is_current_of_edge :
    (src dst kind : String) (r : Edge) → is_current_edge src dst kind r ≡ true → is_current r ≡ true
unfolding is_current_edge
is_current_of_edge src dst kind r h = ground arith

fresh_row-from :
    (now : String) (e : Edge) → is_empty e.valid_from ≡ true → (fresh_row now e).valid_from ≡ now
unfolding fresh_row
fresh_row-from now e h = rw h

-- A row that begins at `now` is not seen at `as_of`.
module _ (as_of now : String) (later : text_lt as_of now ≡ true) (r : Edge)
    (begins : r.valid_from ≡ now) (a b : Edge → Bool) where
  future_row_off : (a r && (is_valid_at as_of r && b r)) ≡ false
  unfolding is_valid_at
  future_row_off = rw (begins, later) (ground arith)

  future_row :
      (t : Table)
      → select (λ r. a r && (is_valid_at as_of r && b r)) (t ++ r ∷ [])
        ≡ select (λ r. a r && (is_valid_at as_of r && b r)) t
  future_row t = select-append_off (λ r. a r && (is_valid_at as_of r && b r)) r future_row_off t

-- The two writes, for a query of this shape.
module _ {κ} {B : Type κ} (as_of now : String) (later : text_lt as_of now ≡ true)
    (a b : Edge → Bool) (g : Edge → B) where
  pub past-create :
      (e : Edge) (t : Table)
      → is_empty e.valid_from ≡ true
      → ((r : Edge) → a (close now r) ≡ a r)
      → ((r : Edge) → b (close now r) ≡ b r)
      → ((r : Edge) → g (close now r) ≡ g r)
      → map g (select (λ r. a r && (is_valid_at as_of r && b r)) (create now e t).0)
        ≡ map g (select (λ r. a r && (is_valid_at as_of r && b r)) t)
  unfolding close_prior
  past-create e t now_on same_a same_b unseen =
      create_cases
        (λ u.
          map g (select (λ r. a r && (is_valid_at as_of r && b r)) u)
          ≡ map g (select (λ r. a r && (is_valid_at as_of r && b r)) t))
        now e t refl
        (λ good free.
          ap (map g)
            (future_row as_of now later (fresh_row now e) (fresh_row-from now e now_on) a b _)
          ∙ past_select as_of now later (is_current_edge e.src_id e.dst_id e.kind) (close now)
              (is_current_of_edge e.src_id e.dst_id e.kind) (λ r. refl) (λ r. refl) a b g same_a
              same_b unseen t)

  pub past-remove :
      (src dst kind by reason : String) (t : Table)
      → ((r : Edge) → a (close_by now by reason r) ≡ a r)
      → ((r : Edge) → b (close_by now by reason r) ≡ b r)
      → ((r : Edge) → g (close_by now by reason r) ≡ g r)
      → map g (
          select (λ r. a r && (is_valid_at as_of r && b r)) (remove now src dst kind by reason t).0)
        ≡ map g (select (λ r. a r && (is_valid_at as_of r && b r)) t)
  past-remove src dst kind by reason t same_a same_b unseen =
      remove_cases
        (λ u.
          map g (select (λ r. a r && (is_valid_at as_of r && b r)) u)
          ≡ map g (select (λ r. a r && (is_valid_at as_of r && b r)) t))
        now src dst kind by reason t refl
        (past_select as_of now later (is_current_edge src dst kind) (close_by now by reason)
          (is_current_of_edge src dst kind) (λ r. refl) (λ r. refl) a b g same_a same_b unseen t)

-- A Create that starts at `now` does not change what ListOutgoingAt and ListIncomingAt return for
-- an earlier time, errors included, but for the closing columns of the rows.
pub list_at-create :
    (is_rfc3339 : String → Bool) (id kind as_of now : String) (e : Edge) (t : Table)
    → is_empty as_of ≡ false
    → text_lt as_of now ≡ true
    → is_empty e.valid_from ≡ true
    → (erase (list_outgoing_at is_rfc3339 id kind as_of (create now e t).0)
        ≡ erase (list_outgoing_at is_rfc3339 id kind as_of t))
      × (erase (list_incoming_at is_rfc3339 id kind as_of (create now e t).0)
          ≡ erase (list_incoming_at is_rfc3339 id kind as_of t))
unfolding list_outgoing_at list_incoming_at has_kind
list_at-create is_rfc3339 id kind as_of now e t past later now_on = (
  ground (
    arith,
    past-create as_of now later (λ r. r.src_id == id) (has_kind kind) forget e t now_on (λ r. refl)
        (λ r. refl) (λ r. refl),
  ),
  ground (
    arith,
    past-create as_of now later (λ r. r.dst_id == id) (has_kind kind) forget e t now_on (λ r. refl)
        (λ r. refl) (λ r. refl),
  ),
)

-- A Remove at `now` does not change what ListOutgoingAt and ListIncomingAt return for an earlier
-- time, errors included, but for the columns that closing a row writes.
pub list_at-remove :
    (is_rfc3339 : String → Bool) (id field_kind as_of now src dst kind by reason : String)
    (t : Table)
    → is_empty as_of ≡ false
    → text_lt as_of now ≡ true
    → (erase
          (list_outgoing_at is_rfc3339 id field_kind as_of (remove now src dst kind by reason t).0)
        ≡ erase (list_outgoing_at is_rfc3339 id field_kind as_of t))
      × (erase (
            list_incoming_at is_rfc3339 id field_kind as_of (remove now src dst kind by reason t).0)
          ≡ erase (list_incoming_at is_rfc3339 id field_kind as_of t))
unfolding list_outgoing_at list_incoming_at has_kind
list_at-remove is_rfc3339 id field_kind as_of now src dst kind by reason t past later = (
  ground (
    arith,
    past-remove as_of now later (λ r. r.src_id == id) (has_kind field_kind) forget src dst kind by
        reason t (λ r. refl) (λ r. refl) (λ r. refl),
  ),
  ground (
    arith,
    past-remove as_of now later (λ r. r.dst_id == id) (has_kind field_kind) forget src dst kind by
        reason t (λ r. refl) (λ r. refl) (λ r. refl),
  ),
)

-- A Create that starts at `now`, and a Remove at `now`, do not change what ListOutgoingAt and
-- ListIncomingAt return for an earlier time, errors included, but for the columns that closing a
-- row writes.
pub list_at-writes :
    (is_rfc3339 : String → Bool) (id kind as_of now : String) (e : Edge)
    (src dst edge_kind by reason : String) (t : Table)
    → is_empty as_of ≡ false
    → text_lt as_of now ≡ true
    → is_empty e.valid_from ≡ true
    → (erase (list_outgoing_at is_rfc3339 id kind as_of (create now e t).0)
        ≡ erase (list_outgoing_at is_rfc3339 id kind as_of t))
      × (erase (list_incoming_at is_rfc3339 id kind as_of (create now e t).0)
          ≡ erase (list_incoming_at is_rfc3339 id kind as_of t))
      × (erase
            (list_outgoing_at is_rfc3339 id kind as_of (remove now src dst edge_kind by reason t).0)
          ≡ erase (list_outgoing_at is_rfc3339 id kind as_of t))
      × (erase
            (list_incoming_at is_rfc3339 id kind as_of (remove now src dst edge_kind by reason t).0)
          ≡ erase (list_incoming_at is_rfc3339 id kind as_of t))
list_at-writes is_rfc3339 id kind as_of now e src dst edge_kind by reason t past later now_on =
    let (out, into) = list_at-create is_rfc3339 id kind as_of now e t past later now_on in
    let (out', into') =
      list_at-remove is_rfc3339 id kind as_of now src dst edge_kind by reason t past later in
    (out, into, out', into')
