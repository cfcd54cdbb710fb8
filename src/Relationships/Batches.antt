-- ===== src/Relationships/Batches.antt =====
-- internal/relationships/store.go: the batched operations next to the single ones.
use mathlib.Core.List.{append-nil, append_assoc}
use mathlib.Core.Bool.{false≢true}
use open_praxis.Prelude.{
  Bool, Bool-cases, List, Memᴰ, Option, Option-cases, String, [], any, ap, arith, contains, eq_iff,
  false, if◌then◌else◌, inl, inr, is_empty, map, none, not, refl, select, some, sym, true, ◌&&◌,
  ◌++◌, ◌==◌, ◌∙◌, ◌∷◌, ◌≡◌,
}
use open_praxis.Relationships.Edge.{
  Edge, Table, is_current, ok, valid_edge_kind, validate_backfill_edge,
}
use open_praxis.Relationships.Read.{
  append_at, group_rows, has_kind, list_current, list_for_many, list_incoming,
  list_incoming_for_many, list_outgoing, list_outgoing_for_many,
}
use open_praxis.Relationships.Write.{
  backfill_bulk, finish, insert_row, insert_rows, stamp, validate_all,
}

-- `m[id]` on the Go map: a missing key reads as the empty list.
abbrev pub edges_at : String → List (String × List Edge) → List Edge
edges_at id [] = []
edges_at id ((j, es) ∷ m) = if j == id then es else edges_at id m

edges_at-append_at :
    (id k : String) (e : Edge) (m : List (String × List Edge))
    → edges_at id (append_at k e m) ≡ (if k == id then edges_at id m ++ e ∷ [] else edges_at id m)
unfolding append_at
edges_at-append_at id k e [] = ground arith
edges_at-append_at id k e ((j, es) ∷ m) =
    ground (arith, edges_at-append_at id k e m, eq_iff j k, eq_iff j id, eq_iff k id)

module _ (field : Edge → String) (id : String) where
  edges_at-group_rows :
      (es : List Edge) (m : List (String × List Edge))
      → edges_at id (group_rows field es m) ≡ edges_at id m ++ select (λ r. field r == id) es
  unfolding group_rows select
  edges_at-group_rows [] m = sym (append-nil (edges_at id m))
  edges_at-group_rows (e ∷ es) m =
      edges_at-group_rows es (append_at (field e) e m)
      ∙ rw (edges_at-append_at id (field e) e m) (elim (Bool-cases (field e == id)) [
        | inl h ↦ rw h (append_assoc (edges_at id m) (e ∷ []) (select (λ r. field r == id) es))
        | inr h ↦ rw h
      ])

  -- Of the rows for many ids, those of one id are the rows that a query for it alone returns.
  select_one :
      (ids : List String) (b : Edge → Bool) (t : Table)
      → contains ids id ≡ true
      → select (λ r. field r == id) (select (λ r. contains ids (field r) && b r) t)
        ≡ select (λ r. field r == id && b r) t
  unfolding select
  select_one ids b [] h = refl
  select_one ids b (r ∷ t) h = elim (Bool-cases (field r == id)) [
    | inl e ↦
        ground (arith, ap (contains ids) ((eq_iff (field r) id).0 e) ∙ h, select_one ids b t h)
    | inr e ↦ ground (arith, select_one ids b t h)
  ]

named_of_contains :
    (ids : List String) (id : String)
    → any is_empty ids ≡ false
    → contains ids id ≡ true
    → is_empty id ≡ false
unfolding any contains
named_of_contains [] id h c = cc
named_of_contains (i ∷ ids) id h c = elim (Bool-cases (i == id)) [
  | inl e ↦ ground (arith, ap is_empty ((eq_iff i id).0 e))
  | inr e ↦ named_of_contains ids id (ground arith) (ground arith)
]

list_for_many_one :
    (field : Edge → String) (ids : List String) (kind id : String) (t : Table)
    → any is_empty ids ≡ false
    → (not (is_empty kind) && not (valid_edge_kind kind)) ≡ false
    → contains ids id ≡ true
    → (m : List (String × List Edge)) × (list_for_many field ids kind t ≡ ok m)
      × (list_current field id kind t ≡ ok (edges_at id m))
unfolding list_for_many list_current contains
list_for_many_one field [] kind id t named valid asked = absurd (false≢true asked)
list_for_many_one field (i ∷ ids) kind id t named valid asked =
    let rows : List Edge =
      select (λ r. contains (i ∷ ids) (field r) && (is_current r && has_kind kind r)) t in
    (
      group_rows field rows [],
      rw (named, valid),
      rw (named_of_contains (i ∷ ids) id named asked, valid)
          (ap ok (
            sym (
              edges_at-group_rows field id rows []
              ∙ select_one field id (i ∷ ids) (λ r. is_current r && has_kind kind r) t asked))),
    )

-- For ids that are not empty and an edge kind that is empty or valid, the batched readers return,
-- and at each id asked for they hold what the single reader returns for it.
pub list_for_many_lem :
    (ids : List String) (kind id : String) (t : Table)
    → any is_empty ids ≡ false
    → (not (is_empty kind) && not (valid_edge_kind kind)) ≡ false
    → contains ids id ≡ true
    → ((m : List (String × List Edge)) × (list_outgoing_for_many ids kind t ≡ ok m)
        × (list_outgoing id kind t ≡ ok (edges_at id m)))
      × ((m : List (String × List Edge)) × (list_incoming_for_many ids kind t ≡ ok m)
          × (list_incoming id kind t ≡ ok (edges_at id m)))
unfolding list_outgoing list_incoming list_outgoing_for_many list_incoming_for_many
list_for_many_lem ids kind id t named valid asked = (
  list_for_many_one (λ r. r.src_id) ids kind id t named valid asked,
  list_for_many_one (λ r. r.dst_id) ids kind id t named valid asked,
)

same_some : {t u : Table} → some t ≡ some u → u ≡ t
same_some h = cc

insert_row_done : (e : Edge) (t u : Table) → insert_row e t ≡ some u → u ≡ t ++ e ∷ []
unfolding insert_row
insert_row_done e t u h = ground arith

insert_rows_all :
    (now : String) (es : List Edge) (t u : Table)
    → insert_rows now es t ≡ some u
    → u ≡ t ++ map (stamp now) es
unfolding insert_rows
insert_rows_all now [] t u h = same_some h ∙ sym (append-nil t)
insert_rows_all now (e ∷ es) t u h = elim (Option-cases (insert_row (stamp now e) t)) [
  | inl failed ↦ cc (rw (failed, insert_rows) at h)
  | inr (t', done) ↦
      insert_rows_all now es t' u (rw (done, insert_rows) at h)
      ∙ rw (insert_row_done (stamp now e) t t' done)
          (append_assoc t (stamp now e ∷ []) (map (stamp now) es))
]

validate_all_sound :
    (es : List Edge) {e : Edge}
    → validate_all es ≡ none
    → Memᴰ e es
    → validate_backfill_edge e ≡ none
unfolding validate_all
validate_all_sound [] h m = elim m [ ]
validate_all_sound (x ∷ es) h (Memᴰ.head q) = ap validate_backfill_edge q ∙ ground arith
validate_all_sound (x ∷ es) h (Memᴰ.tail m) = validate_all_sound es (ground arith) m

finish_done : (t : Table) (o : Option Table) → (finish t o).1 ≡ none → o ≡ some (finish t o).0
finish_done t none h = cc
finish_done t (some u) h = refl

backfill_bulk_done :
    (now : String) (es : List Edge) (t : Table)
    → (backfill_bulk now es t).1 ≡ none
    → (validate_all es ≡ none) × (insert_rows now es t ≡ some (backfill_bulk now es t).0)
unfolding backfill_bulk
backfill_bulk_done now es t h = ground (arith, finish_done t (insert_rows now es t))

-- A BackfillBulk that returns no error has checked every edge and has added all of them after the
-- rows of the table, in order, each with its creation time set to now and every other column as it
-- was given.
pub backfill_bulk_all :
    (now : String) (es : List Edge) (t : Table)
    → (backfill_bulk now es t).1 ≡ none
    → ((e : Edge) → Memᴰ e es → validate_backfill_edge e ≡ none)
      × ((backfill_bulk now es t).0
          ≡ t
            ++ map
                (λ e. record {
                  src_kind = e.src_kind;
                  src_id = e.src_id;
                  dst_kind = e.dst_kind;
                  dst_id = e.dst_id;
                  kind = e.kind;
                  metadata = e.metadata;
                  valid_from = e.valid_from;
                  valid_to = e.valid_to;
                  created_by = e.created_by;
                  reason = e.reason;
                  created_at = now;
                })
                es)
backfill_bulk_all now es t h =
    let (good, table) = backfill_bulk_done now es t h in
    ((λ e m. validate_all_sound es good m), insert_rows_all now es t _ table)
