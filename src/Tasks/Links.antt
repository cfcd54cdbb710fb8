-- ===== src/Tasks/Links.antt =====
-- internal/task/repository.go: LinkManifest and UnlinkManifest, over the store of relationships.
use open_praxis.Prelude.{
  Bool-cases, Option, Option-cases, String, ap, false, inl, inr, is_empty, none, refl, some, ◌||◌,
  ◌∙◌, ◌≡◌, ◌⊎◌,
}
use open_praxis.Relationships.Edge.{Edge, Error, Result, Table, err, ok, valid_edge_kind}
use open_praxis.Relationships.Effects.{get-create, get-remove}
use open_praxis.Relationships.Read.{get}
use open_praxis.Relationships.Write.{create, fresh_row, remove}
use open_praxis.Tasks.Linking.{link, owns_edge, store_error, unlink}

pub Result-cases :
    {A : Type 0} (r : Result A) → ((x : Error) × (r ≡ err x)) ⊎ ((a : A) × (r ≡ ok a))
Result-cases (err x) = inl (x, refl)
Result-cases (ok a) = inr (a, refl)

pub store_error-none : (o : Option Error) → store_error o ≡ none → o ≡ none
store_error-none none h = refl
store_error-none (some x) h = cc

link-get :
    (now task manifest : String) (t : Table)
    → is_empty now ≡ false
    → (link now task manifest t).1 ≡ none
    → (e : Edge) × (get manifest task "owns" (link now task manifest t).0 ≡ ok (some e))
unfolding link
link-get now task manifest t ticks h = elim (Result-cases (get manifest task "owns" t)) [
  | inl (x, e) ↦ cc (rw (link, e) at h)
  | inr (found, e) ↦ elim (Option-cases found) [
    | inr (edge, f) ↦ (edge, rw (link, e, f) (e ∙ ap ok f))
    | inl f ↦
        let done : (create now (owns_edge task manifest) t).1 ≡ none =
          store_error-none (create now (owns_edge task manifest) t).1 (rw (link, e, f) at h) in
        (
          fresh_row now (owns_edge task manifest),
          rw (link, e, f) (get-create now (owns_edge task manifest) t ticks done),
        )
  ]
]

link_again :
    (now task manifest : String) (t : Table) {e : Edge}
    → get manifest task "owns" t ≡ ok (some e)
    → link now task manifest t ≡ (t, none)
unfolding link
link_again now task manifest t h = rw (link, h) refl

removed :
    (now task manifest : String) (t : Table) {e : Edge}
    → get manifest task "owns" t ≡ ok (some e)
    → (remove now manifest task "owns" "task.Store.UnlinkManifest" "task unlinked from manifest"
        t).1
      ≡ none
unfolding get remove valid_edge_kind
removed now task manifest t h = elim (Bool-cases (is_empty manifest || is_empty task)) [
  | inl e ↦ cc (rw (get, e) at h)
  | inr e ↦ rw (remove, e) refl
]

unlink-get :
    (now task manifest : String) (t : Table) {e : Edge}
    → is_empty now ≡ false
    → get manifest task "owns" t ≡ ok (some e)
    → get manifest task "owns" (unlink now task manifest t).0 ≡ ok none
unfolding unlink
unlink-get now task manifest t {e} ticks h =
    get-remove now manifest task "owns" "task.Store.UnlinkManifest" "task unlinked from manifest" t
      ticks (removed now task manifest t h)

-- After a LinkManifest at a non-empty time, over a wired store, that returns no error: Get finds a
-- current edge of ownership from the manifest to the task; a second LinkManifest returns no error
-- and changes nothing; and after an UnlinkManifest at a non-empty time Get finds no current edge.
pub link_manifest_lem :
    (now later last task manifest : String) (t : Table)
    → is_empty now ≡ false
    → is_empty last ≡ false
    → (link now task manifest t).1 ≡ none
    → ((e : Edge) × (get manifest task "owns" (link now task manifest t).0 ≡ ok (some e)))
      × (link later task manifest (link now task manifest t).0
          ≡ ((link now task manifest t).0, none))
      × (get manifest task "owns" (unlink last task manifest (link now task manifest t).0).0
          ≡ ok none)
link_manifest_lem now later last task manifest t ticks last_ticks h =
    let (e, found) = link-get now task manifest t ticks h in
    (
      (e, found),
      link_again later task manifest (link now task manifest t).0 found,
      unlink-get last task manifest (link now task manifest t).0 last_ticks found,
    )
