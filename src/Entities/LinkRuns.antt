-- ===== src/Entities/LinkRuns.antt =====
-- internal/entity/nodes.go: the lists of links after a run.
use mathlib.Core.Path.{fun_ext}
use open_praxis.Entities.Links.{
  AllLinksTimed, LinkOp, count-add, count-remove, empty_links, is_link_same, link_op, link_replay,
  link_run, link_step, link_time, linked, linked-add, linked-remove, unlink_op,
}
use open_praxis.Entities.Nodes.{
  NodeDb, add_node_entity, is_link, list_by_entity, list_by_node, newest_link, remove_node_entity,
}
use open_praxis.Prelude.{
  Bool-cases, List, String, [], ap, arith, count, count-select, count-sort_by, false, if◌then◌else◌,
  inl, inr, is_empty, ltb, refl, ℕ, ◌&&◌, ◌==◌, ◌∙◌, ◌∷◌, ◌≡◌, ◌≤◌,
}

record IsSingle (db : NodeDb) : Type 0 where
  one_link : (n u : String) → count (is_link n u) db.rows ≤ 1

link_step-IsSingle :
    (op : LinkOp) (db : NodeDb)
    → is_empty (link_time op) ≡ false
    → IsSingle db
    → IsSingle (link_step op db)
unfolding link_step
link_step-IsSingle (link_op now node uid by reason) db ticks h = record {
  one_link = λ n u. elim (Bool-cases (node == n && uid == u)) [
    | inl e ↦
        let same : count (is_link n u) db.rows ≡ count (is_link node uid) db.rows =
          ap (λ p. count p db.rows) (fun_ext λ r. is_link_same node uid n u r e) in
        rw (count-add now node uid by reason db n u, e, same) (ground (arith, h.one_link node uid))
    | inr e ↦ rw (count-add now node uid by reason db n u, e) (h.one_link n u)
  ];
}
link_step-IsSingle (unlink_op now node uid by reason) db ticks h = record {
  one_link =
      λ n u. rw (count-remove now node uid by reason db n u ticks) (ground (arith, h.one_link n u));
}

link_run-link_replay :
    (ops : List LinkOp) (db : NodeDb)
    → AllLinksTimed ops
    → IsSingle db
    → (linked (link_run ops db) ≡ link_replay ops (linked db)) × IsSingle (link_run ops db)
unfolding link_run link_replay link_step
link_run-link_replay [] db timed h = (refl, h)
link_run-link_replay (link_op now node uid by reason ∷ ops) db (ticks, timed) h =
    let rest =
      link_run-link_replay ops (add_node_entity now node uid by reason db) timed
        (link_step-IsSingle (link_op now node uid by reason) db ticks h) in
    (
      rest.0
          ∙ ap (link_replay ops)
              (fun_ext λ n. fun_ext λ u. linked-add now node uid by reason db n u),
      rest.1,
    )
link_run-link_replay (unlink_op now node uid by reason ∷ ops) db (ticks, timed) h =
    let rest =
      link_run-link_replay ops (remove_node_entity now node uid by reason db) timed
        (link_step-IsSingle (unlink_op now node uid by reason) db ticks h) in
    (
      rest.0
          ∙ ap (link_replay ops)
              (fun_ext λ n. fun_ext λ u. linked-remove now node uid by reason db n u ticks),
      rest.1,
    )

listed_by_node :
    (n u : String) (db : NodeDb)
    → count (λ r. r.entity_uid == u) (list_by_node n db) ≡ count (is_link n u) db.rows
unfolding list_by_node is_link
listed_by_node n u db =
    count-sort_by (λ r. r.entity_uid == u) newest_link _
    ∙ count-select (λ r. r.entity_uid == u) (λ r. r.node_id == n && is_empty r.valid_to) db.rows
    ∙ ap (λ p. count p db.rows) (fun_ext λ r. ground arith)

listed_by_entity :
    (n u : String) (db : NodeDb)
    → count (λ r. r.node_id == n) (list_by_entity u db) ≡ count (is_link n u) db.rows
unfolding list_by_entity is_link
listed_by_entity n u db =
    count-sort_by (λ r. r.node_id == n) newest_link _
    ∙ count-select (λ r. r.node_id == n) (λ r. r.entity_uid == u && is_empty r.valid_to) db.rows
    ∙ ap (λ p. count p db.rows) (fun_ext λ r. ground arith)

exactly : (n : ℕ) → n ≤ 1 → n ≡ (if ltb 0 n then 1 else 0)
exactly n h = ground arith

-- From the empty table, after any calls of AddNodeEntity and RemoveNodeEntity at non-empty times:
-- ListByNode has exactly one row of an entity, and ListByEntity exactly one row of the node, when
-- the last call for the pair added it, and both have none otherwise.
pub lists-link_replay :
    (ops : List LinkOp) (n u : String)
    → AllLinksTimed ops
    → (count (λ r. r.entity_uid == u) (list_by_node n (link_run ops empty_links))
        ≡ (if link_replay ops (λ _ _. false) n u then 1 else 0))
      × (count (λ r. r.node_id == n) (list_by_entity u (link_run ops empty_links))
          ≡ (if link_replay ops (λ _ _. false) n u then 1 else 0))
unfolding count
lists-link_replay ops n u timed =
    let (reads, single) =
      link_run-link_replay ops empty_links timed (record { one_link = λ n u. omega arith }) in
    let links : count (is_link n u) (link_run ops empty_links).rows
        ≡ (if link_replay ops (λ _ _. false) n u then 1 else 0) =
      exactly _ (single.one_link n u) ∙ ap (λ b. if b then 1 else 0) (ap (λ m. m n u) reads) in
    (
      listed_by_node n u (link_run ops empty_links) ∙ links,
      listed_by_entity n u (link_run ops empty_links) ∙ links,
    )
