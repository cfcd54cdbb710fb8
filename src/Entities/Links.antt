-- ===== src/Entities/Links.antt =====
-- internal/entity/nodes.go: runs of AddNodeEntity and RemoveNodeEntity, and the relation that they stand for.
use mathlib.Core.Path.{fun_ext}
use open_praxis.Entities.Nodes.{
  NodeDb, NodeEntity, add_node_entity, is_link, new_link, remove_node_entity, unlink,
}
use open_praxis.Prelude.{
  Bool, Bool-cases, List, String, [], ap, arith, count, count-append, count-update_off,
  count-update_other, eq_iff, false, if◌then◌else◌, inl, inr, is_empty, ltb, not, refl, suc, true,
  ℕ, ◌&&◌, ◌==◌, ◌∷◌, ◌≡◌,
}

pub data LinkOp : Type 0 where
  link_op : String → String → String → String → String → LinkOp
  unlink_op : String → String → String → String → String → LinkOp

abbrev pub link_time : LinkOp → String
link_time (link_op now node uid by reason) = now
link_time (unlink_op now node uid by reason) = now

unfoldable pub link_step : LinkOp → NodeDb → NodeDb
link_step (link_op now node uid by reason) db = add_node_entity now node uid by reason db
link_step (unlink_op now node uid by reason) db = remove_node_entity now node uid by reason db

unfoldable pub link_run : List LinkOp → NodeDb → NodeDb
unfolding link_step
link_run [] db = db
link_run (op ∷ ops) db = link_run ops (link_step op db)

-- Which nodes are linked to which entities.
abbrev pub Links : Type 0
Links = String → String → Bool

-- `m` with the link of `node` and `uid` set to `b`.
unfoldable pub set_link : String → String → Bool → Links → Links
set_link node uid b m n u = if node == n && uid == u then b else m n u

unfoldable pub link_replay : List LinkOp → Links → Links
unfolding set_link
link_replay [] m = m
link_replay (link_op now node uid by reason ∷ ops) m = link_replay ops (set_link node uid true m)
link_replay (unlink_op now node uid by reason ∷ ops) m = link_replay ops (set_link node uid false m)

abbrev pub linked : NodeDb → Links
linked db n u = ltb 0 (count (is_link n u) db.rows)

abbrev pub empty_links : NodeDb
empty_links = record { rows = []; last_id = 0 }

abbrev pub AllLinksTimed : List LinkOp → Type 0
AllLinksTimed [] = Unit
AllLinksTimed (op ∷ ops) = (is_empty (link_time op) ≡ false) × AllLinksTimed ops

pub is_link_same :
    (node uid n u : String) (r : NodeEntity)
    → (node == n && uid == u) ≡ true
    → is_link n u r ≡ is_link node uid r
is_link_same node uid n u r h =
    rw ((eq_iff node n).0 (ground arith), (eq_iff uid u).0 (ground arith)) refl

is_link_other :
    (node uid n u : String) (r : NodeEntity)
    → (node == n && uid == u) ≡ false
    → is_link node uid r ≡ true
    → is_link n u r ≡ false
unfolding is_link
is_link_other node uid n u r apart h =
    let from : r.node_id ≡ node = (eq_iff r.node_id node).0 (ground arith) in
    let to : r.entity_uid ≡ uid = (eq_iff r.entity_uid uid).0 (ground arith) in
    rw (from, to) (ground arith)

is_link-unlink :
    (now by reason n u : String) (r : NodeEntity)
    → is_empty now ≡ false
    → is_link n u (unlink now by reason r) ≡ false
unfolding is_link
is_link-unlink now by reason n u r ticks = rw ticks (ground arith)

is_link-new_link :
    (now : String) (id : ℕ) (node uid by reason n u : String)
    → is_link n u (new_link now id node uid by reason) ≡ (node == n && uid == u)
unfolding is_link
is_link-new_link now id node uid by reason n u = ground arith

module _ (now node uid by reason : String) (db : NodeDb) (n u : String) where
  pub count-add : count (is_link n u) (add_node_entity now node uid by reason db).rows ≡ (
      if (node == n && uid == u) && not (linked db node uid)
      then suc (count (is_link n u) db.rows)
      else count (is_link n u) db.rows)
  unfolding add_node_entity count
  count-add = elim (Bool-cases (linked db node uid)) [
    | inl e ↦ rw (e, add_node_entity) (ground arith)
    | inr e ↦
        rw
          (
            e,
            add_node_entity,
            count-append (is_link n u) db.rows
                (new_link now (suc db.last_id) node uid by reason ∷ []),
            is_link-new_link now (suc db.last_id) node uid by reason n u,
          )
          (ground arith)
  ]

  pub linked-add :
      linked (add_node_entity now node uid by reason db) n u
      ≡ set_link node uid true (linked db) n u
  unfolding set_link
  linked-add = elim (Bool-cases (node == n && uid == u)) [
    | inl e ↦
        let same : count (is_link n u) db.rows ≡ count (is_link node uid) db.rows =
          ap (λ p. count p db.rows) (fun_ext λ r. is_link_same node uid n u r e) in
        rw (count-add, e, same) (ground arith)
    | inr e ↦ rw (count-add, e) refl
  ]

  pub count-remove :
      is_empty now ≡ false
      → count (is_link n u) (remove_node_entity now node uid by reason db).rows
        ≡ (if node == n && uid == u then 0 else count (is_link n u) db.rows)
  unfolding remove_node_entity
  count-remove ticks = elim (Bool-cases (node == n && uid == u)) [
    | inl e ↦
        rw (e, fun_ext λ r. is_link_same node uid n u r e)
          (count-update_off (is_link node uid) (unlink now by reason)
            (λ r. is_link-unlink now by reason node uid r ticks) db.rows)
    | inr e ↦ rw e (
        count-update_other (is_link node uid) (is_link n u) (unlink now by reason)
          (λ r h. is_link_other node uid n u r e h)
          (λ r h. is_link-unlink now by reason n u r ticks) db.rows)
  ]

  pub linked-remove :
      is_empty now ≡ false
      → linked (remove_node_entity now node uid by reason db) n u
        ≡ set_link node uid false (linked db) n u
  unfolding set_link
  linked-remove ticks = rw (count-remove ticks) (ground arith)
