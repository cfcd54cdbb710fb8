-- ===== src/Tasks/Linking.antt =====
-- internal/task/repository.go: the links and the dependencies of tasks, kept as edges. The store of
-- relationships is `none` where the backend is not wired.
use open_praxis.Prelude.{
  List, Option, String, [], concat, if◌then◌else◌, is_empty, length, map, negsuc, none, not, pos,
  select, some, sort_by, suc, take, text_le, zero, ℕ, ℤ, ◌&&◌, ◌==◌, ◌||◌, ◌∷◌,
}
use open_praxis.Relationships.Edge.{Edge, Error, Result, Table, err, ok}
use open_praxis.Relationships.Read.{get, list_incoming, list_outgoing}
use open_praxis.Relationships.Write.{create, remove}
use open_praxis.Tasks.Status.{
  status_cancelled, status_completed, status_failed, status_paused, status_running,
  status_scheduled, status_waiting,
}

pub data LinkError : Type 0 where
  not_wired : LinkError
  of_store : Error → LinkError

abbrev pub store_error : Option Error → Option LinkError
store_error none = none
store_error (some x) = some (of_store x)

-- A write of the store, where there is one.
abbrev pub wired :
    (Table → Table × Option LinkError) → Option Table → Option Table × Option LinkError
wired write none = (none, some not_wired)
wired write (some t) = (some (write t).0, (write t).1)

abbrev pub owns_edge : String → String → Edge
owns_edge task manifest = record {
  src_kind = "manifest";
  src_id = manifest;
  dst_kind = "task";
  dst_id = task;
  kind = "owns";
  metadata = "";
  valid_from = "";
  valid_to = "";
  created_by = "task.Store.LinkManifest";
  reason = "task linked to manifest";
  created_at = "";
}

unfoldable pub link : String → String → String → Table → Table × Option LinkError
link now task manifest t = elim (get manifest task "owns" t) [
  | err x ↦ (t, some (of_store x))
  | ok found ↦ elim found [
    | some e ↦ (t, none)
    | none ↦ (
      (create now (owns_edge task manifest) t).0,
      store_error (create now (owns_edge task manifest) t).1,
    )
  ]
]

unfoldable pub link_manifest :
    String → String → String → Option Table → Option Table × Option LinkError
unfolding link
link_manifest now task manifest rels = wired (link now task manifest) rels

unfoldable pub unlink : String → String → String → Table → Table × Option LinkError
unlink now task manifest t =
    let out =
      remove now manifest task "owns" "task.Store.UnlinkManifest" "task unlinked from manifest" t in
    (out.0, store_error out.1)

unfoldable pub unlink_manifest :
    String → String → String → Option Table → Option Table × Option LinkError
unfolding unlink
unlink_manifest now task manifest rels = wired (unlink now task manifest) rels

unfoldable pub list_linked_manifests : String → Option Table → Result (List String)
list_linked_manifests task none = ok []
list_linked_manifests task (some t) = elim (list_incoming task "owns" t) [
  | err x ↦ err x
  | ok edges ↦ ok (map (λ e. e.src_id) (select (λ e. e.src_kind == "manifest") edges))
]

-- The status and the block reason of a task whose dependency is set.
unfoldable pub derive_dep_state : String → String → String → String × String
derive_dep_state current parent_status parent_id =
    if current == status_running
      || (current == status_paused
          || (current == status_completed
              || (current == status_failed || current == status_cancelled)))
    then (current, "")
    else if parent_status == status_completed
    then (status_scheduled, "")
    else (
      status_waiting,
      concat "task " (concat parent_id (concat " not completed (is " (concat parent_status ")"))),
    )

abbrev pub dep_edge : String → String → String → String → Edge
dep_edge task depends_on by reason = record {
  src_kind = "task";
  src_id = task;
  dst_kind = "task";
  dst_id = depends_on;
  kind = "depends_on";
  metadata = "";
  valid_from = "";
  valid_to = "";
  created_by = by;
  reason = reason;
  created_at = "";
}

-- The loop that closes the edges to tasks; an error ends it. `clock` gives the times that the calls
-- of the store read, one after the other.
unfoldable pub close_deps : (ℕ → String) → ℕ → String → List Edge → Table → Table × Option Error
close_deps clock i by [] t = (t, none)
close_deps clock i by (p ∷ prior) t =
    let out = remove (clock i) p.src_id p.dst_id "depends_on" by "superseded by SetDependency" t in
    let skipped = close_deps clock i by prior t in
    let rest = close_deps clock (suc i) by prior out.0 in
    if not (p.dst_kind == "task")
    then skipped
    else elim out.1 [ none ↦ rest | some x ↦ (out.0, some x) ]

unfoldable pub write_dep :
    (ℕ → String) → String → String → String → String → Table → Table × Option LinkError
unfolding close_deps
write_dep clock task depends_on by reason t = elim (list_outgoing task "depends_on" t) [
  | err x ↦ (t, some (of_store x))
  | ok prior ↦
      let closed = close_deps clock 0 by prior t in
      let out = create (clock (length prior)) (dep_edge task depends_on by reason) closed.0 in
      elim closed.1 [
        | some x ↦ (closed.0, some (of_store x))
        | none ↦ if is_empty depends_on then (closed.0, none) else (out.0, store_error out.1)
      ]
]

unfoldable pub write_scd_dep_row :
    (ℕ → String)
    → String
    → String
    → String
    → String
    → Option Table
    → Option Table × Option LinkError
unfolding write_dep
write_scd_dep_row clock task depends_on by reason rels =
    wired (write_dep clock task depends_on by reason) rels

pub record DepHistoryEntry : Type 0 where
  pub task_id : String
  pub depends_on : String
  pub valid_from : String
  pub valid_to : String
  pub changed_by : String
  pub reason : String

abbrev pub history_entry : Edge → DepHistoryEntry
history_entry e = record {
  task_id = e.src_id;
  depends_on = e.dst_id;
  valid_from = e.valid_from;
  valid_to = e.valid_to;
  changed_by = e.created_by;
  reason = e.reason;
}

abbrev pub history_limit : ℤ → ℕ
history_limit (negsuc n) = 50
history_limit (pos zero) = 50
history_limit (pos (suc n)) = suc n

unfoldable pub list_dep_history : String → ℤ → Option Table → List DepHistoryEntry
list_dep_history task limit none = []
list_dep_history task limit (some t) = map history_entry (
    take (history_limit limit) (
      sort_by (λ a b. text_le b.valid_from a.valid_from)
        (select (λ e. e.src_id == task && (e.src_kind == "task" && e.kind == "depends_on")) t)))
