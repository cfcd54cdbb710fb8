-- ===== src/Templates/Revisions.antt =====
-- internal/templates/store.go: an override under UpdateBody, as Get sees it.
use open_praxis.Prelude.{
  String, [], any_of_mem, ap, arith, count-update_only, eq_iff, false, first, first-append_of_none,
  is_empty, none, refl, select-append_off, some, sort_by, suc, true, ℕ, ◌∙◌, ◌∷◌, ◌≡◌,
}
use open_praxis.Templates.Actives.{is_active_at-revised, update_body-IsValid}
use open_praxis.Templates.Edits.{
  IsFresh, IsValid, added, closed, is_active_at-close, live_is_open, live_row, update_body_done,
}
use open_praxis.Templates.Effects.{active_is_live, found_row, get-first, get_kept, same_open}
use open_praxis.Templates.Store.{close, get, revised, scan_row, update_body}
use open_praxis.Templates.Template.{
  Db, Template, is_active, is_active_at, is_at, is_live_of, is_open_of, newest_id,
}

first_of_one :
    (s i c : String) (t : Template)
    → is_active_at s i c t ≡ true
    → first (is_active_at s i c) (t ∷ []) ≡ some t
unfolding first
first_of_one s i c t h = rw h refl

open_uid : (uid : String) (t : Template) → is_open_of uid t ≡ true → t.template_uid ≡ uid
unfolding is_open_of
open_uid uid t h = (eq_iff t.template_uid uid).0 (ground arith)

numbered_active :
    (now body by reason uid s i c : String) (n : ℕ) (t : Template)
    → is_live_of uid t ≡ true
    → is_active_at s i c (record (revised now body by reason t) { id = n }) ≡ is_active_at s i c t
unfolding is_active_at is_at is_active
numbered_active now body by reason uid s i c n t h =
    is_active_at-revised now body by reason uid s i c t h

module _ (now body by reason : String) (db : Db) (scope scope_id section : String) (old : Template)
    (v : IsValid db) (ticks : is_empty now ≡ false) (fresh : IsFresh now old.template_uid db)
    (named : is_empty old.template_uid ≡ false)
    (found : get scope scope_id section db ≡ some old) where
  revision :
      (update_body now old.template_uid body by reason db
        ≡ (added (revised now body by reason old) (closed now old.template_uid db), none))
      × (is_live_of old.template_uid old ≡ true)
      × (first (is_open_of old.template_uid) db.rows ≡ some old)
      × (is_active_at scope scope_id section old ≡ true)
  unfolding update_body
  revision =
      let (at, m, test) = found_row scope scope_id section db v found in
      let alive = active_is_live scope scope_id section old test in
      let live = any_of_mem (is_live_of old.template_uid) db.rows m alive in
      let (o, opened, o_live, n) =
        live_row old.template_uid db (v.one_open old.template_uid) live in
      let same : o ≡ old =
        same_open old.template_uid db v n m (live_is_open old.template_uid o o_live)
          (live_is_open old.template_uid old alive) in
      let first_open : first (is_open_of old.template_uid) db.rows ≡ some old =
        opened ∙ ap some same in
      (
        rw (update_body, named)
            (update_body_done now old.template_uid body by reason db ticks fresh v live first_open),
        alive,
        first_open,
        test,
      )

  -- In a database with one open row for each uid and one active row for each place, at a non-empty
  -- time at which no row of the template was closed before: UpdateBody of the template that Get
  -- finds at a place returns no error; Get then finds there a row of the next id with the new body,
  -- the name and the reason given, that begins and is created at that time, has no end, and has the
  -- other columns of the template before; and what Get returns at a place where that template is
  -- not active is as before.
  pub get-update_body :
      (s i c : String)
      → is_active_at s i c old ≡ false
      → ((update_body now old.template_uid body by reason db).1 ≡ none)
        × (get scope scope_id section (update_body now old.template_uid body by reason db).0
            ≡ some (record {
              id = suc db.last_id;
              template_uid = old.template_uid;
              title = old.title;
              scope = old.scope;
              scope_id = old.scope_id;
              section = old.section;
              body = body;
              status = old.status;
              tags = old.tags;
              source_node = old.source_node;
              valid_from = now;
              valid_to = "";
              changed_by = by;
              reason = reason;
              created_at = now;
              deleted_at = "";
            }))
        × (get s i c (update_body now old.template_uid body by reason db).0 ≡ get s i c db)
  unfolding get
  get-update_body s i c apart =
      let (done, alive, first_open, test) = revision in
      let new = record (revised now body by reason old) { id = suc db.last_id } in
      let valid = update_body-IsValid now old.template_uid body by reason db ticks fresh v in
      let none_left =
        count-update_only (is_open_of old.template_uid) (is_active_at scope scope_id section)
          (close now) (is_active_at-close now scope scope_id section ticks) db.rows first_open test
          (v.one_active scope scope_id section) in
      (
        ap (λ out. out.1) done,
        get-first scope scope_id section (update_body now old.template_uid body by reason db).0
              (valid.one_active scope scope_id section)
            ∙ ap (λ out. first (is_active_at scope scope_id section) out.0.rows) done
            ∙ first-append_of_none (is_active_at scope scope_id section) _ (new ∷ []) none_left
            ∙ first_of_one scope scope_id section new (
                numbered_active now body by reason old.template_uid scope scope_id section
                  (suc db.last_id) old alive
                ∙ test),
        ap (λ out. get s i c out.0) done
            ∙ ap (λ ts. scan_row (sort_by newest_id ts))
                (select-append_off (is_active_at s i c) new
                  (numbered_active now body by reason old.template_uid s i c (suc db.last_id) old
                      alive
                    ∙ apart)
                  _)
            ∙ get_kept (is_open_of old.template_uid) (close now) db v
                (λ a b d t. is_active_at-close now a b d ticks t) scope scope_id section old found
                (λ t h. open_uid old.template_uid t h) s i c apart,
      )
