-- ===== src/Templates/Overrides.antt =====
-- internal/templates: an override under UpdateBody, Tombstone and CloseStatus, as Get and Resolve see it.
use open_praxis.Prelude.{
  Bool, Bool-cases, Option, Option-cases, String, arith, eq_iff, false, inl, inr, is_empty, none,
  refl, some, true, update, ◌==◌, ◌∙◌, ◌≡◌,
}
use open_praxis.Templates.Actives.{is_active_at-buried, is_active_at-shut, place_of}
use open_praxis.Templates.Edits.{IsValid}
use open_praxis.Templates.Effects.{
  active_is_live, active_is_undeleted, found_row, get_kept, get_retired,
}
use open_praxis.Templates.Resolver.{
  AgentLookup, ScopeLookup, agent_of, lookup, resolve, resolve_wider, scopes_of, tier,
}
use open_praxis.Templates.Store.{buried, close_status, get, is_undeleted_of, shut, tombstone}
use open_praxis.Templates.Template.{
  Db, Template, is_active_at, is_at, is_live_of, is_open_of, scope_agent, scope_manifest,
  scope_product, scope_system, scope_task,
}

-- A database in which Get returns at every place outside the scope `task` what it returned in `db`.
resolve_wider_same :
    (scope : Option ScopeLookup) (agents : Option AgentLookup) (section task : String)
    (db after : Db)
    → ((s i : String) → (scope_task == s) ≡ false → get s i section after ≡ get s i section db)
    → resolve_wider scope agents section task after ≡ resolve_wider scope agents section task db
unfolding resolve_wider tier lookup
resolve_wider_same scope agents section task db after same =
    elim (Option-cases (scopes_of scope task)) [
      | inl e ↦ rw (resolve_wider, e) refl
      | inr (ids, e) ↦ elim (Option-cases (agent_of agents task)) [
        | inl a ↦
            rw
              (
                resolve_wider,
                e,
                a,
                tier,
                lookup,
                same scope_manifest ids.0 refl,
                same scope_product ids.1 refl,
              )
              refl
        | inr (agent, a) ↦
            rw
              (
                resolve_wider,
                e,
                a,
                tier,
                lookup,
                same scope_manifest ids.0 refl,
                same scope_product ids.1 refl,
                same scope_agent agent refl,
                same scope_system "" refl,
              )
              refl
      ]
    ]

off_place :
    (section task s i : String) (old : Template)
    → is_active_at scope_task task section old ≡ true
    → (scope_task == s) ≡ false
    → is_active_at s i section old ≡ false
unfolding is_active_at is_at
off_place section task s i old h apart =
    let (at, by_id, part) = place_of scope_task task section old h in rw (at, apart) refl

resolve_task :
    (scope : Option ScopeLookup) (agents : Option AgentLookup) (section task : String) (db : Db)
    {t : Template}
    → is_empty task ≡ false
    → get scope_task task section db ≡ some t
    → resolve scope agents section task db ≡ some t.body
unfolding resolve tier lookup
resolve_task scope agents section task db named h = rw (resolve, tier, named, lookup, h) refl

resolve_no_task :
    (scope : Option ScopeLookup) (agents : Option AgentLookup) (section task : String) (db : Db)
    → get scope_task task section db ≡ none
    → resolve scope agents section task db ≡ resolve_wider scope agents section task db
unfolding resolve tier lookup
resolve_no_task scope agents section task db h = elim (Bool-cases (is_empty task)) [
  | inl e ↦ rw (resolve, tier, e) refl
  | inr e ↦ rw (resolve, tier, e, lookup, h) refl
]

-- The override of a task that is taken out of use.
resolve-retired :
    (p : Template → Bool) (f : Template → Template) (db : Db)
    → IsValid db
    → ((s i c : String) (t : Template) → is_active_at s i c (f t) ≡ false)
    → (scope : Option ScopeLookup) (agents : Option AgentLookup) (section task : String)
      (old : Template)
    → get scope_task task section db ≡ some old
    → ((t : Template) → p t ≡ true → t.template_uid ≡ old.template_uid)
    → p old ≡ true
    → resolve scope agents section task (record db { rows = update p f db.rows })
      ≡ resolve_wider scope agents section task db
resolve-retired p f db v off scope agents section task old found own hit =
    let (at, m, test) = found_row scope_task task section db v found in
    resolve_no_task scope agents section task (record db { rows = update p f db.rows })
      (get_retired p f db v off scope_task task section old found own hit)
    ∙ resolve_wider_same scope agents section task db (record db { rows = update p f db.rows })
        (λ s i apart.
          get_kept p f db v off scope_task task section old found own s i section
            (off_place section task s i old test apart))

undeleted_owner :
    (uid : String) (t : Template) → is_undeleted_of uid t ≡ true → t.template_uid ≡ uid
unfolding is_undeleted_of
undeleted_owner uid t h = (eq_iff t.template_uid uid).0 (ground arith)

live_owner : (uid : String) (t : Template) → is_live_of uid t ≡ true → t.template_uid ≡ uid
unfolding is_live_of is_open_of
live_owner uid t h = (eq_iff t.template_uid uid).0 (ground arith)

-- In a database with one open row for each uid and one active row for each place: once Tombstone at
-- a non-empty time, or CloseStatus, has retired the template that Get finds for a task, Resolve
-- returns for that task what its walk over the manifest, product, agent and system tiers gave
-- before.
pub retired_override_falls_through :
    (now by reason : String) (db : Db) (scope : Option ScopeLookup) (agents : Option AgentLookup)
    (section task : String) (old : Template)
    → IsValid db
    → is_empty now ≡ false
    → is_empty old.template_uid ≡ false
    → get scope_task task section db ≡ some old
    → (resolve scope agents section task (tombstone now old.template_uid by reason db).0
        ≡ resolve_wider scope agents section task db)
      × (resolve scope agents section task (close_status old.template_uid by reason db).0
          ≡ resolve_wider scope agents section task db)
unfolding tombstone close_status
retired_override_falls_through now by reason db scope agents section task old v ticks named found =
    let (at, m, test) = found_row scope_task task section db v found in
    (
      rw (tombstone, named)
          (resolve-retired (is_undeleted_of old.template_uid) (buried now by reason) db v
            (λ s i c t. is_active_at-buried now by reason s i c ticks t) scope agents section task
            old found (λ t h. undeleted_owner old.template_uid t h)
            (active_is_undeleted scope_task task section old test)),
      rw (close_status, named)
          (resolve-retired (is_live_of old.template_uid) (shut by reason) db v
            (λ s i c t. is_active_at-shut by reason s i c t) scope agents section task old found
            (λ t h. live_owner old.template_uid t h)
            (active_is_live scope_task task section old test)),
    )
