-- ===== src/Templates/Resolver.antt =====
-- internal/templates/resolver.go: the body of a section for a task.
use open_praxis.Prelude.{Option, String, if◌then◌else◌, is_empty, none, some}
use open_praxis.Templates.Store.{get}
use open_praxis.Templates.Template.{
  Db, scope_agent, scope_manifest, scope_product, scope_system, scope_task,
}

-- ManifestAndProductForTask and AgentForTask; an error is `none`.
abbrev pub ScopeLookup : Type 0
ScopeLookup = String → Option (String × String)

abbrev pub AgentLookup : Type 0
AgentLookup = String → Option String

unfoldable pub lookup : String → String → String → Db → Option String
unfolding get
lookup scope scope_id section db = elim (get scope scope_id section db) [
  | none ↦ none
  | some t ↦ some t.body
]

-- A tier whose id is empty is passed over.
unfoldable pub tier : String → String → String → Db → Option String
unfolding lookup
tier scope scope_id section db =
    if is_empty scope_id then none else lookup scope scope_id section db

-- The manifest and the product of a task. A nil lookup is `none`, and an error is `none`.
unfoldable pub scopes_of : Option ScopeLookup → String → Option (String × String)
scopes_of none task = some ("", "")
scopes_of (some find) task = if is_empty task then some ("", "") else find task

unfoldable pub agent_of : Option AgentLookup → String → Option String
agent_of none task = some ""
agent_of (some find) task = if is_empty task then some "" else find task

-- A body found ends the walk, and the rest of it goes on otherwise.
abbrev pub or_next : Option String → Option String → Option String
or_next none rest = rest
or_next (some body) rest = some body

-- What Resolve does once the task has no row of its own.
unfoldable pub resolve_wider :
    Option ScopeLookup → Option AgentLookup → String → String → Db → Option String
unfolding tier lookup scopes_of agent_of
resolve_wider scope agents section task db = elim (scopes_of scope task) [
  | none ↦ none
  | some ids ↦ or_next (tier scope_manifest ids.0 section db) (
      or_next (tier scope_product ids.1 section db) (elim (agent_of agents task) [
        | none ↦ none
        | some agent ↦
            or_next (tier scope_agent agent section db)
              (or_next (lookup scope_system "" section db) (some ""))
      ]))
]

-- An error of a lookup is `none`, and no row at any scope is the empty body.
unfoldable pub resolve :
    Option ScopeLookup → Option AgentLookup → String → String → Db → Option String
unfolding tier
resolve scope agents section task db =
    or_next (tier scope_task task section db) (resolve_wider scope agents section task db)
