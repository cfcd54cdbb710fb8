-- ===== src/Settings/Keys.antt =====
-- internal/settings/store.go: Get, and the primary key, under Set and Delete.
use mathlib.Core.Bool.{false≢true}
use open_praxis.Prelude.{
  Bool, Bool-cases, Option, Option-cases, String, [], ap, arith, count, count-and_le, count-append,
  count-select, count-select-not, eq_iff, eq_refl, false, first, first-append_of_none, inl, inr,
  none, not, refl, select, some, sym, true, ℤ, ◌++◌, ◌∙◌, ◌∷◌, ◌≡◌, ◌≤◌,
}
use open_praxis.Settings.Store.{
  Entry, Error, Result, Table, delete, err, get, has_name, in_scope, is_at, new_entry, ok, set,
  validate_scope,
}

abbrev pub HasUniqueKeys : Table → Type 0
HasUniqueKeys t = (scope_type scope_id key : String) → count (is_at scope_type scope_id key) t ≤ 1

count-select_le : (p q : Entry → Bool) (t : Table) → count p (select q t) ≤ count p t
count-select_le p q t = omega (arith, count-select p q t, count-and_le p q t)

is_at_sound :
    (scope_type scope_id key : String) (e : Entry)
    → is_at scope_type scope_id key e ≡ true
    → (e.scope_type ≡ scope_type) × (e.scope_id ≡ scope_id) × (e.key ≡ key)
unfolding is_at in_scope has_name
is_at_sound scope_type scope_id key e h = (
  (eq_iff e.scope_type scope_type).0 (ground arith),
  (eq_iff e.scope_id scope_id).0 (ground arith),
  (eq_iff e.key key).0 (ground arith),
)

module _ (scope_type scope_id key : String) (e : Entry) (t : Table)
    (own : (e.scope_type ≡ scope_type) × (e.scope_id ≡ scope_id) × (e.key ≡ key)) where
  replaced-HasUniqueKeys :
      HasUniqueKeys t
      → HasUniqueKeys (select (λ r. not (is_at scope_type scope_id key r)) t ++ e ∷ [])
  unfolding count
  replaced-HasUniqueKeys h a b c =
      let rest = select (λ r. not (is_at scope_type scope_id key r)) t in
      elim (Bool-cases (is_at a b c e)) [
        | inl same ↦
            let (x, y, z) = is_at_sound a b c e same in
            let gone : count (is_at a b c) rest ≡ 0 =
              rw (sym x ∙ own.0, sym y ∙ own.1, sym z ∙ own.2)
                (count-select-not (is_at scope_type scope_id key) t) in
            ground (arith, count-append (is_at a b c) rest (e ∷ []))
        | inr other ↦ ground (
          arith,
          count-append (is_at a b c) rest (e ∷ []),
          h a b c,
          count-select_le (is_at a b c) (λ r. not (is_at scope_type scope_id key r)) t,
        )
      ]

set_done :
    (now : ℤ) (scope_type scope_id key value updated_by : String) (t : Table)
    → validate_scope scope_type ≡ none
    → set now scope_type scope_id key value updated_by t ≡ (
      select (λ e. not (is_at scope_type scope_id key e)) t
          ++ new_entry now scope_type scope_id key value updated_by ∷ [],
      none,
    )
unfolding set
set_done now scope_type scope_id key value updated_by t good = rw (good, set) refl

set_refused :
    (now : ℤ) (scope_type scope_id key value updated_by : String) (t : Table) {x : Error}
    → validate_scope scope_type ≡ some x
    → set now scope_type scope_id key value updated_by t ≡ (t, some x)
unfolding set
set_refused now scope_type scope_id key value updated_by t bad = rw (bad, set) refl

set-HasUniqueKeys :
    (now : ℤ) (scope_type scope_id key value updated_by : String) (t : Table)
    → HasUniqueKeys t
    → HasUniqueKeys (set now scope_type scope_id key value updated_by t).0
set-HasUniqueKeys now scope_type scope_id key value updated_by t h =
    elim (Option-cases (validate_scope scope_type)) [
      | inl good ↦
          rw (set_done now scope_type scope_id key value updated_by t good)
            (replaced-HasUniqueKeys scope_type scope_id key _ t (refl, refl, refl) h)
      | inr (x, bad) ↦ rw (set_refused now scope_type scope_id key value updated_by t bad) h
    ]

delete-HasUniqueKeys :
    (scope_type scope_id key : String) (t : Table)
    → HasUniqueKeys t
    → HasUniqueKeys (delete scope_type scope_id key t).0
unfolding delete
delete-HasUniqueKeys scope_type scope_id key t h = elim (Option-cases (validate_scope scope_type)) [
  | inl good ↦
      rw (good, delete)
        (λ a b c. omega (
          arith,
          h a b c,
          count-select_le (is_at a b c) (λ r. not (is_at scope_type scope_id key r)) t,
        ))
  | inr (x, bad) ↦ rw (bad, delete) h
]

-- Set and Delete keep the rows unique by scope type, scope id and key.
pub writes-keep_keys :
    (now : ℤ) (scope_type scope_id key value updated_by : String) (t : Table)
    → HasUniqueKeys t
    → HasUniqueKeys (set now scope_type scope_id key value updated_by t).0
      × HasUniqueKeys (delete scope_type scope_id key t).0
writes-keep_keys now scope_type scope_id key value updated_by t h = (
  set-HasUniqueKeys now scope_type scope_id key value updated_by t h,
  delete-HasUniqueKeys scope_type scope_id key t h,
)

-- The rows that one test takes and another does not are still found without the latter's.
first_others :
    (p q : Entry → Bool) (e : Entry) (t : Table)
    → p e ≡ false
    → ((r : Entry) → p r ≡ true → q r ≡ false)
    → first p (select (λ r. not (q r)) t ++ e ∷ []) ≡ first p t
unfolding first select
first_others p q e [] off apart = rw off refl
first_others p q e (r ∷ t) off apart = elim (Bool-cases (p r)) [
  | inl hit ↦ rw (hit, apart r hit, hit) refl
  | inr miss ↦ elim (Bool-cases (q r)) [
    | inl out ↦ rw (miss, out) (first_others p q e t off apart)
    | inr stays ↦ rw (miss, stays, miss) (first_others p q e t off apart)
  ]
]

is_at_self : (e : Entry) → is_at e.scope_type e.scope_id e.key e ≡ true
unfolding is_at in_scope has_name
is_at_self e = simp eq_refl

pub get_done :
    (scope_type scope_id key : String) (t : Table)
    → validate_scope scope_type ≡ none
    → get scope_type scope_id key t ≡ ok (first (is_at scope_type scope_id key) t)
unfolding get
get_done scope_type scope_id key t good = rw (good, get) refl

pub get-set_self :
    (now : ℤ) (scope_type scope_id key value updated_by : String) (t : Table)
    → validate_scope scope_type ≡ none
    → get scope_type scope_id key (set now scope_type scope_id key value updated_by t).0
      ≡ ok (some (new_entry now scope_type scope_id key value updated_by))
unfolding first
get-set_self now scope_type scope_id key value updated_by t good =
    let e = new_entry now scope_type scope_id key value updated_by in
    rw (set_done now scope_type scope_id key value updated_by t good) (
      get_done scope_type scope_id key _ good
      ∙ ap ok (
          first-append_of_none (is_at scope_type scope_id key) _ (e ∷ [])
            (count-select-not (is_at scope_type scope_id key) t)
          ∙ rw (is_at_self e) refl))

is_at_same :
    (a b c : String) (e r : Entry)
    → (r.scope_type ≡ e.scope_type) × (r.scope_id ≡ e.scope_id) × (r.key ≡ e.key)
    → is_at a b c r ≡ is_at a b c e
unfolding is_at in_scope has_name
is_at_same a b c e r (x, y, z) = rw (x, y, z) refl

told_apart :
    (a b c : String) (e r : Entry)
    → is_at a b c e ≡ false
    → is_at a b c r ≡ true
    → is_at e.scope_type e.scope_id e.key r ≡ false
told_apart a b c e r other hit = elim (Bool-cases (is_at e.scope_type e.scope_id e.key r)) [
  | inl same ↦
      let fields = is_at_sound e.scope_type e.scope_id e.key r same in
      absurd (false≢true (sym other ∙ sym (is_at_same a b c e r fields) ∙ hit))
  | inr apart ↦ apart
]

get-set_other :
    (now : ℤ) (scope_type scope_id key value updated_by : String) (t : Table) (a b c : String)
    → validate_scope scope_type ≡ none
    → is_at a b c (new_entry now scope_type scope_id key value updated_by) ≡ false
    → get a b c (set now scope_type scope_id key value updated_by t).0 ≡ get a b c t
unfolding get
get-set_other now scope_type scope_id key value updated_by t a b c good other =
    rw (set_done now scope_type scope_id key value updated_by t good) (
      ap
        (λ o. elim (validate_scope a) as (λ y. Result (Option Entry)) [
          | some x ↦ err x
          | none ↦ ok o
        ])
        (first_others (is_at a b c) (is_at scope_type scope_id key) _ t other
          (λ r. told_apart a b c (new_entry now scope_type scope_id key value updated_by) r other)))

-- After a Set that returns no error, Get at its scope and key returns the entry that it wrote, and
-- Get at any other scope and key returns what it returned before.
pub get-set :
    (now : ℤ) (scope_type scope_id key value updated_by : String) (t : Table) (a b c : String)
    → (set now scope_type scope_id key value updated_by t).1 ≡ none
    → (get scope_type scope_id key (set now scope_type scope_id key value updated_by t).0
        ≡ ok (some (new_entry now scope_type scope_id key value updated_by)))
      × (is_at a b c (new_entry now scope_type scope_id key value updated_by) ≡ false
          → get a b c (set now scope_type scope_id key value updated_by t).0 ≡ get a b c t)
get-set now scope_type scope_id key value updated_by t a b c h =
    elim (Option-cases (validate_scope scope_type)) [
      | inl good ↦ (
        get-set_self now scope_type scope_id key value updated_by t good,
        get-set_other now scope_type scope_id key value updated_by t a b c good,
      )
      | inr (x, bad) ↦
          let refused = set_refused now scope_type scope_id key value updated_by t bad in cc
    ]
