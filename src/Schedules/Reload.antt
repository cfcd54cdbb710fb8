-- ===== src/Schedules/Reload.antt =====
-- internal/schedule/runner.go: what Reload leaves registered.
use mathlib.Core.Bool.{false≢true}
use open_praxis.Prelude.{
  Bool, Bool-cases, List, [], any, any-eq-count, any_or, any_same_count, ap, arith, count,
  count-and_le, count-select, count-sort_by, false, if◌then◌else◌, inl, inr, int_eq, int_eq_iff,
  int_eq_refl, ltb, not, refl, select, select_none, sym, true, ℤ, ◌&&◌, ◌++◌, ◌+◌, ◌||◌, ◌∙◌, ◌∷◌,
  ◌≡◌, ◌≢◌, ◌≤◌, ◌⊎◌,
}
use open_praxis.Schedules.Ids.{IsValid}
use open_praxis.Schedules.Runner.{
  Build, BuildError, CronLib, Entry, Runner, add_missing, build_schedule, built, drop,
  drop_unwanted, failed, has_key, is_registered, register, reload, want_of,
}
use open_praxis.Schedules.Schedule.{Db, Schedule, has_id, is_armed}
use open_praxis.Schedules.Store.{list_all_current}

-- The row builds a schedule, so that register succeeds.
unfoldable pub builds : {C P T : Type 0} → CronLib C P T → Schedule → Bool
builds lib s = elim (build_schedule lib s) [ built plan ↦ true | failed x ↦ false ]

Built-cases :
    {A : Type 0} (b : Build A) → ((a : A) × (b ≡ built a)) ⊎ ((x : BuildError) × (b ≡ failed x))
Built-cases (built a) = inl (a, refl)
Built-cases (failed x) = inr (x, refl)

contrary : (b : Bool) → b ≢ not b
contrary true h = false≢true (sym h)
contrary false h = false≢true h

same_row : (id : ℤ) (s : Schedule) → has_id id s ≡ true → s.id ≡ id
unfolding has_id
same_row id s h = (int_eq_iff s.id id).0 h

same_key : (id : ℤ) (e : Entry) → has_key id e ≡ true → e.key ≡ id
unfolding has_key
same_key id e h = (int_eq_iff e.key id).0 h

-- A test of ids tells a key from an id.
told_apart : (f : ℤ → Bool) (id : ℤ) (e : Entry) → f e.key ≡ not (f id) → has_key id e ≡ false
told_apart f id e h = elim (Bool-cases (has_key id e)) [
  | inl t ↦ absurd (contrary (f id) (sym (ap f (same_key id e t)) ∙ h))
  | inr t ↦ t
]

row_apart : (f : ℤ → Bool) (id : ℤ) (s : Schedule) → f s.id ≡ not (f id) → has_id id s ≡ false
row_apart f id s h = elim (Bool-cases (has_id id s)) [
  | inl t ↦ absurd (contrary (f id) (sym (ap f (same_row id s t)) ∙ h))
  | inr t ↦ t
]

other_keys :
    (id key : ℤ) (es : List Entry)
    → any (has_key id) (select (λ x. not (has_key key x)) es)
      ≡ (not (int_eq key id) && any (has_key id) es)
unfolding any select has_key
other_keys id key [] = ground arith
other_keys id key (e ∷ es) = ground (arith, other_keys id key es)

any-append_one :
    (p : Entry → Bool) (es : List Entry) (e : Entry) → any p (es ++ e ∷ []) ≡ (any p es || p e)
unfolding any
any-append_one p [] e = ground arith
any-append_one p (x ∷ es) e = ground (arith, any-append_one p es e)

already : (b h g : Bool) → (h ≡ true → b ≡ true) → b ≡ (b || (h && g))
already b true g k = rw (k refl)
already b false g k = ground arith

or_false : (a : Bool) → (a || false) ≡ a
or_false a = ground arith

and_true : (a : Bool) → (a && true) ≡ a
and_true a = ground arith

and_false : (a : Bool) → (a && false) ≡ false
and_false a = ground arith

and_not : (a : Bool) → (not a && a) ≡ false
and_not a = ground arith

or_assoc : (a b c : Bool) → ((a || b) || c) ≡ (a || (b || c))
or_assoc a b c = ground arith

module _ {C P T : Type 0} (lib : CronLib C P T) {W : Type 0} where
  registered-register :
      (id : ℤ) (s : Schedule) (r : Runner C W)
      → is_registered id (register lib s r) ≡ (is_registered id r || (has_id id s && builds lib s))
  unfolding register is_registered builds has_id has_key
  registered-register id s r = elim (Built-cases (build_schedule lib s)) [
    | inl (plan, e) ↦ rw (e, register) (any-append_one (has_key id) r.entries _ ∙ ground arith)
    | inr (x, e) ↦ rw (e, register) (ground arith)
  ]

  registered-drop :
      (id : ℤ) (e : Entry) (r : Runner C W)
      → is_registered id (drop lib e r) ≡ (not (has_key id e) && is_registered id r)
  unfolding drop is_registered has_key
  registered-drop id e r = other_keys id e.key r.entries

  kept_wanted :
      (id : ℤ) (want : List Schedule)
      → any (has_id id) want ≡ true
      → (es : List Entry) (r : Runner C W)
      → is_registered id (drop_unwanted lib want es r) ≡ is_registered id r
  unfolding drop_unwanted
  kept_wanted id want w [] r = refl
  kept_wanted id want w (e ∷ es) r = elim (Bool-cases (any (has_id e.key) want)) [
    | inl t ↦ rw t (kept_wanted id want w es r)
    | inr t ↦ rw t (
        kept_wanted id want w es (drop lib e r)
        ∙ registered-drop id e r
        ∙ rw (told_apart (λ i. any (has_id i) want) id e (t ∙ ap not (sym w))))
  ]

  dropped_unwanted :
      (id : ℤ) (want : List Schedule)
      → any (has_id id) want ≡ false
      → (es : List Entry) (r : Runner C W)
      → is_registered id (drop_unwanted lib want es r)
        ≡ (not (any (has_key id) es) && is_registered id r)
  unfolding drop_unwanted any
  dropped_unwanted id want w [] r = ground arith
  dropped_unwanted id want w (e ∷ es) r = elim (Bool-cases (any (has_id e.key) want)) [
    | inl t ↦ rw t (
        dropped_unwanted id want w es r
        ∙ rw (told_apart (λ i. any (has_id i) want) id e (t ∙ ap not (sym w))))
    | inr t ↦
        rw t (dropped_unwanted id want w es (drop lib e r) ∙ ground (arith, registered-drop id e r))
  ]

  registered_either :
      (id : ℤ) (s : Schedule) (r : Runner C W)
      → is_registered id (if is_registered s.id r then r else register lib s r)
        ≡ (is_registered id r || (has_id id s && builds lib s))
  registered_either id s r = elim (Bool-cases (is_registered s.id r)) [
    | inl t ↦ rw t (
        already (is_registered id r) (has_id id s) (builds lib s)
          (λ e. ap (λ i. is_registered i r) (sym (same_row id s e)) ∙ t))
    | inr t ↦ rw t (registered-register id s r)
  ]

  registered-add_missing :
      (id : ℤ) (want : List Schedule) (r : Runner C W)
      → is_registered id (add_missing lib want r)
        ≡ (is_registered id r || any (λ s. has_id id s && builds lib s) want)
  unfolding add_missing any
  registered-add_missing id [] r = ground arith
  registered-add_missing id (s ∷ want) r =
      registered-add_missing id want (if is_registered s.id r then r else register lib s r)
      ∙ (ap (λ b. b || any (λ x. has_id id x && builds lib x) want) (registered_either id s r)
          ∙ or_assoc (is_registered id r) (has_id id s && builds lib s) _)

room :
    (s : Schedule) (rows want : List Schedule)
    → ((id : ℤ) → count (has_id id) (s ∷ rows) + count (has_id id) want ≤ 1)
    → count (has_id s.id) want ≡ 0
unfolding count has_id
room s rows want h = ground (arith, h s.id, int_eq_refl s.id)

-- The map of the wanted rows holds the rows, when their ids differ.
any-want_of :
    (p : Schedule → Bool) (rows want : List Schedule)
    → ((id : ℤ) → count (has_id id) rows + count (has_id id) want ≤ 1)
    → any p (want_of rows want) ≡ (any p rows || any p want)
unfolding want_of any count
any-want_of p [] want h = refl
any-want_of p (s ∷ rows) want h =
    rw (select_none (has_id s.id) want (room s rows want h))
      (any-want_of p rows (s ∷ want) (λ id. ground (arith, h id)) ∙ ground arith)

count-list_all_current :
    (p : Schedule → Bool) (db : Db)
    → count p (list_all_current db) ≡ count (λ s. p s && is_armed s) db.rows
unfolding list_all_current
count-list_all_current p db = count-sort_by p _ _ ∙ count-select p is_armed db.rows

wanted :
    (p : Schedule → Bool) (db : Db)
    → IsValid db
    → any p (want_of (list_all_current db) []) ≡ any (λ s. p s && is_armed s) db.rows
unfolding any count
wanted p db v =
    any-want_of p (list_all_current db) [] (λ id. omega (
      arith,
      count-list_all_current (has_id id) db,
      count-and_le (has_id id) is_armed db.rows,
      v.unique id,
    ))
    ∙ or_false _
    ∙ any-eq-count p _
    ∙ ap (λ n. ltb 0 n) (count-list_all_current p db)
    ∙ sym (any-eq-count (λ s. p s && is_armed s) db.rows)

module _ {C P T : Type 0} (lib : CronLib C P T) {W : Type 0}
    (visit_entries : List Entry → List Entry) (visit_rows : List Schedule → List Schedule)
    (all_entries : (p : Entry → Bool) (es : List Entry) → count p (visit_entries es) ≡ count p es)
    (all_rows : (p : Schedule → Bool) (rows : List Schedule)
      → count p (visit_rows rows) ≡ count p rows) where
  registered-drop_unwanted :
      (id : ℤ) (want : List Schedule) (r : Runner C W)
      → is_registered id (drop_unwanted lib want (visit_entries r.entries) r)
        ≡ (is_registered id r && any (has_id id) want)
  unfolding is_registered
  registered-drop_unwanted id want r = elim (Bool-cases (any (has_id id) want)) [
    | inl w ↦
        kept_wanted lib id want w (visit_entries r.entries) r
        ∙ sym (ap (λ b. is_registered id r && b) w ∙ and_true _)
    | inr w ↦
        dropped_unwanted lib id want w (visit_entries r.entries) r
        ∙ ap (λ b. not b && is_registered id r)
            (any_same_count (has_key id) _ _ (all_entries (has_key id) r.entries))
        ∙ and_not (is_registered id r)
        ∙ sym (ap (λ b. is_registered id r && b) w ∙ and_false _)
  ]

  -- After Reload, from a database with valid ids and for any order of visiting the maps, an id is
  -- registered exactly when an armed row has it that was registered before or builds a schedule.
  pub reload_registers :
      (db : Db) (r : Runner C W) (id : ℤ)
      → IsValid db
      → is_registered id (reload lib visit_entries visit_rows db r)
        ≡ any (λ s. (has_id id s && (is_registered id r || builds lib s)) && is_armed s) db.rows
  unfolding reload
  reload_registers db r id v =
      let want = want_of (list_all_current db) [] in
      registered-add_missing lib id (visit_rows want)
        (drop_unwanted lib want (visit_entries r.entries) r)
      ∙ ap (λ b. b || any (λ s. has_id id s && builds lib s) (visit_rows want))
          (registered-drop_unwanted id want r)
      ∙ ap (λ b. (is_registered id r && any (has_id id) want) || b)
          (any_same_count (λ s. has_id id s && builds lib s) _ _ (all_rows _ want))
      ∙ sym (any_or (has_id id) (builds lib) (is_registered id r) want)
      ∙ wanted (λ s. has_id id s && (is_registered id r || builds lib s)) db v
