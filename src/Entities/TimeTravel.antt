-- ===== src/Entities/TimeTravel.antt =====
-- internal/entity/store.go: GetAt and ListAsOf of a past time, after later writes.
use mathlib.Core.Option
use mathlib.Core.Path.{fun_ext}
use open_praxis.Entities.Entity.{
  Entity, has_status, has_type, is_current_of, newest_created, newest_version,
}
use open_praxis.Entities.Past.{AllAfter, AllBefore, IsScd, run-Settled}
use open_praxis.Entities.Replay.{Op, run}
use open_praxis.Entities.Store.{get, get_at, limited, list, list_as_of, scan_entity}
use open_praxis.Entities.Travel.{empty-IsScd, empty_db, opened, past_is_present}
use open_praxis.Prelude.{
  Bool, Bool-cases, List, String, [], ap, arith, first, inl, inr, length-select-eq-count, map,
  map-sort_by, map-take, negsuc, pos, refl, select, sort_by, sort_by_one, suc, sym, zero, ℤ, ◌==◌,
  ◌∙◌, ◌∷◌, ◌≡◌,
}

map-scan_entity :
    (es : List Entity) → Option.map opened (scan_entity es) ≡ scan_entity (map opened es)
unfolding scan_entity
map-scan_entity [] = refl
map-scan_entity (e ∷ es) = refl

map-limited :
    (limit : ℤ) (es : List Entity) → map opened (limited limit es) ≡ limited limit (map opened es)
unfolding limited
map-limited (negsuc n) es = refl
map-limited (pos zero) es = refl
map-limited (pos (suc n)) es = map-take opened (suc n) es

scan_entity-select : (p : Entity → Bool) (es : List Entity) → scan_entity (select p es) ≡ first p es
unfolding scan_entity select first
scan_entity-select p [] = refl
scan_entity-select p (e ∷ es) = elim (Bool-cases (p e)) [
  | inl t ↦ rw t refl
  | inr t ↦ rw t (scan_entity-select p es)
]

-- The queries as they sort and cut what they select, seen without the closing times.
sorted_versions :
    (es : List Entity)
    → Option.map opened (scan_entity (sort_by newest_version es))
      ≡ scan_entity (sort_by newest_version (map opened es))
unfolding newest_version
sorted_versions es =
    map-scan_entity (sort_by newest_version es)
    ∙ ap scan_entity (map-sort_by newest_version opened (λ a b. refl) es)

sorted_list :
    (limit : ℤ) (es : List Entity)
    → map opened (limited limit (sort_by newest_created es))
      ≡ limited limit (sort_by newest_created (map opened es))
unfolding newest_created
sorted_list limit es =
    map-limited limit (sort_by newest_created es)
    ∙ ap (limited limit) (map-sort_by newest_created opened (λ a b. refl) es)

only_current :
    (uid : String) (rows : List Entity)
    → IsScd rows
    → scan_entity (sort_by newest_version (select (is_current_of uid) rows))
      ≡ first (is_current_of uid) rows
only_current uid rows h =
    ap scan_entity (
      sort_by_one newest_version (select (is_current_of uid) rows)
        (rw (length-select-eq-count (is_current_of uid) rows) (h.one_current uid)))
    ∙ scan_entity-select (is_current_of uid) rows

-- From the empty table, after any calls of Create and Update at non-empty times up to `as_of`, and
-- any further calls after `as_of`: GetAt of that time returns the version that Get returned between
-- the two, but for the time at which it ends.
pub get_at-run :
    (as_of uid : String) (before after : List Op)
    → AllBefore as_of before
    → AllAfter as_of after
    → Option.map opened (get_at uid as_of (run after (run before empty_db).0).0)
      ≡ Option.map opened (get uid (run before empty_db).0)
unfolding get_at get is_current_of
get_at-run as_of uid before after early late =
    sorted_versions _
    ∙ ap (λ es. scan_entity (sort_by newest_version es))
        (past_is_present as_of (λ e. e.entity_uid == uid) (λ now e. refl) before after early late)
    ∙ sym (sorted_versions _)
    ∙ ap (Option.map opened) (
        only_current uid (run before empty_db).0.rows
          (run-Settled as_of before empty_db early tt empty-IsScd).1)

-- From the empty table, after any calls of Create and Update at non-empty times up to `as_of`, and
-- any further calls after `as_of`: ListAsOf of that time returns what List without a status
-- returned between the two, in the same order, but for the times at which the versions end.
pub list_as_of-run :
    (as_of type : String) (limit : ℤ) (before after : List Op)
    → AllBefore as_of before
    → AllAfter as_of after
    → map opened (list_as_of type as_of limit (run after (run before empty_db).0).0)
      ≡ map opened (list type "" limit (run before empty_db).0)
unfolding list_as_of list has_status
list_as_of-run as_of type limit before after early late =
    sorted_list limit _
    ∙ ap (λ es. limited limit (sort_by newest_created es))
        (ap (λ p. map opened (select p (run after (run before empty_db).0).0.rows))
            (fun_ext λ e. ground arith)
          ∙ past_is_present as_of (has_type type) (λ now e. refl) before after early late
          ∙ ap (λ p. map opened (select p (run before empty_db).0.rows))
              (fun_ext λ e. ground arith))
    ∙ sym (sorted_list limit _)
