-- ===== src/Templates/SeedRuns.antt =====
-- internal/templates/seed.go: the buckets one after the other, and all of them again.
use mathlib.Core.Path.{subst}
use mathlib.Core.Bool.{false≢true}
use open_praxis.Prelude.{
  Bool-cases, Every, List, Memᴰ, Option-cases, String, [], any, ap, inl, inr, none, refl, some, sym,
  true, ◌∙◌, ◌∷◌, ◌≡◌,
}
use open_praxis.Templates.Seed.{
  Bucket, insert_bucket, is_open_at, missing_body, sections, seed, seed_bucket,
}
use open_praxis.Templates.Seeding.{Extends, insert_bucket_lem, insert_bucket-none}
use open_praxis.Templates.Template.{Db}

-- Each section that has a default has an open row.
pub record IsSeeded (b : Bucket) (db : Db) : Type 0 where
  pub filled :
      (section body : String)
      → Memᴰ section sections
      → b.bodies section ≡ some body
      → any (is_open_at b.scope b.scope_id section) db.rows ≡ true

seed_bucket-IsSeeded :
    (now : String) (uid_of : String → String) (peer : String) (b : Bucket) (db : Db)
    → (seed_bucket now uid_of peer b db).1 ≡ none
    → Extends db (seed_bucket now uid_of peer b db).0
      × IsSeeded b (seed_bucket now uid_of peer b db).0
unfolding seed_bucket missing_body
seed_bucket-IsSeeded now uid_of peer b db h =
    elim (Option-cases (insert_bucket now uid_of peer b (missing_body b db) sections db)) [
      | inl e ↦ cc (rw (seed_bucket, e) at h)
      | inr (after, e) ↦
          let (grows, there) =
            insert_bucket_lem now uid_of peer b (missing_body b db) sections db e in
          rw (seed_bucket, e)
            (
              grows,
              record {
                filled = λ s body m f.
                    elim (Bool-cases (any (is_open_at b.scope b.scope_id s) db.rows)) [
                      | inl k ↦ grows.kept (is_open_at b.scope b.scope_id s) k
                      | inr k ↦ there s body m (rw (missing_body, k) f)
                    ];
              },
            )
    ]

none_missing :
    (b : Bucket) (db : Db)
    → IsSeeded b db
    → (s : String) → Memᴰ s sections
    → missing_body b db s ≡ none
unfolding missing_body
none_missing b db full s m = elim (Bool-cases (any (is_open_at b.scope b.scope_id s) db.rows)) [
  | inl e ↦ rw (missing_body, e) refl
  | inr e ↦ elim (Option-cases (b.bodies s)) [
    | inl f ↦ rw (missing_body, e, f) refl
    | inr (body, f) ↦ absurd (false≢true (sym e ∙ full.filled s body m f))
  ]
]

seed_bucket_fixed :
    (now : String) (uid_of : String → String) (peer : String) (b : Bucket) (db : Db)
    → IsSeeded b db
    → seed_bucket now uid_of peer b db ≡ (db, none)
unfolding seed_bucket missing_body
seed_bucket_fixed now uid_of peer b db full =
    rw
      (
        seed_bucket,
        insert_bucket-none now uid_of peer b (missing_body b db) sections db
            (none_missing b db full),
      )
      refl

seed_next :
    (now : Bucket → String) (uid_of : Bucket → String → String) (peer : String) (b : Bucket)
    (bs : List Bucket) (db : Db)
    → (seed_bucket (now b) (uid_of b) peer b db).1 ≡ none
    → seed now uid_of peer (b ∷ bs) db
      ≡ seed now uid_of peer bs (seed_bucket (now b) (uid_of b) peer b db).0
unfolding seed
seed_next now uid_of peer b bs db e = rw (seed, e) refl

Extends-IsSeeded : (b : Bucket) (x y : Db) → Extends x y → IsSeeded b x → IsSeeded b y
Extends-IsSeeded b x y grows full = record {
  filled = λ s body m f. grows.kept (is_open_at b.scope b.scope_id s) (full.filled s body m f);
}

seed-IsSeeded :
    (now : Bucket → String) (uid_of : Bucket → String → String) (peer : String) (bs : List Bucket)
    (db : Db)
    → (seed now uid_of peer bs db).1 ≡ none
    → Extends db (seed now uid_of peer bs db).0
      × Every (λ b. IsSeeded b (seed now uid_of peer bs db).0) bs
unfolding seed
seed-IsSeeded now uid_of peer [] db h = (record { kept = λ p k. k }, tt)
seed-IsSeeded now uid_of peer (b ∷ bs) db h =
    elim (Option-cases (seed_bucket (now b) (uid_of b) peer b db).1) [
      | inr (x, e) ↦ cc (rw (seed, e) at h)
      | inl e ↦
          let (grows, full) = seed_bucket-IsSeeded (now b) (uid_of b) peer b db e in
          let next = (seed_bucket (now b) (uid_of b) peer b db).0 in
          let (more, rest) = seed-IsSeeded now uid_of peer bs next (rw (seed, e) at h) in
          subst (λ out. Extends db out.0 × Every (λ c. IsSeeded c out.0) (b ∷ bs))
            (sym (seed_next now uid_of peer b bs db e))
            (
              record { kept = λ p k. more.kept p (grows.kept p k) },
              (Extends-IsSeeded b next (seed now uid_of peer bs next).0 more full, rest),
            )
    ]

seed_fixed :
    (now : Bucket → String) (uid_of : Bucket → String → String) (peer : String) (bs : List Bucket)
    (db : Db)
    → Every (λ b. IsSeeded b db) bs
    → seed now uid_of peer bs db ≡ (db, none)
unfolding seed
seed_fixed now uid_of peer [] db full = refl
seed_fixed now uid_of peer (b ∷ bs) db (here, rest) =
    let same = seed_bucket_fixed (now b) (uid_of b) peer b db here in
    seed_next now uid_of peer b bs db (ap (λ out. out.1) same)
    ∙ ap (λ out. seed now uid_of peer bs out.0) same
    ∙ seed_fixed now uid_of peer bs db rest

-- After a Seed that returns no error, every section with a default body has an open row in its
-- bucket, for each of the buckets; a second Seed of the same buckets, with whatever times and ids,
-- returns no error and changes nothing.
pub seed_again :
    (now later : Bucket → String) (uid_of uid_of' : Bucket → String → String) (peer : String)
    (bs : List Bucket) (db : Db)
    → (seed now uid_of peer bs db).1 ≡ none
    → Every (λ b. IsSeeded b (seed now uid_of peer bs db).0) bs
      × (seed later uid_of' peer bs (seed now uid_of peer bs db).0
          ≡ ((seed now uid_of peer bs db).0, none))
seed_again now later uid_of uid_of' peer bs db h =
    let (grows, full) = seed-IsSeeded now uid_of peer bs db h in
    (full, seed_fixed later uid_of' peer bs (seed now uid_of peer bs db).0 full)
