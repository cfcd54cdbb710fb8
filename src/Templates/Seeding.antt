-- ===== src/Templates/Seeding.antt =====
-- internal/templates/seed.go: Seed, and a second Seed.
use mathlib.Core.Bool.{false≢true}
use open_praxis.Prelude.{
  Bool, Bool-cases, List, Memᴰ, Option, Option-cases, String, [], any, ap, arith, eq_refl, inl, inr,
  mem-cons_cases, none, refl, same_some, some, suc, sym, true, ℕ, ◌++◌, ◌∙◌, ◌∷◌, ◌≡◌,
}
use open_praxis.Templates.Edits.{added}
use open_praxis.Templates.Seed.{Bucket, insert_bucket, is_open_at, seeded_row}
use open_praxis.Templates.Store.{insert}
use open_praxis.Templates.Template.{Db, Template, is_at, is_open_of}

any-append_left :
    (p : Template → Bool) (xs ys : List Template) → any p xs ≡ true → any p (xs ++ ys) ≡ true
unfolding any
any-append_left p [] ys h = absurd (false≢true h)
any-append_left p (x ∷ xs) ys h = elim (Bool-cases (p x)) [
  | inl e ↦ rw e refl
  | inr e ↦ rw e (any-append_left p xs ys (rw e at h))
]

any-append_last :
    (p : Template → Bool) (xs : List Template) (t : Template)
    → p t ≡ true
    → any p (xs ++ t ∷ []) ≡ true
unfolding any
any-append_last p [] t h = rw h refl
any-append_last p (x ∷ xs) t h = rw (any-append_last p xs t h) (ground arith)

-- Every row of one database is in the other.
pub record Extends (a b : Db) : Type 0 where
  pub kept : (p : Template → Bool) → any p a.rows ≡ true → any p b.rows ≡ true

same_db : {a b : Db} → some a ≡ some b → a ≡ b
same_db h = same_some h

-- What an INSERT that succeeds leaves.
inserted :
    (row : Template) (db : Db) {after : Db} → insert row db ≡ some after → added row db ≡ after
unfolding insert
inserted row db {after} h = elim (Bool-cases (any (is_open_of row.template_uid) db.rows)) [
  | inl e ↦ cc (rw (insert, e) at h)
  | inr e ↦ same_some (rw (insert, e) at h)
]

module _ (now : String) (uid_of : String → String) (peer : String) (b : Bucket) where
  open_here :
      (section body uid : String) (n : ℕ)
      → is_open_at b.scope b.scope_id section
          (record (seeded_row now uid peer b section body) { id = n })
        ≡ true
  unfolding is_open_at is_at
  open_here section body uid n = rw (eq_refl b.scope, eq_refl b.scope_id, eq_refl section) refl

  module _ (missing : String → Option String) where
    -- The rows stay, and each missing section of the list gets one.
    pub insert_bucket_lem :
        (ss : List String) (db : Db) {after : Db}
        → insert_bucket now uid_of peer b missing ss db ≡ some after
        → Extends db after
          × ((s body : String)
              → Memᴰ s ss
              → missing s ≡ some body
              → any (is_open_at b.scope b.scope_id s) after.rows ≡ true)
    unfolding insert_bucket
    insert_bucket_lem [] db {after} h = (
      record { kept = λ p k. ap (λ d. any p d.rows) (sym (same_db h)) ∙ k },
      λ s body m e. elim m [ ],
    )
    insert_bucket_lem (x ∷ ss) db {after} h = elim (Option-cases (missing x)) [
      | inl e ↦
          let (grows, there) = insert_bucket_lem ss db (rw (insert_bucket, e) at h) in
          (
            grows,
            λ s body m f. elim (mem-cons_cases m) [ inl q ↦ cc | inr later ↦ there s body later f ],
          )
      | inr (content, e) ↦
          let row = seeded_row now (uid_of x) peer b x content in
          elim (Option-cases (insert row db)) [
            | inl f ↦ cc (rw (insert_bucket, e, f) at h)
            | inr (next, f) ↦
                let (grows, there) = insert_bucket_lem ss next (rw (insert_bucket, e, f) at h) in
                let table = inserted row db f in
                (
                  record {
                    kept = λ p k.
                        grows.kept p
                          (ap (λ d. any p d.rows) (sym table) ∙ any-append_left p db.rows _ k);
                  },
                  λ s body m g. elim (mem-cons_cases m) [
                    | inl q ↦ grows.kept (is_open_at b.scope b.scope_id s) (
                        ap (λ d. any (is_open_at b.scope b.scope_id s) d.rows) (sym table)
                        ∙ any-append_last (is_open_at b.scope b.scope_id s) db.rows _ (
                            ap
                              (λ y.
                                is_open_at b.scope b.scope_id y
                                  (record row { id = suc db.last_id }))
                              q
                            ∙ open_here x content (uid_of x) (suc db.last_id)))
                    | inr later ↦ there s body later g
                  ],
                )
          ]
    ]

    pub insert_bucket-none :
        (ss : List String) (db : Db)
        → ((s : String) → Memᴰ s ss → missing s ≡ none)
        → insert_bucket now uid_of peer b missing ss db ≡ some db
    unfolding insert_bucket
    insert_bucket-none [] db h = refl
    insert_bucket-none (x ∷ ss) db h =
        rw (insert_bucket, h x (Memᴰ.head refl))
          (insert_bucket-none ss db (λ s m. h s (Memᴰ.tail m)))
