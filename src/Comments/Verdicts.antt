-- ===== src/Comments/Verdicts.antt =====
-- internal/task/review.go: what TaskReviewStatus makes of the reviews.
use open_praxis.Comments.Review.{
  ReviewComment, ReviewStatus, as_review, is_review, latest_of, list_review_comments, status_of,
  task_review_status,
}
use open_praxis.Comments.Store.{Comment, Table, list}
use open_praxis.Comments.Types.{target_entity}
use open_praxis.Prelude.{
  Bool, Bool-cases, List, Memᴰ, String, [], any, ap, arith, eq_iff, false, inl, inr, ltb,
  mem_of_mem-map, none, pos, refl, select, some, test_of_mem-select, true, ℤ, ◌&&◌, ◌∙◌, ◌∷◌, ◌≡◌,
}

same_type : (c : Comment) → is_review c ≡ true → c.comment_type ≡ "comment"
unfolding is_review
same_type c h = (eq_iff c.comment_type "comment").0 (ground (arith, h))

review_is_comment :
    (task_id : String) (limit : ℤ) (t : Table) (r : ReviewComment)
    → Memᴰ r (list_review_comments task_id limit t)
    → r.review_type ≡ "comment"
unfolding list_review_comments
review_is_comment task_id limit t r m =
    let rows = list target_entity task_id limit none t in
    let (c, in_rows, same) = mem_of_mem-map as_review (select is_review rows) m in
    ap (λ x. x.review_type) same ∙ same_type c (test_of_mem-select is_review rows in_rows)

-- The status that a list of reviews of the type "comment" gives.
verdict : Bool → ReviewStatus
verdict b = record { needs_rework = false; has_approval = b; latest_rejection_reason = "" }

approved_of : (l : ReviewComment) → l.review_type ≡ "comment" → status_of (some l) ≡ verdict true
unfolding status_of verdict
approved_of l h = rw (status_of, h) refl

latest_approved :
    (l : ReviewComment) (rows : List ReviewComment)
    → l.review_type ≡ "comment"
    → ((r : ReviewComment) → Memᴰ r rows → r.review_type ≡ "comment")
    → status_of (latest_of (some l) rows) ≡ verdict true
unfolding latest_of
latest_approved l [] h all = approved_of l h
latest_approved l (c ∷ rows) h all = elim (Bool-cases (ltb l.created_at c.created_at)) [
  | inl newer ↦
      rw newer (latest_approved c rows (all c (Memᴰ.head refl)) (λ r m. all r (Memᴰ.tail m)))
  | inr older ↦ rw older (latest_approved l rows h (λ r m. all r (Memᴰ.tail m)))
]

verdict_of :
    (rows : List ReviewComment)
    → ((r : ReviewComment) → Memᴰ r rows → r.review_type ≡ "comment")
    → status_of (latest_of none rows) ≡ verdict (any (λ r. true) rows)
unfolding latest_of any status_of verdict
verdict_of [] all = refl
verdict_of (c ∷ rows) all =
    latest_approved c rows (all c (Memᴰ.head refl)) (λ r m. all r (Memᴰ.tail m))

-- Whatever comments a task has, TaskReviewStatus never says that it needs rework and gives no
-- reason for a rejection; it says that the task is approved exactly when the store is wired and
-- some review is among its latest hundred comments.
pub task_review_status_never_rejects :
    (wired : Bool) (task_id : String) (t : Table)
    → ((task_review_status wired task_id t).needs_rework ≡ false)
      × ((task_review_status wired task_id t).latest_rejection_reason ≡ "")
      × ((task_review_status wired task_id t).has_approval
          ≡ (wired && any (λ r. true) (list_review_comments task_id (pos 100) t)))
unfolding task_review_status verdict
task_review_status_never_rejects false task_id t = (refl, refl, refl)
task_review_status_never_rejects true task_id t =
    let same =
      verdict_of (list_review_comments task_id (pos 100) t)
        (review_is_comment task_id (pos 100) t) in
    (
      ap (λ s. s.needs_rework) same,
      ap (λ s. s.latest_rejection_reason) same,
      ap (λ s. s.has_approval) same,
    )
