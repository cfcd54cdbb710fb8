-- ===== src/Actions/Found.antt =====
-- internal/action/polarity.go: what containsWord finds.
use open_praxis.Actions.Words.{Bytes, from, has_prefix, index, left_ok, right_ok, search_word}
use open_praxis.Prelude.{
  Bool, Bool-cases, Option-cases, [], ap, arith, false, inl, inr, leb, length, ltb, nat_eq, none,
  refl, some, suc, sym, true, zero, ℕ, ◌&&◌, ◌+◌, ◌-◌, ◌<◌, ◌∙◌, ◌∷◌, ◌≡◌, ◌≤◌,
}

-- The word stands at the position, with no letter, digit or underscore right before or after it.
abbrev pub IsWordAt : Bytes → Bytes → ℕ → Type 0
IsWordAt text word i =
    (has_prefix word (from i text) ≡ true)
    × (left_ok i text ≡ true)
    × (right_ok (i + length word) text ≡ true)

from_nil : (i : ℕ) → from i [] ≡ []
unfolding from
from_nil zero = refl
from_nil (suc i) = refl

from-from : (i k p : ℕ) (s : Bytes) → p ≡ i + k → from k (from i s) ≡ from p s
unfolding from
from-from zero k p s q = ap (λ n. from n s) (omega (arith, q))
from-from (suc i) k p [] q = from_nil k ∙ sym (from_nil p)
from-from (suc i) k zero (c ∷ s) q = absurd (omega (arith, q))
from-from (suc i) k (suc p) (c ∷ s) q = from-from i k p s (omega (arith, q))

from_end : (i : ℕ) (s : Bytes) → length s ≤ i → from i s ≡ []
unfolding from
from_end i [] h = from_nil i
from_end zero (c ∷ s) h = absurd (omega (arith, h))
from_end (suc i) (c ∷ s) h = from_end i s (omega (arith, h))

prefix_nil : (word : Bytes) → 0 < length word → has_prefix word [] ≡ false
unfolding has_prefix
prefix_nil [] h = absurd (omega (arith, h))
prefix_nil (c ∷ word) h = refl

index-none :
    (word s : Bytes) (i : ℕ) → index i word s ≡ none → (j : ℕ) → has_prefix word (from j s) ≡ false
unfolding index from
index-none word [] i h j = elim (Bool-cases (has_prefix word [])) [
  | inl e ↦ cc (rw (index, e) at h)
  | inr e ↦ rw (from_nil j) e
]
index-none word (c ∷ s) i h j = elim (Bool-cases (has_prefix word (c ∷ s))) [
  | inl e ↦ cc (rw (index, e) at h)
  | inr e ↦ elim j as (λ m. has_prefix word (from m (c ∷ s)) ≡ false) [
    | zero ↦ e
    | suc m ↦ index-none word s (suc i) (rw (index, e) at h) m
  ]
]

same_some : {a b : ℕ} → some a ≡ some b → a ≡ b
same_some h = cc

index-some :
    (word s : Bytes) (i : ℕ) {p : ℕ}
    → index i word s ≡ some p
    → (k : ℕ) × (p ≡ i + k)
      × (has_prefix word (from k s) ≡ true)
      × ((j : ℕ) → j < k → has_prefix word (from j s) ≡ false)
unfolding index from
index-some word [] i h = elim (Bool-cases (has_prefix word [])) [
  | inr e ↦ cc (rw (index, e) at h)
  | inl e ↦
      let q = same_some (rw (index, e) at h) in
      (0, omega (arith, q), e, (λ j b. absurd (omega (arith, b))))
]
index-some word (c ∷ s) i h = elim (Bool-cases (has_prefix word (c ∷ s))) [
  | inl e ↦
      let q = same_some (rw (index, e) at h) in
      (0, omega (arith, q), e, (λ j b. absurd (omega (arith, b))))
  | inr e ↦
      let (k, q, hit, before) = index-some word s (suc i) (rw (index, e) at h) in
      (
        suc k,
        omega (arith, q),
        hit,
        (λ j. elim j as (λ m. m < suc k → has_prefix word (from m (c ∷ s)) ≡ false) [
          | zero ↦ λ b. e
          | suc m ↦ λ b. before m (omega (arith, b))
        ]),
      )
]

pub starts_at :
    (text word : Bytes) (i p : ℕ)
    → i ≤ p
    → 0 < length word
    → has_prefix word (from p text) ≡ true
    → p < length text
starts_at text word i p h w hit = elim (Bool-cases (leb (length text) p)) [
  | inr e ↦ ground (arith, e)
  | inl e ↦ cc (rw (from_end p text (ground (arith, e)), prefix_nil word w) at hit)
]

pub search_word_finds :
    (fuel idx : ℕ) (text word : Bytes)
    → search_word fuel idx text word ≡ some true
    → (i : ℕ) × IsWordAt text word i
unfolding search_word
search_word_finds zero idx text word h = cc
search_word_finds (suc fuel) idx text word h =
    elim (Option-cases (index idx word (from idx text))) [
      | inl e ↦ cc (rw (search_word, e) at h)
      | inr (p, e) ↦ elim (Bool-cases (left_ok p text && right_ok (p + length word) text)) [
        | inl f ↦
            let (k, q, hit, before) = index-some word (from idx text) idx e in
            (p, (rw (from-from idx k p text q) at hit, ground (arith, f), ground (arith, f)))
        | inr f ↦ elim (Bool-cases (leb (length text) (suc p))) [
          | inl g ↦ cc (rw (search_word, e, f, g) at h)
          | inr g ↦ search_word_finds fuel (suc p) text word (rw (search_word, e, f, g) at h)
        ]
      ]
    ]

both_ways : {b : Bool} → b ≡ true → b ≡ false → ⊥
both_ways h k = cc

later_misses :
    (text word : Bytes) (idx i k p : ℕ)
    → p ≡ idx + k
    → idx ≤ i
    → i < p
    → ((j : ℕ) → j < k → has_prefix word (from j (from idx text)) ≡ false)
    → has_prefix word (from i text) ≡ false
later_misses text word idx i k p q b c before =
    ap (has_prefix word) (sym (from-from idx (i - idx) i text (omega (arith, b))))
    ∙ before (i - idx) (omega (arith, b, c, q))

not_at :
    (text word : Bytes) (i p : ℕ)
    → (left_ok p text && right_ok (p + length word) text) ≡ false
    → i ≡ p
    → IsWordAt text word i
    → ⊥
not_at text word i p f q (hit, l, r) =
    both_ways (ground (arith, l, r))
      (ap (λ n. left_ok n text && right_ok (n + length word) text) q ∙ f)

pub search_word_misses :
    (fuel idx : ℕ) (text word : Bytes)
    → 0 < length word
    → length text < fuel + idx
    → search_word fuel idx text word ≡ some false
    → (i : ℕ) → idx ≤ i
    → IsWordAt text word i
    → ⊥
unfolding search_word
search_word_misses zero idx text word w enough h i b (hit, l, r) =
    absurd (omega (arith, enough, b, starts_at text word idx i b w hit))
search_word_misses (suc fuel) idx text word w enough h i b here =
    elim (Option-cases (index idx word (from idx text))) [
      | inl e ↦ both_ways here.0 (
          ap (has_prefix word) (sym (from-from idx (i - idx) i text (omega (arith, b))))
          ∙ index-none word (from idx text) idx e (i - idx))
      | inr (p, e) ↦
          let (k, q, found, before) = index-some word (from idx text) idx e in
          elim (Bool-cases (left_ok p text && right_ok (p + length word) text)) [
            | inl f ↦ cc (rw (search_word, e, f) at h)
            | inr f ↦ elim (Bool-cases (ltb i p)) [
              | inl c ↦
                  both_ways here.0 (later_misses text word idx i k p q b (ground (arith, c)) before)
              | inr c ↦ elim (Bool-cases (nat_eq i p)) [
                | inl same ↦ not_at text word i p f (ground (arith, same)) here
                | inr other ↦ elim (Bool-cases (leb (length text) (suc p))) [
                  | inl g ↦
                      absurd (ground (arith, starts_at text word idx i b w here.0, c, other, g))
                  | inr g ↦
                      search_word_misses fuel (suc p) text word w (omega (arith, enough, q))
                        (rw (search_word, e, f, g) at h) i (ground (arith, c, other)) here
                ]
              ]
            ]
          ]
    ]

pub search_word_returns :
    (fuel idx : ℕ) (text word : Bytes)
    → idx ≤ length text
    → length text < fuel + idx
    → (found : Bool) × (search_word fuel idx text word ≡ some found)
unfolding search_word
search_word_returns zero idx text word inside enough = absurd (omega (arith, inside, enough))
search_word_returns (suc fuel) idx text word inside enough =
    elim (Option-cases (index idx word (from idx text))) [
      | inl e ↦ rw (search_word, e) (false, refl)
      | inr (p, e) ↦
          let (k, q, found, before) = index-some word (from idx text) idx e in
          elim (Bool-cases (left_ok p text && right_ok (p + length word) text)) [
            | inl f ↦ rw (search_word, e, f) (true, refl)
            | inr f ↦ elim (Bool-cases (leb (length text) (suc p))) [
              | inl g ↦ rw (search_word, e, f, g) (false, refl)
              | inr g ↦
                  rw (search_word, e, f, g)
                    (search_word_returns fuel (suc p) text word (ground (arith, g))
                      (omega (arith, enough, q)))
            ]
          ]
    ]
