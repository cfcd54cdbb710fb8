-- ===== src/Actions/Words.antt =====
-- internal/action/polarity.go: containsWord and CheckForbiddenPatterns. A text is the list of its
-- bytes, and `lower` stands for strings.ToLower.
use open_praxis.Prelude.{
  Bool, List, Option, [], false, if◌then◌else◌, leb, length, nat_eq, none, not, some, suc, true,
  zero, ℕ, ◌&&◌, ◌+◌, ◌||◌, ◌∷◌,
}

abbrev pub Bytes : Type 0
Bytes = List ℕ

unfoldable pub is_alpha_num : ℕ → Bool
is_alpha_num b =
    leb 97 b && leb b 122 || (leb 65 b && leb b 90 || (leb 48 b && leb b 57 || nat_eq b 95))

unfoldable pub has_prefix : Bytes → Bytes → Bool
has_prefix [] s = true
has_prefix (c ∷ word) [] = false
has_prefix (c ∷ word) (d ∷ s) = nat_eq c d && has_prefix word s

-- strings.Index: the first position of `word` in a text, counted from `i`.
unfoldable pub index : ℕ → Bytes → Bytes → Option ℕ
unfolding has_prefix
index i word [] = if has_prefix word [] then some i else none
index i word (c ∷ s) =
    let later = index (suc i) word s in if has_prefix word (c ∷ s) then some i else later

-- The bytes from a position on.
unfoldable pub from : ℕ → Bytes → Bytes
from zero s = s
from (suc i) [] = []
from (suc i) (c ∷ s) = from i s

unfoldable pub starts_free : Bytes → Bool
starts_free [] = true
starts_free (c ∷ s) = not (is_alpha_num c)

-- No letter, digit or underscore stands right before the position.
unfoldable pub left_ok : ℕ → Bytes → Bool
unfolding from starts_free
left_ok zero text = true
left_ok (suc i) text = starts_free (from i text)

unfoldable pub right_ok : ℕ → Bytes → Bool
unfolding from starts_free
right_ok i text = starts_free (from i text)

-- The loop from `idx` on; `none` when the fuel runs out.
unfoldable pub search_word : ℕ → ℕ → Bytes → Bytes → Option Bool
unfolding index from left_ok right_ok
search_word zero idx text word = none
search_word (suc fuel) idx text word = elim (index idx word (from idx text)) [
  | none ↦ some false
  | some place ↦
      let later = search_word fuel (suc place) text word in
      if left_ok place text && right_ok (place + length word) text
      then some true
      else if leb (length text) (suc place)
      then some false
      else later
]

unfoldable pub contains_word : Bytes → Bytes → Option Bool
unfolding search_word
contains_word text word = search_word (suc (length text)) 0 text word

-- The loop over the patterns, and its result; `none` when containsWord does not return.
unfoldable pub first_pattern : Bytes → List Bytes → Option (Option Bytes)
unfolding contains_word
first_pattern lower [] = some none
first_pattern lower (pat ∷ forbidden) =
    let later = first_pattern lower forbidden in
    elim (contains_word lower pat) [
      | none ↦ none
      | some found ↦ if found then some (some pat) else later
    ]

unfoldable pub check_forbidden_patterns :
    (Bytes → Bytes) → Bytes → List Bytes → Option (Option Bytes)
unfolding first_pattern
check_forbidden_patterns lower text forbidden = first_pattern (lower text) forbidden
