-- ===== src/Actions/Forbidden.antt =====
-- internal/action/polarity.go: containsWord and CheckForbiddenPatterns against a search of every
-- position.
use open_praxis.Actions.Words.{Bytes, from, has_prefix, left_ok, right_ok}
use open_praxis.Prelude.{Bool, false, length, suc, zero, ℕ, ◌&&◌, ◌+◌, ◌||◌}

-- The word stands at the position, with no letter, digit or underscore right before or after it.
unfoldable pub is_word_at : Bytes → Bytes → ℕ → Bool
is_word_at text word i =
    has_prefix word (from i text) && (left_ok i text && right_ok (i + length word) text)

-- A position below `n` passes the test.
unfoldable pub some_below : ℕ → (ℕ → Bool) → Bool
some_below zero p = false
some_below (suc n) p = p n || some_below n p
