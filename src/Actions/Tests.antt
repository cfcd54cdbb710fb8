-- ===== src/Actions/Tests.antt =====
-- Runs of the search for forbidden patterns, and the theorem at a concrete input.
use open_praxis.Actions.Words.{Bytes, check_forbidden_patterns, contains_word, is_alpha_num}
use open_praxis.Prelude.{[], false, first, refl, some, ◌∷◌, ◌≡◌}

-- `used sed -i`
abbrev action : Bytes
action = 117 ∷ 115 ∷ 101 ∷ 100 ∷ 32 ∷ 115 ∷ 101 ∷ 100 ∷ 32 ∷ 45 ∷ 105 ∷ []

-- `sed`
abbrev sed : Bytes
sed = 115 ∷ 101 ∷ 100 ∷ []

-- `use`
abbrev prefix : Bytes
prefix = 117 ∷ 115 ∷ 101 ∷ []

found_sed : check_forbidden_patterns (λ s. s) action (prefix ∷ sed ∷ []) ≡ some (some sed)
unfolding check_forbidden_patterns first is_alpha_num
found_sed = refl

not_a_word : contains_word action prefix ≡ some false
unfolding contains_word is_alpha_num
not_a_word = refl
