-- ===== src/Memory/Tests.antt =====
-- Runs of the tiering of texts, and the theorem at a concrete input.
use open_praxis.Memory.Bounds.{generate_tiers_lem}
use open_praxis.Memory.Tiering.{Bytes, generate_tiers}
use open_praxis.Prelude.{[], arith, if◌then◌else◌, is_space, length, refl, take, ◌∷◌, ◌≡◌, ◌≤◌}

-- TrimSpace at the start of a text.
drop_spaces : Bytes → Bytes
drop_spaces [] = []
drop_spaces (c ∷ rest) = let later = drop_spaces rest in if is_space c then later else c ∷ rest

length-drop_spaces : (s : Bytes) → length (drop_spaces s) ≤ length s
unfolding drop_spaces
length-drop_spaces [] = omega arith
length-drop_spaces (c ∷ rest) = ground (arith, length-drop_spaces rest)

-- " Go. On we go." and a blank line, then "End"
abbrev note : Bytes
note =
    32 ∷ 71 ∷ 111 ∷ 46 ∷ 32 ∷ 79 ∷ 110 ∷ 32 ∷ 119 ∷ 101 ∷ 32 ∷ 103 ∷ 111 ∷ 46 ∷ 10 ∷ 10 ∷ 69 ∷ 110
    ∷ 100 ∷ []

abbrev first_sentence : Bytes
first_sentence = 71 ∷ 111 ∷ 46 ∷ []

abbrev first_paragraph : Bytes
first_paragraph = 71 ∷ 111 ∷ 46 ∷ 32 ∷ 79 ∷ 110 ∷ 32 ∷ 119 ∷ 101 ∷ 32 ∷ 103 ∷ 111 ∷ 46 ∷ []

note_tiers : generate_tiers drop_spaces note ≡ (first_sentence, first_paragraph)
unfolding generate_tiers drop_spaces take
note_tiers = refl

generate_tiers_lem_example :
    (length (generate_tiers drop_spaces note).1 ≤ 2000)
    × (length note ≤ 2000
        → (length (generate_tiers drop_spaces note).0 ≤ length (generate_tiers drop_spaces note).1)
          × (length (generate_tiers drop_spaces note).1 ≤ length note))
generate_tiers_lem_example = generate_tiers_lem drop_spaces length-drop_spaces note
