-- ===== src/Entities/SeedRuns.antt =====
-- internal/entity/types_store.go: the loop of Seed.
use open_praxis.Entities.Seeding.{IsDrawn}
use open_praxis.Entities.Types.{Builtin}
use open_praxis.Prelude.{Every, List, [], false, ◌==◌, ◌∷◌, ◌≡◌}

-- Built-in types with different names, each with a color and an icon.
abbrev pub AllApart : List Builtin → Type 0
AllApart [] = Unit
AllApart (b ∷ bs) = IsDrawn b × Every (λ o. (o.name == b.name) ≡ false) bs × AllApart bs
