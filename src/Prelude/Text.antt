-- ===== src/Prelude/Text.antt =====
-- Texts as the program uses them: emptiness, membership, and the byte order in which SQL
-- compares TEXT columns (of valid UTF-8, whose byte order is the order of code points).
use Prim.Native.Nat.{ℕ, compare, Ordering}
use Prim.Native.Char.{code}
use Prim.Native.String.{String}
use mathlib.Core.Path.{◌≡◌, refl}
use native.Mathlib.Omega.{arith}
use mathlib.Core.Bool.{Bool, true, false, not, ◌&&◌, ◌||◌}
use mathlib.Core.List.{List, [], ◌∷◌}
use text.Mathlib.Text.{◌==◌}
use open_praxis.Prelude.Tests.{leb, nat_eq}

abbrev pub is_empty : String → Bool
is_empty s = s == ""

abbrev pub codes : String → List ℕ
codes String.[] = []
codes (String.◌∷◌ c s) = code c ∷ codes s

codes_lt : List ℕ → List ℕ → Bool
codes_lt [] [] = false
codes_lt [] (b ∷ bs) = true
codes_lt (a ∷ as') [] = false
codes_lt (a ∷ as') (b ∷ bs) =
    let rest = codes_lt as' bs in
    elim (compare a b) [ Ordering.lt ↦ true | Ordering.eq ↦ rest | Ordering.gt ↦ false ]

-- `s < t` and `s <= t` on TEXT.
unfoldable pub text_lt : String → String → Bool
unfolding codes_lt
text_lt s t = codes_lt (codes s) (codes t)

abbrev pub text_le : String → String → Bool
text_le s t = not (text_lt t s)

-- `s + t`
unfoldable pub concat : String → String → String
concat String.[] t = t
concat (String.◌∷◌ c s) t = String.◌∷◌ c (concat s t)

-- `for _, v := range xs { if v == s { return true } }; return false`
unfoldable pub contains : List String → String → Bool
contains [] s = false
contains (v ∷ xs) s = v == s || contains xs s

codes_lt_asym : (as' bs : List ℕ) → codes_lt as' bs ≡ true → codes_lt bs as' ≡ false
unfolding codes_lt
codes_lt_asym [] [] h = refl
codes_lt_asym [] (b ∷ bs) h = refl
codes_lt_asym (a ∷ as') [] h = cc
codes_lt_asym (a ∷ as') (b ∷ bs) h = ground (arith, codes_lt_asym as' bs)

-- Between two texts in order, every text is after the first or before the second.
codes_lt_between :
    (as' bs cs : List ℕ)
    → codes_lt as' bs ≡ false
    → codes_lt bs cs ≡ false
    → codes_lt as' cs ≡ false
unfolding codes_lt
codes_lt_between [] [] cs h k = k
codes_lt_between [] (b ∷ bs) cs h k = cc
codes_lt_between (a ∷ as') bs [] h k = refl
codes_lt_between (a ∷ as') [] (c ∷ cs) h k = cc
codes_lt_between (a ∷ as') (b ∷ bs) (c ∷ cs) h k = ground (arith, codes_lt_between as' bs cs)

pub text_le-total : (s t : String) → text_le s t ≡ false → text_le t s ≡ true
unfolding text_lt
text_le-total s t h = ground (arith, codes_lt_asym (codes t) (codes s))

pub text_le_trans : (s t u : String) → text_le s t ≡ true → text_le t u ≡ true → text_le s u ≡ true
unfolding text_lt
text_le_trans s t u h k = ground (arith, codes_lt_between (codes u) (codes t) (codes s))

-- unicode.IsSpace
abbrev pub is_space : ℕ → Bool
is_space c =
    (leb 0x09 c && leb c 0x0d)
    || (nat_eq c 0x20
        || (nat_eq c 0x85
            || (nat_eq c 0xa0
                || (nat_eq c 0x1680
                    || ((leb 0x2000 c && leb c 0x200a)
                        || (nat_eq c 0x2028
                            || (nat_eq c 0x2029
                                || (nat_eq c 0x202f || (nat_eq c 0x205f || nat_eq c 0x3000)))))))))

all_spaces : List ℕ → Bool
all_spaces [] = true
all_spaces (c ∷ cs) = is_space c && all_spaces cs

-- `strings.TrimSpace(s) == ""`
unfoldable pub is_blank : String → Bool
unfolding all_spaces
is_blank s = all_spaces (codes s)
