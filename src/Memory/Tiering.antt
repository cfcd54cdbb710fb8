-- ===== src/Memory/Tiering.antt =====
-- internal/memory/tiering.go: the one-liner and the summary of a text. A text is the list of its
-- bytes, and `trim` stands for strings.TrimSpace. The loop over runes is one over bytes, since the
-- characters that it looks for are ASCII.
use open_praxis.Prelude.{
  Bool, List, Option, [], false, if◌then◌else◌, is_space, leb, length, ltb, nat_eq, none, some, suc,
  take, true, ℕ, ◌&&◌, ◌+◌, ◌||◌, ◌∷◌,
}

abbrev pub Bytes : Type 0
Bytes = List ℕ

-- `.`, `!` or `?`
unfoldable pub is_end : ℕ → Bool
is_end c = nat_eq c 46 || (nat_eq c 33 || nat_eq c 63)

-- The end of the text, a space or a quotation mark.
unfoldable pub ends_here : Bytes → Bool
ends_here [] = true
ends_here (next ∷ rest) = is_space next || (nat_eq next 34 || nat_eq next 39)

-- The last position of a byte under `p`, from the position `i` on.
unfoldable pub last_index : (ℕ → Bool) → ℕ → Bytes → Option ℕ
last_index p i [] = none
last_index p i (c ∷ rest) = elim (last_index p (suc i) rest) [
  | some j ↦ some j
  | none ↦ if p c then some i else none
]

abbrev pub starts_line : Bytes → Bool
starts_line [] = false
starts_line (c ∷ rest) = nat_eq c 10

-- The position of the first blank line.
unfoldable pub index_break : ℕ → Bytes → Option ℕ
index_break i [] = none
index_break i (c ∷ rest) =
    let later = index_break (suc i) rest in
    if nat_eq c 10 && starts_line rest then some i else later

-- Where the loop over the text stops: after a sentence, or at a line end.
pub data Stop : Type 0 where
  sentence : ℕ → Stop
  line : ℕ → Stop

unfoldable pub stop_at : ℕ → Bytes → Option Stop
unfolding is_end ends_here
stop_at i [] = none
stop_at i (c ∷ rest) =
    let later = stop_at (suc i) rest in
    if is_end c && ends_here rest
    then some (sentence (suc i))
    else if nat_eq c 10 && ltb 20 i
    then some (line i)
    else later

-- The text up to the position of `found`, when it is not the first one, and `other` otherwise.
unfoldable pub cut_at : Option ℕ → ℕ → Bytes → Bytes → Bytes
cut_at none extra s other = other
cut_at (some idx) extra s other = if ltb 0 idx then take (idx + extra) s else other

abbrev pub is_blank_byte : ℕ → Bool
is_blank_byte c = nat_eq c 32

unfoldable pub extract_first_sentence : (Bytes → Bytes) → Bytes → Bytes
unfolding stop_at cut_at last_index
extract_first_sentence trim s = elim (stop_at 0 s) [
  | some stop ↦ elim stop [ sentence n ↦ take n s | line n ↦ trim (take n s) ]
  | none ↦
      if ltb 200 (length s)
      then cut_at (last_index is_blank_byte 0 (take 200 s)) 0 s (take 200 s)
      else s
]

unfoldable pub first_chunk : Bytes → Bytes
unfolding cut_at last_index is_end
first_chunk s =
    if ltb 500 (length s)
    then cut_at (last_index is_end 0 (take 500 s)) 1 (take 500 s)
        (cut_at (last_index is_blank_byte 0 (take 500 s)) 0 (take 500 s) (take 500 s))
    else s

unfoldable pub extract_first_paragraph : (Bytes → Bytes) → Bytes → Bytes
unfolding index_break first_chunk
extract_first_paragraph trim s = elim (index_break 0 s) [
  | none ↦ first_chunk s
  | some idx ↦ if ltb 0 idx then trim (take idx s) else first_chunk s
]

-- The cap of 2000 bytes, at the end of a sentence where there is one.
unfoldable pub capped : Bytes → Bytes
unfolding cut_at last_index is_end
capped l1 =
    if ltb 2000 (length l1)
    then cut_at (last_index is_end 0 (take 2000 l1)) 1 (take 2000 l1) (take 2000 l1)
    else l1

unfoldable pub tiers_of : (Bytes → Bytes) → Bytes → Bytes × Bytes
unfolding extract_first_sentence extract_first_paragraph capped
tiers_of trim [] = ([], [])
tiers_of trim (c ∷ rest) =
    let l0 = extract_first_sentence trim (c ∷ rest) in
    let l1 = extract_first_paragraph trim (c ∷ rest) in
    (l0, capped (if leb (length l1) (length l0) then l0 else l1))

unfoldable pub generate_tiers : (Bytes → Bytes) → Bytes → Bytes × Bytes
unfolding tiers_of
generate_tiers trim content = tiers_of trim (trim content)
