-- ===== src/Memory/Bounds.antt =====
-- internal/memory/tiering.go: how long the one-liner and the summary are.
use open_praxis.Memory.Tiering.{
  Bytes, Stop, capped, cut_at, extract_first_paragraph, extract_first_sentence, first_chunk,
  generate_tiers, index_break, is_blank_byte, is_end, last_index, line, sentence, stop_at, tiers_of,
}
use open_praxis.Prelude.{
  Option, Option-cases, [], arith, if◌then◌else◌, inl, inr, leb, length, length-take, none, some,
  suc, take, zero, ℕ, ◌+◌, ◌∷◌, ◌≡◌, ◌≤◌,
}

take_le : (n : ℕ) (s : Bytes) → length (take n s) ≤ length s
unfolding take
take_le zero s = omega arith
take_le (suc n) [] = omega arith
take_le (suc n) (c ∷ s) = omega (arith, take_le n s)

cut_at_le :
    (found : Option ℕ) (extra m : ℕ) (s other : Bytes)
    → length s ≤ m
    → length other ≤ m
    → length (cut_at found extra s other) ≤ m
unfolding cut_at
cut_at_le none extra m s other h k = k
cut_at_le (some idx) extra m s other h k = ground (arith, take_le (idx + extra) s)

-- A text that TrimSpace makes no longer.
module _ (trim : Bytes → Bytes) (shrinks : (s : Bytes) → length (trim s) ≤ length s) where
  stopped_le :
      (stop : Stop) (s : Bytes)
      → length (elim stop [ sentence n ↦ take n s | line n ↦ trim (take n s) ]) ≤ length s
  stopped_le (sentence n) s = take_le n s
  stopped_le (line n) s = omega (arith, shrinks (take n s), take_le n s)

  sentence_le : (s : Bytes) → length (extract_first_sentence trim s) ≤ length s
  unfolding extract_first_sentence
  sentence_le s = elim (Option-cases (stop_at 0 s)) [
    | inl e ↦
        rw (extract_first_sentence, e)
          (ground (
            arith,
            take_le 200 s,
            cut_at_le (last_index is_blank_byte 0 (take 200 s)) 0 (length s) s (take 200 s),
          ))
    | inr (stop, e) ↦ rw (extract_first_sentence, e) (stopped_le stop s)
  ]

  first_chunk_le : (s : Bytes) → length (first_chunk s) ≤ length s
  unfolding first_chunk
  first_chunk_le s = ground (
    arith,
    take_le 500 s,
    cut_at_le (last_index is_end 0 (take 500 s)) 1 (length s) (take 500 s)
        (cut_at (last_index is_blank_byte 0 (take 500 s)) 0 (take 500 s) (take 500 s)),
    cut_at_le (last_index is_blank_byte 0 (take 500 s)) 0 (length s) (take 500 s) (take 500 s),
  )

  paragraph_le : (s : Bytes) → length (extract_first_paragraph trim s) ≤ length s
  unfolding extract_first_paragraph
  paragraph_le s = elim (Option-cases (index_break 0 s)) [
    | inl e ↦ rw (extract_first_paragraph, e) (first_chunk_le s)
    | inr (idx, e) ↦
        rw (extract_first_paragraph, e)
          (ground (arith, shrinks (take idx s), take_le idx s, first_chunk_le s))
  ]

  capped_le : (s : Bytes) → length (capped s) ≤ 2000
  unfolding capped
  capped_le s = ground (
    arith,
    length-take 2000 s,
    cut_at_le (last_index is_end 0 (take 2000 s)) 1 2000 (take 2000 s) (take 2000 s),
  )

  uncapped : (s : Bytes) → length s ≤ 2000 → capped s ≡ s
  unfolding capped
  uncapped s h = ground arith

  tiers_le :
      (s : Bytes)
      → (length (tiers_of trim s).1 ≤ 2000)
        × (length s ≤ 2000
            → (length (tiers_of trim s).0 ≤ length (tiers_of trim s).1)
              × (length (tiers_of trim s).1 ≤ length s))
  unfolding tiers_of
  tiers_le [] = (omega arith, λ h. (omega arith, omega arith))
  tiers_le (c ∷ rest) =
      let l0 = extract_first_sentence trim (c ∷ rest) in
      let l1 = extract_first_paragraph trim (c ∷ rest) in
      let long = if leb (length l1) (length l0) then l0 else l1 in
      let above : length l0 ≤ length long = ground arith in
      let below : length long ≤ length (c ∷ rest) =
        ground (arith, sentence_le (c ∷ rest), paragraph_le (c ∷ rest)) in
      (capped_le long, λ h. rw (uncapped long (omega (arith, below, h))) (above, below))

  -- When TrimSpace makes no text longer: the summary of GenerateTiers has at most 2000 bytes, and
  -- for a content of at most 2000 bytes the one-liner is no longer than the summary, which is no
  -- longer than the content.
  pub generate_tiers_lem :
      (content : Bytes)
      → (length (generate_tiers trim content).1 ≤ 2000)
        × (length content ≤ 2000
            → (length (generate_tiers trim content).0 ≤ length (generate_tiers trim content).1)
              × (length (generate_tiers trim content).1 ≤ length content))
  unfolding generate_tiers
  generate_tiers_lem content =
      let (cap, small) = tiers_le (trim content) in
      let less = shrinks content in
      (
        cap,
        λ h.
            let (order, within) = small (omega (arith, less, h)) in
            (order, omega (arith, less, within)),
      )
