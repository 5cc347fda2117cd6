-- ===== src/Chunker/Blocks.antt =====
-- `_chunk_markdown_blocks` (chunker.py): the blocks of a section, with those over the size cut, are packed.
use agentic_learning_platfor.Base.{
  ℕ, ◌<◌, ◌≤◌, ◌-◌, ◌/◌, min, max, Text, Unicode, codes, strip, starts_with, same_text, ◌≡◌, refl,
  arith, tests, inl, inr, false, Option, none, some, List, [], ◌∷◌, ◌++◌, all, ltb, ◌==◌,
  Bool-cases, if◌then◌else◌,
}
use agentic_learning_platfor.Chunker.Clean.{
  clean_text, approx_token_len, is_empty, is_fence, join_lines, split_newlines, newline,
  stripped_parts,
}
use agentic_learning_platfor.Chunker.Pack.{chunk_items}
use agentic_learning_platfor.Chunker.Pack.Overlap.{Packed, chunk_items-Packed}
use agentic_learning_platfor.Chunker.Sentences.{chunk_text}
use agentic_learning_platfor.Chunker.Markdown.{
  split_oversized_markdown_block, split_fenced, split_lines, closing_of, body_of,
}

-- The cuts of re.split(r"\n\s*\n"): runs of lines that are not white space alone. What the pattern
-- leaves of white space at the ends is stripped off.
unfoldable pub paragraphs : Unicode → List Text → List Text → List Text
paragraphs u current [] = join_lines current ∷ []
paragraphs u current (line ∷ lines) =
    let ended = paragraphs u [] lines in
    let rest = paragraphs u (current ++ line ∷ []) lines in
    if all u.is_space line then join_lines current ∷ ended else rest

unfoldable pub blocks : Unicode → Text → List Text
unfolding paragraphs stripped_parts split_newlines
blocks u content = stripped_parts u (paragraphs u [] (split_newlines content))

-- "\n\n".join(current)
abbrev pub join_blocks : List Text → Text
join_blocks [] = []
join_blocks (block ∷ []) = block
join_blocks (block ∷ next ∷ others) = block ++ (newline ∷ newline ∷ join_blocks (next ∷ others))

abbrev append_result : Option (List Text) → Option (List Text) → Option (List Text)
append_result (some xs) (some ys) = some (xs ++ ys)
append_result _ _ = none

module _ (u : Unicode) (size overlap : ℕ) where
  unfoldable pub expand : List Text → Option (List Text)
  unfolding split_oversized_markdown_block
  expand [] = some []
  expand (block ∷ others) =
      let rest = expand others in
      append_result
        (if ltb size (approx_token_len u block)
          then split_oversized_markdown_block u size overlap block
          else some (block ∷ []))
        rest

  -- none: the ValueError for a size of 0.
  unfoldable pub chunk_markdown_blocks : Text → Option (List Text)
  unfolding expand blocks chunk_items
  chunk_markdown_blocks content = elim (expand (blocks u content)) [
    | none ↦ none
    | some expanded ↦
        some (chunk_items (approx_token_len u) size overlap join_blocks same_text expanded)
  ]

module _ (u : Unicode) (size overlap : ℕ) where
  -- The pieces of the blocks.
  pub data Expanded : List Text → List Text → Type 0 where
    nothing : Expanded [] []
    fits :
        (block : Text) (others items : List Text)
        → approx_token_len u block ≤ size
        → Expanded others items
        → Expanded (block ∷ others) (block ∷ items)
    too_long :
        (block : Text) (others items pieces : List Text)
        → size < approx_token_len u block
        → split_oversized_markdown_block u size overlap block ≡ some pieces
        → Expanded others items
        → Expanded (block ∷ others) (pieces ++ items)

abbrev IsSome : Option (List Text) → Type 0
IsSome o = (xs : List Text) × (o ≡ some xs)

module _ (u : Unicode) where
  chunk_text-total :
      (text : Text) (size overlap : ℕ) → 0 < size → IsSome (chunk_text u text size overlap)
  unfolding chunk_text
  chunk_text-total text size overlap h = elim (Bool-cases (is_empty (clean_text u text))) [
    | inl e ↦ rw (chunk_text, e) ([], refl)
    | inr e ↦ let k : (size == 0) ≡ false = ground arith in rw (chunk_text, e, k) (_, refl)
  ]

  module _ (size overlap : ℕ) (pos : 0 < size) where
    split_fenced-total : (stripped : Text) → IsSome (split_fenced u size overlap stripped)
    unfolding split_fenced
    split_fenced-total stripped =
        let lines = split_lines [] stripped in
        let body = body_of u size overlap lines (closing_of u size overlap lines) in
        let found =
          chunk_text-total body (max 32 (size - 8)) (min overlap (size / 4)) (omega arith) in
        rw (split_fenced, found.1) (_, refl)

    split_oversized-total :
        (block : Text) → IsSome (split_oversized_markdown_block u size overlap block)
    unfolding split_oversized_markdown_block
    split_oversized-total block =
        let stripped = strip u.is_space block in
        elim (Bool-cases (is_fence stripped)) [
          | inl e ↦ rw (split_oversized_markdown_block, e) (split_fenced-total stripped)
          | inr e ↦ elim (Bool-cases (starts_with stripped (codes "|"))) [
            | inl t ↦ rw (split_oversized_markdown_block, e, t) (_, refl)
            | inr t ↦
                rw (split_oversized_markdown_block, e, t)
                  (chunk_text-total stripped size overlap pos)
          ]
        ]

    expand-Expanded :
        (items : List Text)
        → (xs : List Text) × (expand u size overlap items ≡ some xs)
          × Expanded u size overlap items xs
    unfolding expand
    expand-Expanded [] = ([], refl, nothing)
    expand-Expanded (block ∷ others) =
        let rest = expand-Expanded others in
        elim (Bool-cases (ltb size (approx_token_len u block))) [
          | inl e ↦
              let cut = split_oversized-total block in
              (
                _,
                rw (expand, e, cut.1, rest.1) refl,
                too_long block others rest.0 cut.0 (omega (tests, e)) cut.1 rest.2,
              )
          | inr e ↦ (_, rw (expand, e, rest.1) refl, fits block others rest.0 (ground arith) rest.2)
        ]

    -- With a positive size a section's blocks are always chunked: a block that fits is a piece as it is,
    -- one over the size is replaced by the pieces that _split_oversized_markdown_block gives, and the
    -- pieces are packed, so that none is left out and they keep their order.
    pub chunk_markdown_blocks-Packed :
        (content : Text)
        → (expanded : List Text) × (chunks : List Text) × Expanded u size overlap
            (blocks u content)
            expanded
          × (chunk_markdown_blocks u size overlap content ≡ some chunks)
          × Packed (approx_token_len u) size overlap join_blocks same_text expanded chunks
    unfolding chunk_markdown_blocks
    chunk_markdown_blocks-Packed content =
        let found = expand-Expanded (blocks u content) in
        (
          found.0,
          chunk_items (approx_token_len u) size overlap join_blocks same_text found.0,
          found.2,
          rw (chunk_markdown_blocks, found.1) refl,
          chunk_items-Packed (approx_token_len u) size overlap join_blocks same_text found.0,
        )
