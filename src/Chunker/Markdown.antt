-- ===== src/Chunker/Markdown.antt =====
-- `_split_oversized_markdown_block` and `_chunk_markdown_blocks` (chunker.py): a block of markdown over
-- the size is cut inside its fence or below its table's header.
pub mod Rows
use agentic_learning_platfor.Base.{
  ℕ, ◌-◌, ◌/◌, min, max, Text, Unicode, codes, strip, lstrip, starts_with, same_text, Bool, true,
  false, not, ◌&&◌, ◌||◌, Option, none, some, List, [], ◌∷◌, ◌++◌, map, take, drop, length, reverse,
  all, ltb, leb, ◌==◌, if◌then◌else◌,
}
use agentic_learning_platfor.Chunker.Clean.{
  approx_token_len, is_empty, is_fence, join_lines, split_newlines, newline,
}
use agentic_learning_platfor.Chunker.Pack.{is_nil, chunk_items}
use agentic_learning_platfor.Chunker.Sentences.{chunk_text}

-- The characters at which str.splitlines() ends a line; "\r\n" ends one line.
abbrev pub ends_line : ℕ → Bool
ends_line c =
    leb 10 c && leb c 13
    || (leb 0x1c c && leb c 0x1e || (c == 0x85 || (c == 0x2028 || c == 0x2029)))

-- text.splitlines(), where `line` holds the line so far, its last character first.
unfoldable pub split_lines : Text → Text → List Text
split_lines line [] = if is_empty line then [] else reverse line ∷ []
split_lines line (c ∷ []) = if ends_line c then reverse line ∷ [] else reverse (c ∷ line) ∷ []
split_lines line (c ∷ d ∷ text) =
    let ended = split_lines [] (d ∷ text) in
    let ended_twice = split_lines [] text in
    let rest = split_lines (c ∷ line) (d ∷ text) in
    if c == 13 && d == 10
    then reverse line ∷ ended_twice
    else if ends_line c
    then reverse line ∷ ended
    else rest

abbrev pub first_line : List Text → Text
first_line [] = []
first_line (line ∷ lines) = line

abbrev pub last_line : List Text → Text
last_line [] = []
last_line (line ∷ []) = line
last_line (line ∷ next ∷ lines) = last_line (next ∷ lines)

-- lines[:-1]
abbrev pub without_last : List Text → List Text
without_last [] = []
without_last (line ∷ []) = []
without_last (line ∷ next ∷ lines) = line ∷ without_last (next ∷ lines)

abbrev pub skip_one : ℕ → Text → Text
skip_one c [] = []
skip_one c (d ∷ text) = if c == d then text else d ∷ text

abbrev pub starts_with_dash : Text → Bool
starts_with_dash [] = false
starts_with_dash (c ∷ text) = c == 45

-- re.match(r"^\s*\|?\s*:?-+", row)
unfoldable pub is_rule : Unicode → Text → Bool
unfolding lstrip
is_rule u row =
    starts_with_dash (skip_one 58 (lstrip u.is_space (skip_one 124 (lstrip u.is_space row))))

-- The number of the header's rows.
abbrev pub header_length : Unicode → List Text → ℕ
header_length u [] = 0
header_length u (row ∷ []) = 1
header_length u (row ∷ next ∷ rows) = if is_rule u next then 2 else 1

module _ (count : List Text → ℕ) (size : ℕ) (header : List Text) where
  abbrev pub is_over : List Text → Text → Bool
  is_over current row = not (is_nil current) && ltb size (count (header ++ (current ++ row ∷ [])))

  -- The data rows of each piece; `pushed` tells that there is a piece already.
  unfoldable pub row_groups : Bool → List Text → List Text → List (List Text)
  row_groups pushed current [] = if not (is_nil current) || not pushed then current ∷ [] else []
  row_groups pushed current (row ∷ rows) =
      let closed = row_groups true (row ∷ []) rows in
      let open' = row_groups pushed (current ++ row ∷ []) rows in
      if is_over current row then current ∷ closed else open'

module _ (u : Unicode) (size overlap : ℕ) where
  unfoldable pub split_table : List Text → List Text
  unfolding row_groups
  split_table rows =
      let header = take (header_length u rows) rows in
      let data_rows = drop (header_length u rows) rows in
      map (λ group. join_lines (header ++ group))
        (row_groups (λ lines. approx_token_len u (join_lines lines)) size header false [] data_rows)

  abbrev pub closing_of : List Text → Text
  closing_of lines =
      if ltb 1 (length lines) && is_fence (last_line lines)
      then last_line lines
      else take 3 (first_line lines)

  abbrev pub body_of : List Text → Text → Text
  body_of lines closing =
      join_lines
        (if same_text (last_line lines) closing then without_last (drop 1 lines) else drop 1 lines)

  abbrev pub or_whole : Text → List Text → List Text
  or_whole whole [] = whole ∷ []
  or_whole whole (piece ∷ pieces) = piece ∷ pieces

  -- The pieces of a fenced block, each within the fence. The size for its text is 32 at least, so that
  -- chunk_text does not fail.
  unfoldable pub split_fenced : Text → Option (List Text)
  unfolding split_lines chunk_text
  split_fenced stripped =
      let lines = split_lines [] stripped in
      let fence = first_line lines in
      let closing = closing_of lines in
      elim (chunk_text u (body_of lines closing) (max 32 (size - 8)) (min overlap (size / 4))) [
        | none ↦ none
        | some pieces ↦ some (
            or_whole stripped
              (map (λ piece. fence ++ (newline ∷ piece) ++ (newline ∷ closing)) pieces))
      ]

  -- none: the ValueError of chunk_text for a size of 0.
  unfoldable pub split_oversized_markdown_block : Text → Option (List Text)
  unfolding strip split_fenced split_table chunk_text
  split_oversized_markdown_block block =
      let stripped = strip u.is_space block in
      if is_fence stripped
      then split_fenced stripped
      else if starts_with stripped (codes "|")
      then some (split_table (split_lines [] stripped))
      else chunk_text u stripped size overlap
