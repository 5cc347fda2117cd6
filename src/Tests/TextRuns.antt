-- ===== src/Tests/TextRuns.antt =====
-- Runs of the token budget and of the chunker.
use agentic_learning_platfor.Base.{
  length, ℕ, ◌+◌, ◌≤◌, Text, codes, same_text, ◌≡◌, refl, true, false, none, some, List, [], ◌∷◌,
  All, arith,
}
use agentic_learning_platfor.Tests.{ascii}
use agentic_learning_platfor.TokenBudget.{
  Tokenizer, count_tokens, truncate_tokens, fit_recent_lines, is_cjk,
}
use agentic_learning_platfor.TokenBudget.Estimate.{SpacesCountNothing}
use agentic_learning_platfor.TokenBudget.Truncate.{IsEstimating, truncate_tokens-le}
use agentic_learning_platfor.TokenBudget.Fit.{Fitted, fit_recent_lines-Fitted}
use agentic_learning_platfor.Chunker.Clean.{
  split_sentences, normalized, split_newlines, clean_text, approx_token_len,
}
use agentic_learning_platfor.Chunker.Windows.{
  Covered, text_windows, window_of, text_windows-Covered,
}
use agentic_learning_platfor.Chunker.Pack.{is_nil, chunk_items}
use agentic_learning_platfor.Chunker.Pack.Overlap.{Packed, chunk_items-Packed}
use agentic_learning_platfor.Chunker.Markdown.{row_groups}
use agentic_learning_platfor.Chunker.Markdown.Rows.{all_rows, RowSized, row_groups_complete}
use agentic_learning_platfor.Chunker.Blocks.{
  blocks, join_blocks, Expanded, chunk_markdown_blocks, chunk_markdown_blocks-Packed,
}
use agentic_learning_platfor.Chunker.Sentences.{concat, Cut, chunk_text, chunk_text-Packed}

-- tiktoken is not there, so that the tokens are estimated.
abbrev estimating : Tokenizer
estimating = record {
  unicode = ascii;
  encode = λ text. none;
  decode = λ tokens. none;
  scaled = λ length budget tokens. length;
}

spaces_count_nothing : SpacesCountNothing ascii is_cjk
unfolding is_cjk
spaces_count_nothing c h = ground arith

abbrev estimating-IsEstimating : IsEstimating estimating
estimating-IsEstimating = record { no_encoder = λ text. refl; spaces = spaces_count_nothing }

truncate_tokens-le_example :
    count_tokens estimating (truncate_tokens estimating true 2 (codes "one two three")) ≤ 2
truncate_tokens-le_example =
    truncate_tokens-le estimating estimating-IsEstimating true 2 (codes "one two three")

abbrev lines : List Text
lines = codes "one" ∷ codes "two" ∷ codes "three" ∷ []

fit_recent_lines-Fitted_example : Fitted estimating 3 lines (fit_recent_lines estimating lines 3)
fit_recent_lines-Fitted_example = fit_recent_lines-Fitted estimating lines 3 (omega arith)

text_windows-Covered_example :
    Covered 5 (text_windows ascii (codes "abcdefgh") 1 0)
    × All
        (λ w. (w.end ≤ 8) × (w.end ≤ w.start + window_of ascii (codes "abcdefgh") 1))
        (text_windows ascii (codes "abcdefgh") 1 0)
text_windows-Covered_example = text_windows-Covered ascii (codes "abcdefgh") 1 0 5 (omega arith)

chunk_items-Packed_example :
    Packed {A = ℕ}
      (λ n. n)
      5
      2
      (λ ns. ns)
      same_text
      (3 ∷ 1 ∷ 2 ∷ 4 ∷ [])
      (chunk_items (λ n. n) 5 2 (λ ns. ns) same_text (3 ∷ 1 ∷ 2 ∷ 4 ∷ []))
chunk_items-Packed_example =
    chunk_items-Packed (λ n. n) 5 2 (λ ns. ns) same_text (3 ∷ 1 ∷ 2 ∷ 4 ∷ [])

chunk_text-Packed_example :
    (items : List Text) × (chunks : List Text) × Cut ascii 3 1
      (split_sentences ascii (clean_text ascii (codes "One two. Three four.")))
      items
    × (chunk_text ascii (codes "One two. Three four.") 3 1 ≡ some chunks)
    × Packed (approx_token_len ascii) 3 1 concat same_text items chunks
unfolding clean_text split_newlines normalized
chunk_text-Packed_example = chunk_text-Packed ascii (codes "One two. Three four.") 3 1 refl refl

abbrev rows : List Text
rows = codes "|a|" ∷ codes "|b|" ∷ codes "|c|" ∷ []

row_groups_complete_example :
    (all_rows (row_groups length 3 (codes "|h|" ∷ []) false [] rows) ≡ rows)
    × (is_nil rows ≡ false
        → All
            (RowSized length 3 (codes "|h|" ∷ []))
            (row_groups length 3 (codes "|h|" ∷ []) false [] rows))
    × (is_nil rows ≡ true → row_groups length 3 (codes "|h|" ∷ []) false [] rows ≡ [] ∷ [])
row_groups_complete_example = row_groups_complete length 3 (codes "|h|" ∷ []) rows

chunk_markdown_blocks-Packed_example :
    (expanded : List Text) × (chunks : List Text) × Expanded ascii 3 1
      (blocks ascii (codes "one two"))
      expanded
    × (chunk_markdown_blocks ascii 3 1 (codes "one two") ≡ some chunks)
    × Packed (approx_token_len ascii) 3 1 join_blocks same_text expanded chunks
chunk_markdown_blocks-Packed_example =
    chunk_markdown_blocks-Packed ascii 3 1 (omega arith) (codes "one two")
