-- ===== src/Chunker/Sentences.antt =====
-- `chunk_text` (chunker.py): a text is cut into sentences, a sentence over the size into windows, and
-- the pieces are packed into chunks.
use agentic_learning_platfor.Base.{
  ℕ, ◌-◌, ◌<◌, ◌≤◌, min, Text, Unicode, same_text, ◌≡◌, refl, inl, inr, false, Option, none, some,
  List, [], ◌∷◌, ◌++◌, map, length, ltb, ◌==◌, if◌then◌else◌, arith, tests, Bool-cases,
}
use agentic_learning_platfor.Chunker.Clean.{
  clean_text, is_empty, approx_token_len, split_sentences, stripped_parts,
}
use agentic_learning_platfor.Chunker.Windows.{
  Window, slice, text_windows, hard_split, Covered, text_windows-Covered,
}
use agentic_learning_platfor.Chunker.Pack.{chunk_items}
use agentic_learning_platfor.Chunker.Pack.Overlap.{Packed, chunk_items-Packed}

-- "".join(current)
abbrev pub concat : List Text → Text
concat [] = []
concat (x ∷ xs) = x ++ concat xs

-- A sentence over the size is replaced by its windows.
unfoldable pub cut_long : Unicode → ℕ → ℕ → List Text → List Text
unfolding hard_split approx_token_len
cut_long u size overlap [] = []
cut_long u size overlap (sentence ∷ sentences) =
    let rest = cut_long u size overlap sentences in
    (if ltb size (approx_token_len u sentence)
      then hard_split u sentence size overlap
      else sentence ∷ [])
    ++ rest

unfoldable pub text_items : Unicode → ℕ → ℕ → Text → List Text
unfolding cut_long split_sentences clean_text
text_items u size overlap text = cut_long u size overlap (split_sentences u (clean_text u text))

-- none: the ValueError for a size of 0. An empty text is answered first.
unfoldable pub chunk_text : Unicode → Text → ℕ → ℕ → Option (List Text)
unfolding clean_text text_items chunk_items
chunk_text u text size overlap =
    let within = min overlap (size - 1) in
    if is_empty (clean_text u text)
    then some []
    else if size == 0
    then none
    else some (
        chunk_items (approx_token_len u) size within concat same_text
          (text_items u size within text))

module _ (u : Unicode) (size overlap : ℕ) where
  -- The pieces of the sentences: one that fits is a piece, and a longer one is replaced by what is not
  -- white space of windows that hold all its characters.
  pub data Cut : List Text → List Text → Type 0 where
    nothing : Cut [] []
    fits :
        (sentence : Text) (sentences items : List Text)
        → approx_token_len u sentence ≤ size
        → Cut sentences items
        → Cut (sentence ∷ sentences) (sentence ∷ items)
    too_long :
        (sentence : Text) (sentences items : List Text) (spans : List Window)
        → size < approx_token_len u sentence
        → ((i : ℕ) → i < length sentence → Covered i spans)
        → Cut sentences items
        → Cut (sentence ∷ sentences) (stripped_parts u (map (slice sentence) spans) ++ items)

  cut_long-Cut : (sentences : List Text) → Cut sentences (cut_long u size overlap sentences)
  unfolding cut_long hard_split
  cut_long-Cut [] = nothing
  cut_long-Cut (sentence ∷ sentences) = elim (Bool-cases (ltb size (approx_token_len u sentence))) [
    | inl e ↦ rw e (
        too_long sentence sentences _ (text_windows u sentence size overlap) (omega (tests, e))
          (λ i h. (text_windows-Covered u sentence size overlap i h).0) (cut_long-Cut sentences))
    | inr e ↦ rw e (fits sentence sentences _ (ground arith) (cut_long-Cut sentences))
  ]

module _ (u : Unicode) (text : Text) (size overlap : ℕ) where
  -- A text that has a character besides white space is chunked, with a positive size: each of its
  -- sentences is a piece if it fits, and is cut into windows over all its characters if it does not,
  -- and the pieces are packed, so that the chunks leave none out and keep their order.
  pub chunk_text-Packed :
      is_empty (clean_text u text) ≡ false
      → (size == 0) ≡ false
      → (items : List Text) × (chunks : List Text) × Cut u size
          (min overlap (size - 1))
          (split_sentences u (clean_text u text))
          items
        × (chunk_text u text size overlap ≡ some chunks)
        × Packed (approx_token_len u) size (min overlap (size - 1)) concat same_text items chunks
  unfolding chunk_text text_items
  chunk_text-Packed h k = (
    text_items u size (min overlap (size - 1)) text,
    _,
    cut_long-Cut u size (min overlap (size - 1)) (split_sentences u (clean_text u text)),
    rw (h, k) refl,
    chunk_items-Packed (approx_token_len u) size (min overlap (size - 1)) concat same_text
        (text_items u size (min overlap (size - 1)) text),
  )
