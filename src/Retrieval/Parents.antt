-- ===== src/Retrieval/Parents.antt =====
-- The context around a chunk that is found (rag/parent_context.py). A chunk's index is a natural
-- number; an index to the left of 0 is none. The `while` loop runs on fuel, and is none without it.
pub mod Ends
pub mod Budget
use agentic_learning_platfor.Base.{
  ℕ, zero, suc, ◌+◌, ◌-◌, ◌*◌, ◌≤◌, min, max, Text, Unicode, joined, Bool, true, false, not, ◌&&◌,
  Option, none, some, List, [], ◌∷◌, ◌++◌, map, any, select, length, ltb, leb, ◌==◌, if◌then◌else◌,
}
use agentic_learning_platfor.Chunker.Clean.{approx_token_len}

pub record Chunk : Type 0 where
  pub document_id : ℕ
  pub chunk_index : ℕ
  pub content : Text

-- by_index.get(index): of two chunks with an index the later one counts.
abbrev pub either : Option Text → Option Text → Option Text
either (some later) earlier = some later
either none earlier = earlier

unfoldable pub by_index : List Chunk → ℕ → Option Text
by_index [] index = none
by_index (chunk ∷ chunks) index =
    either (by_index chunks index) (if chunk.chunk_index == index then some chunk.content else none)

-- min(by_index) and max(by_index), of chunks that follow one.
unfoldable pub lowest : ℕ → List Chunk → ℕ
lowest low [] = low
lowest low (chunk ∷ chunks) = lowest (min low chunk.chunk_index) chunks

unfoldable pub highest : ℕ → List Chunk → ℕ
highest high [] = high
highest high (chunk ∷ chunks) = highest (max high chunk.chunk_index) chunks

-- The loop's variables: left is center - 1 - leftward, and right center + 1 + rightward.
pub record Search : Type 0 where
  pub leftward : ℕ
  pub rightward : ℕ
  pub take_left : Bool
  pub selected : List ℕ
  pub used : ℕ

abbrev pub moved : Search → Search
moved s = record s {
  leftward = if s.take_left then s.leftward + 1 else s.leftward;
  rightward = if s.take_left then s.rightward else s.rightward + 1;
  take_left = not s.take_left;
}

-- selected.sort()
unfoldable pub insert_index : ℕ → List ℕ → List ℕ
insert_index i [] = i ∷ []
insert_index i (j ∷ js) = let rest = insert_index i js in if leb i j then i ∷ j ∷ js else j ∷ rest

unfoldable pub sort_indexes : List ℕ → List ℕ
unfolding insert_index
sort_indexes [] = []
sort_indexes (i ∷ is) = insert_index i (sort_indexes is)

abbrev pub or_blank : Option Text → Text
or_blank none = []
or_blank (some content) = content

abbrev pub content_of : List Chunk → ℕ → Text
content_of chunks index = or_blank (by_index chunks index)

module _ (u : Unicode) (chunks : List Chunk) (low high center max_tokens : ℕ) where
  -- The index of this round.
  abbrev pub index_of : Search → Option ℕ
  index_of s =
      if s.take_left
      then (if leb (s.leftward + 1) center then some (center - (s.leftward + 1)) else none)
      else some (center + 1 + s.rightward)

  unfoldable pub chunk_at : Option ℕ → Option Text
  unfolding by_index
  chunk_at none = none
  chunk_at (some index) = by_index chunks index

  -- left < min(by_index) and right > max(by_index)
  abbrev pub is_past : Search → Bool
  is_past s = ltb center (low + s.leftward + 1) && ltb high (center + 1 + s.rightward)

  abbrev pub index_or : Option ℕ → ℕ
  index_or none = 0
  index_or (some index) = index

  -- The rest of a round with a chunk, and of one without; `next` is the loop from there on.
  unfoldable pub with_chunk : (Search → Option Search) → Search → Option Text → Option Search
  with_chunk next s none = let rest = next (moved s) in if is_past s then some s else rest
  with_chunk next s (some content) =
      let used = s.used + approx_token_len u content in
      let rest =
        next
          (record (moved s) { selected = s.selected ++ index_or (index_of s) ∷ []; used = used }) in
      if ltb max_tokens used then some s else rest

  unfoldable pub expand : ℕ → Search → Option Search
  unfolding with_chunk chunk_at
  expand zero s = none
  expand (suc fuel) s = with_chunk (expand fuel) s (chunk_at (index_of s))

abbrev pub blank_line : Text
blank_line = 10 ∷ 10 ∷ []

module _ (u : Unicode) where
  abbrev pub rendered : List Chunk → Option Search → Option Text
  rendered chunks none = none
  rendered chunks (some s) =
      some (joined blank_line (map (content_of chunks) (sort_indexes s.selected)))

  abbrev pub started : ℕ → Text → Search
  started center content = record {
    leftward = 0;
    rightward = 0;
    take_left = true;
    selected = center ∷ [];
    used = approx_token_len u content;
  }

  unfoldable pub expanded : ℕ → ℕ → List Chunk → Text → Option Search
  unfolding expand lowest highest
  expanded center max_tokens chunks content =
      let low = lowest center chunks in
      let high = highest center chunks in
      expand u chunks low high center max_tokens (2 * ((center - low) + (high - center)) + 2)
        (started center content)

  abbrev pub joined_from : ℕ → ℕ → List Chunk → Option Text → Option Text
  joined_from center max_tokens chunks none = some []
  joined_from center max_tokens chunks (some content) =
      rendered chunks (expanded center max_tokens chunks content)

  unfoldable pub joined_with_budget : ℕ → List Chunk → ℕ → Option Text
  unfolding expanded by_index sort_indexes joined
  joined_with_budget center chunks max_tokens =
      joined_from center max_tokens chunks (by_index chunks center)
