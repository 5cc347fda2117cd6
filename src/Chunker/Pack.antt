-- ===== src/Chunker/Pack.antt =====
-- The greedy loop that `chunk_text` and `_chunk_markdown_blocks` (chunker.py) share: items go into a
-- chunk until the next one would be over the size; the newest items of a full chunk, up to the overlap,
-- begin the next one. `join` is how a chunk's items become its text.
pub mod Pieces
pub mod Laws
pub mod Overlap
use agentic_learning_platfor.Base.{
  ℕ, ◌+◌, max, Bool, true, false, not, ◌&&◌, List, [], ◌∷◌, ◌++◌, reverse, ltb, if◌then◌else◌,
}

abbrev pub is_nil {ℓ} : {A : Type ℓ} → List A → Bool
is_nil [] = true
is_nil (x ∷ xs) = false

-- chunks[-1] == final, false where there is no chunk
abbrev pub last_is {ℓ} : {A : Type ℓ} → (A → A → Bool) → List A → A → Bool
last_is same [] final = false
last_is same (c ∷ []) final = same c final
last_is same (c ∷ d ∷ chunks) final = last_is same (d ∷ chunks) final

abbrev pub tokens_of : {A : Type 0} → (A → ℕ) → A → ℕ
tokens_of count x = max 1 (count x)

module _ {A : Type 0} (count : A → ℕ) (size overlap : ℕ) where
  -- The loop over reversed(current).
  unfoldable pub keep : List A → List A → ℕ → List A × ℕ
  keep [] kept used = (kept, used)
  keep (previous ∷ older) kept used =
      let rest = keep older (previous ∷ kept) (used + tokens_of count previous) in
      if ltb overlap (used + tokens_of count previous) then (kept, used) else rest

  -- What a full chunk hands to the next one, which begins with x.
  unfoldable pub carried : A → List A → List A × ℕ
  unfolding keep
  carried x current =
      let (kept, used) = keep (reverse current) [] 0 in
      if not (is_nil kept) && ltb size (used + tokens_of count x) then ([], 0) else (kept, used)

  abbrev pub is_full : A → List A → ℕ → Bool
  is_full x current tokens = not (is_nil current) && ltb size (tokens + tokens_of count x)

module _ {A C : Type 0} (count : A → ℕ) (size overlap : ℕ) (join : List A → C) where
  -- The chunks that are closed, and the current one.
  unfoldable pub pack : List A → List C → List A → ℕ → List C × List A
  unfolding carried
  pack [] chunks current tokens = (chunks, current)
  pack (x ∷ xs) chunks current tokens =
      let full = is_full count size overlap x current tokens in
      let (kept, used) = carried count size overlap x current in
      pack xs (if full then chunks ++ join current ∷ [] else chunks)
        ((if full then kept else current) ++ x ∷ [])
        ((if full then used else tokens) + tokens_of count x)

  -- The last chunk is left out where it reads as the one before it.
  unfoldable pub close : (C → C → Bool) → List C → List A → List C
  close same chunks current =
      if is_nil current
      then chunks
      else if last_is same chunks (join current)
      then chunks
      else chunks ++ join current ∷ []

  unfoldable pub chunk_items : (C → C → Bool) → List A → List C
  unfolding pack close
  chunk_items same items = let (chunks, current) = pack items [] [] 0 in close same chunks current
