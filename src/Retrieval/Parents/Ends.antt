-- ===== src/Retrieval/Parents/Ends.antt =====
-- The search for neighbours ends: it has fuel enough.
use agentic_learning_platfor.Base.{
  ℕ, zero, suc, ◌+◌, ◌-◌, ◌*◌, ◌≤◌, ◌<◌, min, max, Text, Unicode, ◌≡◌, inl, inr, refl, Bool, true,
  false, not, Option, none, some, List, [], ◌∷◌, arith, ltb, ◌==◌, if◌then◌else◌, Bool-cases,
  Option-cases,
}
use agentic_learning_platfor.Chunker.Clean.{approx_token_len}
use agentic_learning_platfor.Retrieval.Parents.{
  Chunk, by_index, lowest, highest, Search, moved, index_of, chunk_at, is_past, with_chunk, expand,
  expanded, joined_with_budget,
}

lowest-le : (low : ℕ) (chunks : List Chunk) → lowest low chunks ≤ low
unfolding lowest
lowest-le low [] = omega arith
lowest-le low (chunk ∷ chunks) = omega (arith, lowest-le (min low chunk.chunk_index) chunks)

highest-ge : (high : ℕ) (chunks : List Chunk) → high ≤ highest high chunks
unfolding highest
highest-ge high [] = omega arith
highest-ge high (chunk ∷ chunks) = omega (arith, highest-ge (max high chunk.chunk_index) chunks)

-- A chunk that is found has an index within the bounds.
by_index-bounds :
    (chunks : List Chunk) (index low high : ℕ) (content : Text)
    → by_index chunks index ≡ some content
    → (lowest low chunks ≤ index) × (index ≤ highest high chunks)
unfolding by_index lowest highest
by_index-bounds [] index low high content e = absurd (ground arith)
by_index-bounds (chunk ∷ chunks) index low high content e =
    elim (Option-cases (by_index chunks index)) [
      | inl none_later ↦
          let lows = lowest-le (min low chunk.chunk_index) chunks in
          let highs = highest-ge (max high chunk.chunk_index) chunks in
          let same = here none_later in (omega (arith, lows, same), omega (arith, highs, same))
      | inr (later, found) ↦ by_index-bounds chunks index _ _ later found
    ]
  where
    here : by_index chunks index ≡ none → chunk.chunk_index ≡ index
    here h = ground (arith, e)

-- The rounds that are left, with the turn to the left or to the right.
abbrev rounds : Bool → ℕ → ℕ → ℕ
rounds true a b = 2 * (a + b) + 1 + (if a == 0 then 1 else 0)
rounds false a b = 2 * (a + b) + 1 + (if b == 0 then 1 else 0)

rounds-moved :
    (take_left : Bool) (a b i j fuel : ℕ)
    → rounds take_left (a - i) (b - j) ≤ suc fuel
    → 0 < (a - i) + (b - j)
    → rounds
        (not take_left)
        (a - (if take_left then i + 1 else i))
        (b - (if take_left then j else j + 1))
      ≤ fuel
rounds-moved true a b i j fuel h left = ground arith
rounds-moved false a b i j fuel h left = ground arith

module _ (u : Unicode) (chunks : List Chunk) (low high center max_tokens : ℕ) (below : low ≤ center)
    (above : center ≤ high)
    (bounds : (index : ℕ) (content : Text)
      → by_index chunks index ≡ some content
      → (low ≤ index) × (index ≤ high)) where
  abbrev HasFuel : ℕ → Search → Type 0
  HasFuel fuel s =
      rounds s.take_left (center - low - s.leftward) (high - center - s.rightward) ≤ fuel

  abbrev left_over : Search → ℕ
  left_over s = (center - low - s.leftward) + (high - center - s.rightward)

  -- A search that is not past both ends, or finds a chunk, has an index left.
  left_over-past :
      (s : Search) → is_past u chunks low high center max_tokens s ≡ false → 0 < left_over s
  left_over-past s h = ground arith

  chunk_at-bounds :
      (o : Option ℕ) (content : Text)
      → chunk_at u chunks low high center max_tokens o ≡ some content
      → (index : ℕ) × (o ≡ some index) × (low ≤ index) × (index ≤ high)
  unfolding chunk_at
  chunk_at-bounds none content h = absurd (ground arith)
  chunk_at-bounds (some index) content h = let b = bounds index content h in (index, refl, b.0, b.1)

  left_over-index :
      (s : Search) (index : ℕ)
      → index_of u chunks low high center max_tokens s ≡ some index
      → low ≤ index
      → index ≤ high
      → 0 < left_over s
  left_over-index s index e l h = elim (Bool-cases s.take_left) [
    | inl left ↦ ground arith
    | inr right ↦ ground arith
  ]

  left_over-found :
      (s : Search) (content : Text)
      → chunk_at u chunks low high center max_tokens
          (index_of u chunks low high center max_tokens s)
        ≡ some content
      → 0 < left_over s
  left_over-found s content h =
      let b = chunk_at-bounds _ content h in left_over-index s b.0 b.1 b.2 b.3

  moved-HasFuel :
      (fuel : ℕ) (s : Search) → HasFuel (suc fuel) s → 0 < left_over s → HasFuel fuel (moved s)
  moved-HasFuel fuel s h left =
      rounds-moved s.take_left (center - low) (high - center) s.leftward s.rightward fuel h left

  with_chunk-some :
      (fuel : ℕ) (next : Search → Option Search) (s : Search) (o : Option Text)
      → ((content : Text) → o ≡ some content → 0 < left_over s)
      → ((t : Search) → HasFuel fuel t → (v : Search) × (next t ≡ some v))
      → HasFuel (suc fuel) s
      → (v : Search) × (with_chunk u chunks low high center max_tokens next s o ≡ some v)
  unfolding with_chunk
  with_chunk-some fuel next s none found rest h =
      elim (Bool-cases (is_past u chunks low high center max_tokens s)) [
        | inl e ↦ rw e (s, refl)
        | inr e ↦ rw e (rest (moved s) (moved-HasFuel fuel s h (left_over-past s e)))
      ]
  with_chunk-some fuel next s (some content) found rest h =
      elim (Bool-cases (ltb max_tokens (s.used + approx_token_len u content))) [
        | inl e ↦ rw e (s, refl)
        | inr e ↦ rw e (rest _ (moved-HasFuel fuel s h (found content refl)))
      ]

  no_fuel : (turn : Bool) (a b : ℕ) → rounds turn a b ≤ 0 → ⊥
  no_fuel true a b h = ground arith
  no_fuel false a b h = ground arith

  expand-some :
      (fuel : ℕ) (s : Search)
      → HasFuel fuel s
      → (t : Search) × (expand u chunks low high center max_tokens fuel s ≡ some t)
  unfolding expand
  expand-some zero s h = absurd (no_fuel s.take_left _ _ h)
  expand-some (suc fuel) s h = with_chunk-some fuel _ s _ (left_over-found s) (expand-some fuel) h

-- For any chunks, and a center that is among them, the search for neighbours ends within the fuel
-- that it is given.
pub expanded-some :
    (u : Unicode) (center max_tokens : ℕ) (chunks : List Chunk) (content : Text)
    → (s : Search) × (expanded u center max_tokens chunks content ≡ some s)
unfolding expanded
expanded-some u center max_tokens chunks content =
    let low = lowest center chunks in
    let high = highest center chunks in
    expand-some u chunks low high center max_tokens (lowest-le center chunks)
      (highest-ge center chunks) (λ index text e. by_index-bounds chunks index center center text e)
      _ _ (start_fuel (center - low) (high - center))
  where
    start_fuel : (a b : ℕ) → rounds true (a - 0) (b - 0) ≤ 2 * (a + b) + 2
    start_fuel a b = ground arith

-- For every center, chunks and budget the context of a chunk is computed: the loop ends.
pub joined_with_budget-some :
    (u : Unicode) (center max_tokens : ℕ) (chunks : List Chunk)
    → (text : Text) × (joined_with_budget u center chunks max_tokens ≡ some text)
unfolding joined_with_budget
joined_with_budget-some u center max_tokens chunks = elim (Option-cases (by_index chunks center)) [
  | inl e ↦ rw e ([], refl)
  | inr (content, e) ↦
      let s = expanded-some u center max_tokens chunks content in rw (e, s.1) (_, refl)
]
