-- ===== src/Retrieval/Attach/Laws.antt =====
-- Which chunks the query reads for a result: its own and its neighbours, of its own document.
use agentic_learning_platfor.Base.{
  ℕ, ◌+◌, ◌≤◌, max, ◌≡◌, ◌⊎◌, inl, inr, refl, Bool, true, ◌&&◌, ◌||◌, Option, none, some, List, [],
  ◌∷◌, ◌++◌, any, select, arith, leb, ◌==◌, if◌then◌else◌, Bool-cases,
}
use agentic_learning_platfor.Retrieval.Parents.{Chunk}
use agentic_learning_platfor.Retrieval.Attach.{
  Found, Hits, add_hit, add_found, hits_of, least, greatest, is_near, rows_of,
}

-- The hits hold an index of a document.
abbrev pub has_index : ℕ → ℕ → Hits → Bool
has_index document index h =
    h.document_id == document && (h.first == index || any (λ i. i == index) h.others)

any-snoc :
    (index x : ℕ) (is : List ℕ)
    → any (λ i. i == index) (is ++ x ∷ []) ≡ (any (λ i. i == index) is || (x == index))
any-snoc index x [] = ground arith
any-snoc index x (i ∷ is) = ground (arith, any-snoc index x is)

add_hit_self :
    (document index : ℕ) (hits : List Hits)
    → any (has_index document index) (add_hit document index hits) ≡ true
unfolding add_hit
add_hit_self document index [] = ground arith
add_hit_self document index (h ∷ hits) =
    ground (arith, any-snoc index index h.others, add_hit_self document index hits)

add_hit-kept :
    (document index d x : ℕ) (hits : List Hits)
    → any (has_index document index) hits ≡ true
    → any (has_index document index) (add_hit d x hits) ≡ true
unfolding add_hit
add_hit-kept document index d x [] h = absurd (ground arith)
add_hit-kept document index d x (hit ∷ hits) h =
    ground (arith, any-snoc index x hit.others, add_hit-kept document index d x hits)

least-le : (low : ℕ) (is : List ℕ) → least low is ≤ low
least-le low [] = omega arith
least-le low (i ∷ is) = ground (arith, least-le (if leb low i then low else i) is)

least-any : (low index : ℕ) (is : List ℕ) → any (λ i. i == index) is ≡ true → least low is ≤ index
least-any low index [] h = absurd (ground arith)
least-any low index (i ∷ is) h = ground (
  arith,
  least-le (if leb low i then low else i) is,
  least-any (if leb low i then low else i) index is,
)

greatest-ge : (high : ℕ) (is : List ℕ) → high ≤ greatest high is
greatest-ge high [] = omega arith
greatest-ge high (i ∷ is) = omega (arith, greatest-ge (max high i) is)

greatest-any :
    (high index : ℕ) (is : List ℕ) → any (λ i. i == index) is ≡ true → index ≤ greatest high is
greatest-any high index [] h = absurd (ground arith)
greatest-any high index (i ∷ is) h =
    ground (arith, greatest-ge (max high i) is, greatest-any (max high i) index is)

is_near-index :
    (radius index : ℕ) (chunk : Chunk) (h : Hits)
    → has_index chunk.document_id index h ≡ true
    → index ≤ chunk.chunk_index + radius
    → chunk.chunk_index ≤ index + radius
    → is_near radius chunk h ≡ true
unfolding is_near
is_near-index radius index chunk h has le ge = ground (
  arith,
  least-le h.first h.others,
  least-any h.first index h.others,
  greatest-ge h.first h.others,
  greatest-any h.first index h.others,
)

is_near-any :
    (radius index : ℕ) (chunk : Chunk) (hits : List Hits)
    → any (has_index chunk.document_id index) hits ≡ true
    → index ≤ chunk.chunk_index + radius
    → chunk.chunk_index ≤ index + radius
    → any (is_near radius chunk) hits ≡ true
is_near-any radius index chunk [] has le ge = absurd (ground arith)
is_near-any radius index chunk (h ∷ hits) has le ge =
    ground (arith, is_near-index radius index chunk h, is_near-any radius index chunk hits)

add_found-kept :
    (document index : ℕ) (d x : Option ℕ) (hits : List Hits)
    → any (has_index document index) hits ≡ true
    → any (has_index document index) (add_found d x hits) ≡ true
add_found-kept document index (some d) (some x) hits h = add_hit-kept document index d x hits h
add_found-kept document index (some d) none hits h = h
add_found-kept document index none x hits h = h

hits_of-kept :
    (document index : ℕ) (results : List Found) (hits : List Hits)
    → any (has_index document index) hits ≡ true
    → any (has_index document index) (hits_of results hits) ≡ true
unfolding hits_of
hits_of-kept document index [] hits h = h
hits_of-kept document index (r ∷ results) hits h =
    hits_of-kept document index results _
      (add_found-kept document index r.document_id r.chunk_index hits h)

-- A result of the search that names a document and an index.
abbrev pub Names : ℕ → ℕ → List Found → Type 0
Names document index [] = ⊥
Names document index (r ∷ results) =
    ((r.document_id ≡ some document) × (r.chunk_index ≡ some index)) ⊎ Names document index results

hits_of-Names :
    (document index : ℕ) (results : List Found) (hits : List Hits)
    → Names document index results
    → any (has_index document index) (hits_of results hits) ≡ true
unfolding hits_of
hits_of-Names document index [] hits n = absurd n
hits_of-Names document index (r ∷ results) hits (inl (d, i)) =
    rw (d, i)
      (hits_of-kept document index results (add_hit document index hits)
        (add_hit_self document index hits))
hits_of-Names document index (r ∷ results) hits (inr n) = hits_of-Names document index results _ n

select-In :
    (p : Chunk → Bool) (before after : List Chunk) (chunk : Chunk)
    → p chunk ≡ true
    → (b a : List Chunk) × (select p (before ++ chunk ∷ after) ≡ b ++ chunk ∷ a)
select-In p [] after chunk h = ([], select p after, rw h refl)
select-In p (x ∷ before) after chunk h =
    let rest = select-In p before after chunk h in
    elim (Bool-cases (p x)) [
      | inl e ↦ (x ∷ rest.0, rest.1, rw (e, rest.2) refl)
      | inr e ↦ (rest.0, rest.1, rw (e, rest.2) refl)
    ]

-- For a result that names a document and an index, the query reads every stored chunk of that
-- document whose index is at most the radius away, whatever the other results name.
pub rows_of-Names :
    (radius index : ℕ) (results : List Found) (before after : List Chunk) (chunk : Chunk)
    → Names chunk.document_id index results
    → index ≤ chunk.chunk_index + radius
    → chunk.chunk_index ≤ index + radius
    → (b a : List Chunk) × (rows_of radius (hits_of results []) (before ++ chunk ∷ after)
        ≡ b ++ chunk ∷ a)
unfolding rows_of
rows_of-Names radius index results before after chunk n le ge =
    select-In (λ x. any (is_near radius x) (hits_of results [])) before after chunk
      (is_near-any radius index chunk (hits_of results [])
        (hits_of-Names chunk.document_id index results [] n) le ge)
