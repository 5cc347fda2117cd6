-- ===== src/Retrieval/Attach.antt =====
-- The parent contexts of the results of a search (rag/parent_context.py, `attach_parent_contexts`).
-- The query reads a list of chunks, which is in the order of documents and indexes. The ids of a
-- result are those that _as_int gives; `parent_content` is none where the key is missing.
pub mod Laws
use agentic_learning_platfor.Base.{
  ℕ, ◌+◌, ◌-◌, max, Text, Unicode, Bool, true, false, ◌&&◌, Option, none, some, List, [], ◌∷◌, ◌++◌,
  map, any, select, leb, ◌==◌, if◌then◌else◌,
}
use agentic_learning_platfor.Retrieval.Parents.{Chunk, lowest, highest, joined_with_budget}

pub record Found : Type 0 where
  pub document_id : Option ℕ
  pub chunk_index : Option ℕ
  pub parent_content : Option Text

-- hits_by_doc[document_id].append(chunk_index), where the indexes are not empty.
pub record Hits : Type 0 where
  pub document_id : ℕ
  pub first : ℕ
  pub others : List ℕ

unfoldable pub add_hit : ℕ → ℕ → List Hits → List Hits
add_hit document index [] = record { document_id = document; first = index; others = [] } ∷ []
add_hit document index (h ∷ hits) =
    let rest = add_hit document index hits in
    if h.document_id == document
    then record h { others = h.others ++ index ∷ [] } ∷ hits
    else h ∷ rest

abbrev pub add_found : Option ℕ → Option ℕ → List Hits → List Hits
add_found (some document) (some index) hits = add_hit document index hits
add_found (some document) none hits = hits
add_found none index hits = hits

unfoldable pub hits_of : List Found → List Hits → List Hits
unfolding add_hit
hits_of [] hits = hits
hits_of (r ∷ results) hits = hits_of results (add_found r.document_id r.chunk_index hits)

abbrev least : ℕ → List ℕ → ℕ
least low [] = low
least low (i ∷ is) = least (if leb low i then low else i) is

abbrev greatest : ℕ → List ℕ → ℕ
greatest high [] = high
greatest high (i ∷ is) = greatest (max high i) is

-- One of the query's conditions, for a chunk.
unfoldable pub is_near : ℕ → Chunk → Hits → Bool
is_near radius chunk h =
    h.document_id == chunk.document_id
    && leb (least h.first h.others - radius) chunk.chunk_index
    && leb chunk.chunk_index (greatest h.first h.others + radius)

unfoldable pub rows_of : ℕ → List Hits → List Chunk → List Chunk
unfolding is_near
rows_of radius hits chunks = select (λ chunk. any (is_near radius chunk) hits) chunks

-- `if parent:`
abbrev pub with_parent : Option Text → Found → Found
with_parent none r = r
with_parent (some []) r = r
with_parent (some (c ∷ parent)) r = record r { parent_content = some (c ∷ parent) }

-- chunks_by_doc.get(document_id, [])
abbrev pub chunks_of : ℕ → List Chunk → List Chunk
chunks_of document rows = select (λ (chunk : Chunk). chunk.document_id == document) rows

unfoldable pub parent_of : Unicode → ℕ → List Chunk → Option ℕ → Option ℕ → Option Text
unfolding joined_with_budget
parent_of u max_tokens rows (some document) (some index) =
    joined_with_budget u index (chunks_of document rows) (max 1 max_tokens)
parent_of u max_tokens rows (some document) none = some []
parent_of u max_tokens rows none index = some []

abbrev pub attached : Unicode → ℕ → List Chunk → List Found → List Found
attached u max_tokens rows results =
    map (λ (r : Found). with_parent (parent_of u max_tokens rows r.document_id r.chunk_index) r)
      results

abbrev pub attached_to : Unicode → ℕ → ℕ → List Chunk → List Found → List Hits → List Found
attached_to u radius max_tokens chunks results [] = results
attached_to u radius max_tokens chunks results (h ∷ hits) =
    attached u max_tokens (rows_of radius (h ∷ hits) chunks) results

unfoldable pub attach_parent_contexts : Unicode → ℕ → ℕ → List Chunk → List Found → List Found
unfolding hits_of rows_of parent_of
attach_parent_contexts u radius max_tokens chunks results =
    attached_to u radius max_tokens chunks results (hits_of results [])
