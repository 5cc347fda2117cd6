-- ===== src/Retrieval/Parents/Budget.antt =====
-- The chunks around a center keep to the budget.
use agentic_learning_platfor.Base.{
  ℕ, zero, suc, ◌+◌, ◌≤◌, max, Text, Unicode, ◌≡◌, inl, inr, refl, ap, subst, false, Option, none,
  some, List, [], ◌∷◌, ◌++◌, map, arith, ltb, Bool-cases, some_inj,
}
use agentic_learning_platfor.TokenBudget.{sum}
use agentic_learning_platfor.Chunker.Clean.{approx_token_len}
use agentic_learning_platfor.Retrieval.Parents.{
  Chunk, by_index, lowest, highest, Search, moved, index_of, index_or, chunk_at, is_past,
  with_chunk, expand, expanded, content_of, or_blank,
}

module _ (u : Unicode) (chunks : List Chunk) where
  -- The tokens of the chunks at some indexes.
  abbrev pub tokens_at : List ℕ → ℕ
  tokens_at indexes = sum (map (λ i. approx_token_len u (content_of chunks i)) indexes)

  tokens_at-snoc :
      (indexes : List ℕ) (i : ℕ)
      → tokens_at (indexes ++ i ∷ []) ≡ tokens_at indexes + approx_token_len u (content_of chunks i)
  tokens_at-snoc [] i = omega arith
  tokens_at-snoc (j ∷ indexes) i = omega (arith, tokens_at-snoc indexes i)

  -- The center comes first among the chunks that are selected, the tokens that are counted are
  -- theirs, and these are within the budget unless the center alone is over it.
  pub record IsWithin (center max_tokens : ℕ) (s : Search) : Type 0 where
    pub others : List ℕ
    pub center_first : s.selected ≡ center ∷ others
    pub counted : s.used ≡ tokens_at s.selected
    pub within : s.used ≤ max max_tokens (approx_token_len u (content_of chunks center))

  module _ (low high center max_tokens : ℕ) where
    added :
        (s : Search) (i : ℕ) (content : Text)
        → IsWithin center max_tokens s
        → content_of chunks i ≡ content
        → s.used + approx_token_len u content ≤ max_tokens
        → IsWithin center max_tokens (record (moved s) {
          selected = s.selected ++ i ∷ [];
          used = s.used + approx_token_len u content;
        })
    added s i content w e le = record {
      others = w.others ++ i ∷ [];
      center_first = ap (λ l. l ++ i ∷ []) w.center_first;
      counted = omega (arith, w.counted, tokens_at-snoc s.selected i, ap (approx_token_len u) e);
      within = omega (arith, le);
    }

    chunk_at-content :
        (o : Option ℕ) (content : Text)
        → chunk_at u chunks low high center max_tokens o ≡ some content
        → content_of chunks (index_or u chunks low high center max_tokens o) ≡ content
    unfolding chunk_at
    chunk_at-content none content h = absurd (ground arith)
    chunk_at-content (some index) content h = ap or_blank h

    abbrev Within : Option Search → Type 0
    Within q = (t : Search) → q ≡ some t → IsWithin center max_tokens t

    with_chunk-Within :
        (next : Search → Option Search) (s : Search) (o : Option Text)
        → ((content : Text)
            → o ≡ some content
            → content_of chunks (
                index_or u chunks low high center max_tokens
                  (index_of u chunks low high center max_tokens s))
              ≡ content)
        → ((t : Search) → IsWithin center max_tokens t → Within (next t))
        → IsWithin center max_tokens s
        → Within (with_chunk u chunks low high center max_tokens next s o)
    unfolding with_chunk
    with_chunk-Within next s none found rest w =
        elim (Bool-cases (is_past u chunks low high center max_tokens s)) [
          | inl e ↦ rw e (λ t h. subst (IsWithin center max_tokens) (some_inj h) w)
          | inr e ↦ rw e (
              rest (moved s) (record {
                others = w.others;
                center_first = w.center_first;
                counted = w.counted;
                within = w.within;
              }))
        ]
    with_chunk-Within next s (some content) found rest w =
        elim (Bool-cases (ltb max_tokens (s.used + approx_token_len u content))) [
          | inl e ↦ rw e (λ t h. subst (IsWithin center max_tokens) (some_inj h) w)
          | inr e ↦ rw e (rest _ (added s _ content w (found content refl) (within_of e)))
        ]
      where
        within_of :
            ltb max_tokens (s.used + approx_token_len u content) ≡ false
            → s.used + approx_token_len u content ≤ max_tokens
        within_of e = ground arith

    expand-Within :
        (fuel : ℕ) (s : Search)
        → IsWithin center max_tokens s
        → Within (expand u chunks low high center max_tokens fuel s)
    unfolding expand
    expand-Within zero s w = λ t h. absurd (ground arith)
    expand-Within (suc fuel) s w =
        with_chunk-Within _ s _ (chunk_at-content (index_of u chunks low high center max_tokens s))
          (expand-Within fuel) w

  -- Whatever chunks there are around the center, the search selects it first and then others, it
  -- counts their tokens, and these are within the budget unless the center alone is over it.
  pub expanded-IsWithin :
      (center max_tokens : ℕ) (content : Text) (s : Search)
      → by_index chunks center ≡ some content
      → expanded u center max_tokens chunks content ≡ some s
      → IsWithin center max_tokens s
  unfolding expanded
  expanded-IsWithin center max_tokens content s e h =
      expand-Within (lowest center chunks) (highest center chunks) center max_tokens _ _
        (record {
          others = [];
          center_first = refl;
          counted = omega (arith, ap (approx_token_len u) (ap or_blank e));
          within = omega (arith, ap (approx_token_len u) (ap or_blank e));
        })
        s h
