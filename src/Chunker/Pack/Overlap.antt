-- ===== src/Chunker/Pack/Overlap.antt =====
-- The overlap of the chunks of `pack`, and what `chunk_items` returns.
use agentic_learning_platfor.Base.{
  ℕ, ◌≤◌, ◌≡◌, refl, subst, ◌⊎◌, inl, inr, Bool, true, List, [], ◌∷◌, ◌++◌, map, All, arith,
  Bool-cases,
}
use agentic_learning_platfor.Chunker.Pack.{
  is_nil, last_is, carried, is_full, pack, close, chunk_items,
}
use agentic_learning_platfor.Chunker.Pack.Pieces.{
  Piece, group, concat_new, total, carried-IsTail, pieces,
}
use agentic_learning_platfor.Chunker.Pack.Laws.{
  with_current, pack-pieces, concat_new-pieces, Sized, pieces-Sized,
}

module _ {A : Type 0} (count : A → ℕ) (overlap : ℕ) where
  -- What a piece takes over ends the chunk before it, and is within the overlap.
  abbrev pub Overlaps : List A → Piece A → Type 0
  Overlaps before p =
      ((older : List A) × (before ≡ older ++ p.carry)) × (total count p.carry ≤ overlap)

  abbrev pub Linked : List A → List (Piece A) → Type 0
  Linked before [] = Unit
  Linked before (p ∷ ps) = Overlaps before p × Linked (group p) ps

module _ {A : Type 0} (count : A → ℕ) (size overlap : ℕ) where
  pieces-Linked :
      (xs before carry new : List A) (tokens : ℕ)
      → Overlaps count overlap before (record { carry = carry; new = new })
      → Linked count overlap before (pieces count size overlap xs carry new tokens)
  unfolding pieces
  pieces-Linked [] before carry new tokens h = elim (Bool-cases (is_nil (carry ++ new))) [
    | inl e ↦ rw e tt
    | inr e ↦ rw e (h, tt)
  ]
  pieces-Linked (x ∷ xs) before carry new tokens h =
      let kept = (carried count size overlap x (carry ++ new)).0 in
      let used = (carried count size overlap x (carry ++ new)).1 in
      let tail = carried-IsTail count size overlap x (carry ++ new) in
      elim (Bool-cases (is_full count size overlap x (carry ++ new) tokens)) [
        | inl e ↦ rw e (
          h,
          pieces-Linked xs (carry ++ new) kept (x ∷ []) _
              ((tail.older, tail.split), omega (arith, tail.counted, tail.within)),
        )
        | inr e ↦ rw e (pieces-Linked xs before carry (new ++ x ∷ []) _ h)
      ]

  module _ {C : Type 0} (join : List A → C) (same : C → C → Bool) where
    -- All the chunks, or all but a last one that reads as the one before it.
    abbrev pub AllButRepeated : List C → List C → Type 0
    AllButRepeated whole chunks =
        (chunks ≡ whole) ⊎ ((c : C) × ((whole ≡ chunks ++ c ∷ []) × (last_is same chunks c ≡ true)))

    pub record Packed (items : List A) (chunks : List C) : Type 0 where
      pub parts : List (Piece A)
      pub whole : AllButRepeated (map (λ p. join (group p)) parts) chunks
      pub complete : concat_new parts ≡ items
      pub sized : All (Sized count size overlap) parts
      pub linked : Linked count overlap [] parts

    close-AllButRepeated :
        (chunks : List C) (current : List A)
        → AllButRepeated
            (with_current join chunks current)
            (close count size overlap join same chunks current)
    unfolding close
    close-AllButRepeated chunks current = elim (Bool-cases (is_nil current)) [
      | inl e ↦ rw e (inl refl)
      | inr e ↦ elim (Bool-cases (last_is same chunks (join current))) [
        | inl l ↦ rw (e, l) (inr (join current, (refl, l)))
        | inr l ↦ rw (e, l) (inl refl)
      ]
    ]

    -- The chunks of a list of items: what is new in each, put together, are the items in order and each
    -- once; a chunk is within the size unless it is one item alone; and what a chunk repeats of the
    -- one before it is the end of that one and within the overlap. Only a last chunk that reads as the
    -- one before it is left out.
    pub chunk_items-Packed :
        (items : List A) → Packed items (chunk_items count size overlap join same items)
    unfolding chunk_items
    chunk_items-Packed items = record {
      parts = pieces count size overlap items [] [] 0;
      whole =
          subst (λ l. AllButRepeated l (chunk_items count size overlap join same items))
            (pack-pieces count size overlap join items [] [] [] 0)
            (close-AllButRepeated (pack count size overlap join items [] [] 0).0
              (pack count size overlap join items [] [] 0).1);
      complete = concat_new-pieces count size overlap items [] [] 0;
      sized = pieces-Sized count size overlap items [] [] 0 refl (λ h. cc);
      linked = pieces-Linked items [] [] [] 0 (([], refl), omega arith);
    }
