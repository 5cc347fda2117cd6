-- ===== src/Chunker/Pack/Laws.antt =====
-- What the chunks of `pack` are, piece by piece.
use agentic_learning_platfor.Base.{
  ℕ, ◌+◌, ◌≤◌, ◌≡◌, refl, sym, ap, subst, ◌∙◌, ◌⊎◌, inl, inr, true, false, List, [], ◌∷◌, ◌++◌, map,
  append_assoc, append-nil, All, arith, Bool-cases, if◌then◌else◌,
}
use agentic_learning_platfor.Chunker.Pack.{is_nil, tokens_of, carried, is_full, pack}
use agentic_learning_platfor.Chunker.Pack.Pieces.{
  Piece, group, concat_new, total, total-append, carried-IsTail, carried_fits, pieces,
}

-- The list of the closed chunks, and of the current one if it has an item.
abbrev pub with_current : {A C : Type 0} → (List A → C) → List C → List A → List C
with_current join chunks current = if is_nil current then chunks else chunks ++ join current ∷ []

nil_of_append : {A : Type 0} (xs ys : List A) → is_nil (xs ++ ys) ≡ true → ys ≡ []
nil_of_append [] [] h = refl
nil_of_append [] (y ∷ ys) h = cc
nil_of_append (x ∷ xs) ys h = cc

nil_of_append_left : {A : Type 0} (xs ys : List A) → is_nil (xs ++ ys) ≡ true → xs ≡ []
nil_of_append_left [] ys h = refl
nil_of_append_left (x ∷ xs) ys h = cc

module _ {A : Type 0} (count : A → ℕ) (size overlap : ℕ) where
  module _ (x : A) (xs : List A) where
    pack-full :
        {C : Type 0} (join : List A → C) (chunks : List C) (current : List A) (tokens : ℕ)
        → is_full count size overlap x current tokens ≡ true
        → pack count size overlap join (x ∷ xs) chunks current tokens
          ≡ pack count size overlap join xs
              (chunks ++ join current ∷ [])
              ((carried count size overlap x current).0 ++ x ∷ [])
              ((carried count size overlap x current).1 + tokens_of count x)
    unfolding pack
    pack-full join chunks current tokens e = rw (pack, e) refl

    pack-open :
        {C : Type 0} (join : List A → C) (chunks : List C) (current : List A) (tokens : ℕ)
        → is_full count size overlap x current tokens ≡ false
        → pack count size overlap join (x ∷ xs) chunks current tokens
          ≡ pack count size overlap join xs chunks (current ++ x ∷ []) (tokens + tokens_of count x)
    unfolding pack
    pack-open join chunks current tokens e = rw (pack, e) refl

    pieces-full :
        (carry new : List A) (tokens : ℕ)
        → is_full count size overlap x (carry ++ new) tokens ≡ true
        → pieces count size overlap (x ∷ xs) carry new tokens
          ≡ record { carry = carry; new = new }
            ∷ pieces count size overlap xs
                (carried count size overlap x (carry ++ new)).0
                (x ∷ [])
                ((carried count size overlap x (carry ++ new)).1 + tokens_of count x)
    unfolding pieces
    pieces-full carry new tokens e = rw (pieces, e) refl

    pieces-open :
        (carry new : List A) (tokens : ℕ)
        → is_full count size overlap x (carry ++ new) tokens ≡ false
        → pieces count size overlap (x ∷ xs) carry new tokens
          ≡ pieces count size overlap xs carry (new ++ x ∷ []) (tokens + tokens_of count x)
    unfolding pieces
    pieces-open carry new tokens e = rw (pieces, e) refl

  -- The loop, with its chunks taken apart.
  pub pack-pieces :
      {C : Type 0} (join : List A → C) (xs : List A) (chunks : List C) (carry new : List A)
      (tokens : ℕ)
      → with_current join
          (pack count size overlap join xs chunks (carry ++ new) tokens).0
          (pack count size overlap join xs chunks (carry ++ new) tokens).1
        ≡ chunks ++ map (λ p. join (group p)) (pieces count size overlap xs carry new tokens)
  pack-pieces join [] chunks carry new tokens =
      unfold pack pieces in
      elim (Bool-cases (is_nil (carry ++ new))) [
        | inl e ↦ rw e (sym (append-nil chunks))
        | inr e ↦ rw e refl
      ]
  pack-pieces join (x ∷ xs) chunks carry new tokens =
      let kept = (carried count size overlap x (carry ++ new)).0 in
      let used = (carried count size overlap x (carry ++ new)).1 in
      elim (Bool-cases (is_full count size overlap x (carry ++ new) tokens)) [
        | inl e ↦
            rw
              (
                pack-full x xs join chunks (carry ++ new) tokens e,
                pieces-full x xs carry new tokens e,
              )
              (pack-pieces join xs (chunks ++ join (carry ++ new) ∷ []) kept (x ∷ [])
                  (used + tokens_of count x)
                ∙ append_assoc chunks (join (carry ++ new) ∷ []) _)
        | inr e ↦
            rw
              (
                pack-open x xs join chunks (carry ++ new) tokens e,
                pieces-open x xs carry new tokens e,
                append_assoc carry new (x ∷ []),
              )
              (pack-pieces join xs chunks carry (new ++ x ∷ []) (tokens + tokens_of count x))
      ]

  -- What is new in the pieces are the items, in order and each once.
  pub concat_new-pieces :
      (xs carry new : List A) (tokens : ℕ)
      → concat_new (pieces count size overlap xs carry new tokens) ≡ new ++ xs
  unfolding pieces
  concat_new-pieces [] carry new tokens = elim (Bool-cases (is_nil (carry ++ new))) [
    | inl e ↦ rw (e, nil_of_append carry new e) refl
    | inr e ↦ rw e refl
  ]
  concat_new-pieces (x ∷ xs) carry new tokens =
      let kept = (carried count size overlap x (carry ++ new)).0 in
      let used = (carried count size overlap x (carry ++ new)).1 in
      elim (Bool-cases (is_full count size overlap x (carry ++ new) tokens)) [
        | inl e ↦
            rw e
              (ap (λ l. new ++ l) (concat_new-pieces xs kept (x ∷ []) (used + tokens_of count x)))
        | inr e ↦ rw e (
            concat_new-pieces xs carry (new ++ x ∷ []) (tokens + tokens_of count x)
            ∙ append_assoc new (x ∷ []) xs)
      ]

  -- A chunk is within the size, or is one item alone.
  abbrev pub Sized : Piece A → Type 0
  Sized p = (total count (group p) ≤ size) ⊎ ((p.carry ≡ []) × ((x : A) × (p.new ≡ x ∷ [])))

  nil_or_within :
      (x : A) (current : List A) (tokens : ℕ)
      → is_full count size overlap x current tokens ≡ false
      → (is_nil current ≡ true) ⊎ (tokens + tokens_of count x ≤ size)
  nil_or_within x [] tokens e = inl refl
  nil_or_within x (y ∷ ys) tokens e = inr (ground arith)

  pub pieces-Sized :
      (xs carry new : List A) (tokens : ℕ)
      → tokens ≡ total count (carry ++ new)
      → (is_nil (carry ++ new) ≡ false → Sized (record { carry = carry; new = new }))
      → All Sized (pieces count size overlap xs carry new tokens)
  unfolding pieces
  pieces-Sized [] carry new tokens t h = elim (Bool-cases (is_nil (carry ++ new))) [
    | inl e ↦ rw e tt
    | inr e ↦ rw e (h e, tt)
  ]
  pieces-Sized (x ∷ xs) carry new tokens t h =
      let kept = (carried count size overlap x (carry ++ new)).0 in
      let used = (carried count size overlap x (carry ++ new)).1 in
      let tail = carried-IsTail count size overlap x (carry ++ new) in
      let kept_total = total-append count kept (x ∷ []) in
      let open_total = total-append count (carry ++ new) (x ∷ []) in
      elim (Bool-cases (is_full count size overlap x (carry ++ new) tokens)) [
        | inl e ↦ rw e (
          h (full_not_nil e),
          pieces-Sized xs kept (x ∷ []) (used + tokens_of count x) (omega (arith, tail.counted))
              (λ _. after_carry (omega (arith, tail.counted))),
        )
        | inr e ↦ rw e (
            pieces-Sized xs carry (new ++ x ∷ []) (tokens + tokens_of count x)
              (rw (sym (append_assoc carry new (x ∷ []))) (omega arith))
              (λ _. after_open e (omega arith)))
      ]
    where
      after_open :
          is_full count size overlap x (carry ++ new) tokens ≡ false
          → total count ((carry ++ new) ++ x ∷ []) ≡ tokens + tokens_of count x
          → Sized (record { carry = carry; new = new ++ x ∷ [] })
      after_open e t' = elim (nil_or_within x (carry ++ new) tokens e) [
        | inl none ↦ inr (
          nil_of_append_left carry new none,
          (x, ap (λ l. l ++ x ∷ []) (nil_of_append carry new none)),
        )
        | inr fits ↦ inl (
            subst (λ l. total count l ≤ size) (append_assoc carry new (x ∷ []))
              (omega (arith, t', fits)))
      ]

      full_not_nil :
          is_full count size overlap x (carry ++ new) tokens ≡ true → is_nil (carry ++ new) ≡ false
      full_not_nil e = ground arith

      after_carry :
          total count ((carried count size overlap x (carry ++ new)).0 ++ x ∷ [])
            ≡ (carried count size overlap x (carry ++ new)).1 + tokens_of count x
          → Sized (record { carry = (carried count size overlap x (carry ++ new)).0; new = x ∷ [] })
      after_carry e = elim (carried_fits count size overlap x (carry ++ new)) [
        | inl none ↦ inr (none, (x, refl))
        | inr fits ↦ inl (omega arith)
      ]
