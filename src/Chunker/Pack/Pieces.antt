-- ===== src/Chunker/Pack/Pieces.antt =====
-- The chunks of `pack` in pieces: what a chunk takes over from the one before, and what is new in it.
use mathlib.Core.List.{reverse-reverse, reverse-cons}
use agentic_learning_platfor.Base.{
  ℕ, ◌+◌, ◌≤◌, ◌≡◌, refl, sym, subst, ◌∙◌, ◌⊎◌, inl, inr, false, not, ◌&&◌, List, [], ◌∷◌, ◌++◌,
  reverse, append_assoc, append-nil, arith, ltb, if◌then◌else◌, Bool-cases,
}
use agentic_learning_platfor.Chunker.Pack.{is_nil, tokens_of, keep, carried, is_full}

pub record Piece (A : Type 0) : Type 0 where
  pub carry : List A
  pub new : List A

abbrev pub group : {A : Type 0} → Piece A → List A
group p = p.carry ++ p.new

abbrev pub concat_new : {A : Type 0} → List (Piece A) → List A
concat_new [] = []
concat_new (p ∷ ps) = p.new ++ concat_new ps

module _ {A : Type 0} (count : A → ℕ) where
  abbrev pub total : List A → ℕ
  total [] = 0
  total (x ∷ xs) = tokens_of count x + total xs

  pub total-append : (xs ys : List A) → total (xs ++ ys) ≡ total xs + total ys
  total-append [] ys = omega arith
  total-append (x ∷ xs) ys = omega (arith, total-append xs ys)

module _ {A : Type 0} (count : A → ℕ) (size overlap : ℕ) where
  -- What `keep` returns is a tail of the chunk within the overlap, counted rightly.
  pub record IsTail (whole : List A) (kept : List A) (used : ℕ) : Type 0 where
    pub older : List A
    pub split : whole ≡ older ++ kept
    pub counted : used ≡ total count kept
    pub within : used ≤ overlap

  keep-IsTail :
      (newest_first kept : List A) (used : ℕ)
      → used ≡ total count kept
      → used ≤ overlap
      → IsTail
          (reverse newest_first ++ kept)
          (keep count size overlap newest_first kept used).0
          (keep count size overlap newest_first kept used).1
  unfolding keep
  keep-IsTail [] kept used e h = record { older = []; split = refl; counted = e; within = h }
  keep-IsTail (x ∷ older) kept used e h =
      elim (Bool-cases (ltb overlap (used + tokens_of count x))) [
        | inl over ↦
            rw over (record { older = reverse (x ∷ older); split = refl; counted = e; within = h })
        | inr fits ↦
            rw (fits, reverse-cons x older, append_assoc (reverse older) (x ∷ []) kept)
              (keep-IsTail older (x ∷ kept) (used + tokens_of count x) (omega arith) (ground arith))
      ]

  pub carried-IsTail :
      (x : A) (current : List A)
      → IsTail current
          (carried count size overlap x current).0
          (carried count size overlap x current).1
  unfolding carried
  carried-IsTail x current =
      let kept = (keep count size overlap (reverse current) [] 0).0 in
      let used = (keep count size overlap (reverse current) [] 0).1 in
      let tail = keep-IsTail (reverse current) [] 0 refl (omega arith) in
      let whole = append-nil (reverse (reverse current)) ∙ reverse-reverse current in
      elim (Bool-cases (not (is_nil kept) && ltb size (used + tokens_of count x))) [
        | inl e ↦ rw e (record {
          older = current;
          split = sym (append-nil current);
          counted = refl;
          within = omega arith;
        })
        | inr e ↦ rw e (subst (λ l. IsTail l kept used) whole tail)
      ]

  -- With what is carried over, the new item is within the size, unless it stands alone.
  pub carried_fits :
      (x : A) (current : List A)
      → ((carried count size overlap x current).0 ≡ [])
        ⊎ ((carried count size overlap x current).1 + tokens_of count x ≤ size)
  unfolding carried
  carried_fits x current =
      let kept = (keep count size overlap (reverse current) [] 0).0 in
      let used = (keep count size overlap (reverse current) [] 0).1 in
      elim (Bool-cases (not (is_nil kept) && ltb size (used + tokens_of count x))) [
        | inl e ↦ rw e (inl refl)
        | inr e ↦ rw e (nil_or_fits kept (used + tokens_of count x) e)
      ]
    where
      nil_or_fits :
          (kept : List A) (n : ℕ)
          → (not (is_nil kept) && ltb size n) ≡ false
          → (kept ≡ []) ⊎ (n ≤ size)
      nil_or_fits [] n h = inl refl
      nil_or_fits (y ∷ ys) n h = inr (ground arith)

  -- The pieces of the chunks that are still to be closed, the current one among them.
  unfoldable pub pieces : List A → List A → List A → ℕ → List (Piece A)
  pieces [] carry new tokens =
      if is_nil (carry ++ new) then [] else record { carry = carry; new = new } ∷ []
  pieces (x ∷ xs) carry new tokens =
      let (kept, used) = carried count size overlap x (carry ++ new) in
      let closed = pieces xs kept (x ∷ []) (used + tokens_of count x) in
      let open' = pieces xs carry (new ++ x ∷ []) (tokens + tokens_of count x) in
      if is_full count size overlap x (carry ++ new) tokens
      then record { carry = carry; new = new } ∷ closed
      else open'
