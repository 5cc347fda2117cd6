-- ===== src/TokenBudget/Truncate.antt =====
-- A cut text fits its budget, and a text that fits is not cut.
use agentic_learning_platfor.Base.{
  ℕ, zero, suc, ◌-◌, ◌≤◌, ◌<◌, ◌/◌, max, Text, strip, ◌≡◌, refl, sym, ◌∙◌, Bool, true, false, none,
  [], ◌∷◌, length, length-drop, length-take, arith, leb, ltb, leb→le, inl, inr, Bool-cases,
}
use agentic_learning_platfor.TokenBudget.{
  Tokenizer, count_tokens, estimate, is_cjk, kept, cut, shrink, truncate_estimated, truncate_tokens,
}
use agentic_learning_platfor.TokenBudget.Estimate.{SpacesCountNothing, estimate-strip}

-- The case in which no tokenizer is at hand, so that the estimate counts.
pub record IsEstimating (t : Tokenizer) : Type 0 where
  pub no_encoder : (text : Text) → t.encode text ≡ none
  pub spaces : SpacesCountNothing t.unicode is_cjk

module _ (t : Tokenizer) where
  length-cut-lt :
      (keep_end : Bool) (c : ℕ) (text : Text) (n : ℕ)
      → length (cut keep_end (max 1 n) (c ∷ text)) ≤ length text
  length-cut-lt true c text n = omega (arith, length-drop (max 1 n) (c ∷ text))
  length-cut-lt false c text n = omega (arith, length-take (length (c ∷ text) - max 1 n) (c ∷ text))

  -- The loop of the cutting has fuel enough, and ends within the budget.
  pub count-shrink-le :
      (fuel : ℕ) (keep_end : Bool) (budget : ℕ) (text : Text)
      → length text ≤ fuel
      → count_tokens t (shrink t fuel keep_end budget text) ≤ budget
  unfolding shrink count_tokens
  count-shrink-le zero keep_end budget [] h = omega arith
  count-shrink-le zero keep_end budget (c ∷ text) h = absurd (omega arith)
  count-shrink-le (suc fuel) keep_end budget [] h = omega arith
  count-shrink-le (suc fuel) keep_end budget (c ∷ text) h =
      let shorter = cut keep_end (max 1 (length (c ∷ text) / 10)) (c ∷ text) in
      let smaller = length-cut-lt keep_end c text (length (c ∷ text) / 10) in
      let ih = count-shrink-le fuel keep_end budget shorter (omega arith) in
      elim (Bool-cases (ltb budget (count_tokens t (c ∷ text)))) [
        | inl e ↦ rw e ih
        | inr e ↦ rw e (fits e)
      ]
    where
      fits : ltb budget (count_tokens t (c ∷ text)) ≡ false → count_tokens t (c ∷ text) ≤ budget
      fits e = ground arith

  -- A text within a positive budget is returned as it is, at whichever end would be kept.
  truncate_tokens-fits :
      (keep_end : Bool) (budget : ℕ) (text : Text)
      → 0 < budget
      → count_tokens t text ≤ budget
      → truncate_tokens t keep_end budget text ≡ text
  unfolding truncate_tokens count_tokens
  truncate_tokens-fits keep_end zero text pos h = absurd (omega arith)
  truncate_tokens-fits keep_end (suc n) [] pos h = refl
  truncate_tokens-fits keep_end (suc n) (c ∷ text) pos h = ground arith

  module _ (estimating : IsEstimating t) where
    count_tokens-estimate : (text : Text) → count_tokens t text ≡ estimate t.unicode is_cjk text
    unfolding count_tokens
    count_tokens-estimate [] = refl
    count_tokens-estimate (c ∷ text) = rw (estimating.no_encoder (c ∷ text), count_tokens) refl

    count-strip :
        (text : Text) → count_tokens t (strip t.unicode.is_space text) ≡ count_tokens t text
    count-strip text =
        count_tokens-estimate (strip t.unicode.is_space text)
        ∙ estimate-strip t.unicode is_cjk estimating.spaces text
        ∙ sym (count_tokens-estimate text)

    truncate_estimated-le :
        (keep_end : Bool) (budget : ℕ) (text : Text)
        → count_tokens t (truncate_estimated t keep_end budget text) ≤ budget
    unfolding truncate_estimated
    truncate_estimated-le keep_end budget text =
        let trimmed =
          kept keep_end (max 1 (t.scaled (length text) budget (max 1 (count_tokens t text))))
            text in
        elim (Bool-cases (leb (count_tokens t text) budget)) [
          | inl e ↦ rw e (leb→le _ _ e)
          | inr e ↦
              rw (e, count-strip (shrink t (length trimmed) keep_end budget trimmed))
                (count-shrink-le (length trimmed) keep_end budget trimmed (omega arith))
        ]

    -- With no tokenizer at hand the cut text counts at most the budget, whichever end is kept and
    -- whatever the float ratio was.
    pub truncate_tokens-le :
        (keep_end : Bool) (budget : ℕ) (text : Text)
        → count_tokens t (truncate_tokens t keep_end budget text) ≤ budget
    unfolding truncate_tokens
    truncate_tokens-le keep_end zero text = unfold count_tokens in omega arith
    truncate_tokens-le keep_end (suc n) [] = unfold count_tokens in omega arith
    truncate_tokens-le keep_end (suc n) (c ∷ text) =
        rw (estimating.no_encoder (c ∷ text)) (truncate_estimated-le keep_end (suc n) (c ∷ text))
