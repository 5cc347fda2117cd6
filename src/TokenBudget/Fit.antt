-- ===== src/TokenBudget/Fit.antt =====
-- The newest lines that fit a budget.
use mathlib.Core.List.{reverse-reverse, reverse-cons}
use agentic_learning_platfor.Base.{
  ℕ, zero, suc, ◌+◌, ◌≤◌, ◌<◌, Text, ◌≡◌, refl, ap, subst, ◌∙◌, ◌⊎◌, inl, inr, Bool, true, false,
  ◌&&◌, List, [], ◌∷◌, ◌++◌, reverse, append_assoc, append-nil, map, length, arith, leb, ltb,
  ltb→lt, Bool-cases,
}
use agentic_learning_platfor.TokenBudget.{
  Tokenizer, count_tokens, truncate_tokens, fit, fit_recent_lines, sum,
}
use agentic_learning_platfor.TokenBudget.Truncate.{IsEstimating, truncate_tokens-le}

module _ (t : Tokenizer) where
  abbrev pub total : List Text → ℕ
  total lines = sum (map (count_tokens t) lines)

  -- The lines are the older ones and then the result; the result fits the budget, and the newest of
  -- the older lines would not fit with it.
  pub record IsNewest (budget : ℕ) (lines result : List Text) : Type 0 where
    pub older : List Text
    pub split : lines ≡ older ++ result
    pub fits : total result ≤ budget
    pub longest :
        (older ≡ [])
        ⊎ ((before : List Text) × (line : Text) × (older ≡ before ++ line ∷ [])
            × (budget < total (line ∷ result)))

  -- The newest line alone is over the budget, and its cut form is the result.
  pub record IsCut (budget : ℕ) (lines result : List Text) : Type 0 where
    pub older : List Text
    pub line : Text
    pub split : lines ≡ older ++ line ∷ []
    pub over : budget < count_tokens t line
    pub cut_line : result ≡ truncate_tokens t true budget line ∷ []

  abbrev pub Fitted : ℕ → List Text → List Text → Type 0
  Fitted budget lines result = IsNewest budget lines result ⊎ IsCut budget lines result

  abbrev stops : ℕ → Text → List Text → ℕ → Bool
  stops budget line selected used =
      leb 1 (length selected) && ltb budget (used + count_tokens t line)

  reverse_split :
      (line : Text) (older selected : List Text)
      → reverse (line ∷ older) ++ selected ≡ reverse older ++ line ∷ selected
  reverse_split line older selected =
      rw reverse-cons (append_assoc (reverse older) (line ∷ []) selected)

  stops-over :
      (budget : ℕ) (line : Text) (selected : List Text) (used : ℕ)
      → stops budget line selected used ≡ true
      → budget < used + count_tokens t line
  stops-over budget line selected used h = ground arith

  empty_of_over :
      (budget : ℕ) (line : Text) (selected : List Text) (used : ℕ)
      → stops budget line selected used ≡ false
      → ltb budget (count_tokens t line) ≡ true
      → selected ≡ []
  empty_of_over budget line [] used h k = refl
  empty_of_over budget line (s ∷ selected) used h k = absurd (ground arith)

  room :
      (budget : ℕ) (line : Text) (selected : List Text) (used : ℕ)
      → used ≡ total selected
      → stops budget line selected used ≡ false
      → ltb budget (count_tokens t line) ≡ false
      → used + count_tokens t line ≤ budget
  room budget line [] used e h k = ground arith
  room budget line (s ∷ selected) used e h k = ground arith

  fit-Fitted :
      (budget : ℕ) (older selected : List Text) (used : ℕ)
      → used ≡ total selected
      → used ≤ budget
      → Fitted budget (reverse older ++ selected) (fit t budget older selected used)
  unfolding fit
  fit-Fitted budget [] selected used e h =
      inl (record { older = []; split = refl; fits = omega arith; longest = inl refl })
  fit-Fitted budget (line ∷ older) selected used e h =
      elim (Bool-cases (stops budget line selected used)) [
        | inl s ↦ rw s (
            inl (record {
              older = reverse (line ∷ older);
              split = refl;
              fits = omega arith;
              longest = inr (
                reverse older,
                line,
                reverse-cons line older,
                omega (arith, stops-over budget line selected used s),
              );
            }))
        | inr s ↦ elim (Bool-cases (ltb budget (count_tokens t line))) [
          | inl k ↦
              let none_yet = empty_of_over budget line selected used s k in
              rw (s, k)
                (inr (record {
                  older = reverse older;
                  line = line;
                  split =
                      reverse_split line older selected
                      ∙ ap (λ l. reverse older ++ line ∷ l) none_yet;
                  over = ltb→lt _ _ k;
                  cut_line = ap (λ l. truncate_tokens t true budget line ∷ l) none_yet;
                }))
          | inr k ↦
              rw (s, k, reverse_split line older selected)
                (fit-Fitted budget older (line ∷ selected) (used + count_tokens t line)
                  (omega arith) (room budget line selected used e s k))
        ]
      ]

  -- With a positive budget the result is the longest run of newest lines that fits it, or, when the
  -- newest line alone is over it, that line cut down.
  pub fit_recent_lines-Fitted :
      (lines : List Text) (budget : ℕ)
      → 0 < budget
      → Fitted budget lines (fit_recent_lines t lines budget)
  unfolding fit_recent_lines
  fit_recent_lines-Fitted lines zero h = absurd (omega arith)
  fit_recent_lines-Fitted lines (suc n) h =
      subst (λ l. Fitted (suc n) l (fit t (suc n) (reverse lines) [] 0))
        (append-nil (reverse (reverse lines)) ∙ reverse-reverse lines)
        (fit-Fitted (suc n) (reverse lines) [] 0 refl (omega arith))

  -- With no tokenizer at hand the selected lines count at most the budget in all.
  total-fit_recent_lines :
      IsEstimating t
      → (lines : List Text) (budget : ℕ) → total (fit_recent_lines t lines budget) ≤ budget
  unfolding fit_recent_lines
  total-fit_recent_lines estimating lines zero = omega arith
  total-fit_recent_lines estimating lines (suc n) =
      elim (fit_recent_lines-Fitted lines (suc n) (omega arith)) [
        | inl newest ↦ newest.fits
        | inr cut ↦
            rw cut.cut_line (omega (arith, truncate_tokens-le t estimating true (suc n) cut.line))
      ]
