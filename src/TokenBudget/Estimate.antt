-- ===== src/TokenBudget/Estimate.antt =====
-- White space at the ends of a text does not count.
use mathlib.Core.List.{reverse-cons, reverse-reverse}
use agentic_learning_platfor.Base.{
  ℕ, ◌+◌, Text, Unicode, lstrip, strip, ◌≡◌, refl, sym, ap, ◌∙◌, Bool, true, false, [], ◌∷◌, ◌++◌,
  reverse, arith, inl, inr, Bool-cases, if◌then◌else◌,
}
use agentic_learning_platfor.TokenBudget.{
  count_cjk, is_word, is_space, other_tokens, estimate, run_tokens,
}

-- What Python's tables guarantee of white space, and the CJK blocks with them.
abbrev pub SpacesCountNothing : Unicode → (ℕ → Bool) → Type 0
SpacesCountNothing u cjk = (c : ℕ) → u.is_space c ≡ true → (u.is_word c ≡ false) × (cjk c ≡ false)

module _ (u : Unicode) (cjk : ℕ → Bool) (law : SpacesCountNothing u cjk) where
  cjk-lstrip : (text : Text) → count_cjk u cjk (lstrip u.is_space text) ≡ count_cjk u cjk text
  unfolding count_cjk lstrip
  cjk-lstrip [] = refl
  cjk-lstrip (c ∷ text) = ground (arith, law c, cjk-lstrip text)

  other-lstrip :
      (text : Text) → other_tokens u cjk 0 (lstrip u.is_space text) ≡ other_tokens u cjk 0 text
  unfolding other_tokens lstrip
  other-lstrip [] = refl
  other-lstrip (c ∷ text) = ground (arith, law c, other-lstrip text)

  cjk-snoc :
      (c : ℕ) (text : Text)
      → u.is_space c ≡ true
      → count_cjk u cjk (text ++ c ∷ []) ≡ count_cjk u cjk text
  unfolding count_cjk
  cjk-snoc c [] h = ground (arith, law c)
  cjk-snoc c (d ∷ text) h = ap (λ (n : ℕ). (if cjk d then 1 else 0) + n) (cjk-snoc c text h)

  other-snoc :
      (c run : ℕ) (text : Text)
      → u.is_space c ≡ true
      → other_tokens u cjk run (text ++ c ∷ []) ≡ other_tokens u cjk run text
  unfolding other_tokens
  other-snoc c run [] h = ground (arith, law c)
  other-snoc c run (d ∷ text) h =
      ap
        (λ (n : ℕ).
          (if is_word u cjk d then 0 else run_tokens run + (if is_space u cjk d then 0 else 1)) + n)
        (other-snoc c (if is_word u cjk d then run + 1 else 0) text h)

  estimate-snoc :
      (c : ℕ) (text : Text)
      → u.is_space c ≡ true
      → estimate u cjk (text ++ c ∷ []) ≡ estimate u cjk text
  unfolding estimate
  estimate-snoc c text h = cc (cjk-snoc c text h, other-snoc c 0 text h)

  reverse-lstrip :
      (text : Text)
      → estimate u cjk (reverse (lstrip u.is_space text)) ≡ estimate u cjk (reverse text)
  unfolding lstrip
  reverse-lstrip [] = refl
  reverse-lstrip (c ∷ text) = elim (Bool-cases (u.is_space c)) [
    | inl e ↦ rw e (reverse-lstrip text ∙ rw reverse-cons (sym (estimate-snoc c (reverse text) e)))
    | inr e ↦ rw e refl
  ]

  -- Stripping a text leaves its estimate as it was.
  pub estimate-strip : (text : Text) → estimate u cjk (strip u.is_space text) ≡ estimate u cjk text
  unfolding strip
  estimate-strip text =
      reverse-lstrip (reverse (lstrip u.is_space text))
      ∙ ap (estimate u cjk) (reverse-reverse (lstrip u.is_space text))
      ∙ unfold estimate in cc (cjk-lstrip text, other-lstrip text)
