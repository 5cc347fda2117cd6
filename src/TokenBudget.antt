-- ===== src/TokenBudget.antt =====
-- backend/app/services/token_budget.py: counting and cutting text to a budget of tokens. The
-- tokenizers are libraries: encoding and decoding are parameters, `none` where none is at hand or it
-- fails. The length that the float ratio asks for is a parameter too, since no law of it is needed.

pub mod Estimate
pub mod Truncate
pub mod Fit
use agentic_learning_platfor.Base.{
  ℕ, zero, suc, ◌+◌, ◌-◌, ◌*◌, ◌/◌, ◌≤◌, max, Text, Unicode, strip, Bool, true, false, ◌&&◌, ◌||◌,
  Option, none, some, List, [], ◌∷◌, ◌++◌, reverse, length, take, drop, ltb, leb, ◌==◌,
  if◌then◌else◌,
}

pub record Tokenizer : Type 0 where
  pub unicode : Unicode
  pub encode : Text → Option (List ℕ)
  pub decode : List ℕ → Option Text
  pub scaled : ℕ → ℕ → ℕ → ℕ

abbrev pub sum : List ℕ → ℕ
sum [] = 0
sum (x ∷ xs) = x + sum xs

abbrev pub between : ℕ → ℕ → ℕ → Bool
between low high c = leb low c && leb c high

-- [\u4e00-\u9fff]
unfoldable pub is_cjk : ℕ → Bool
is_cjk c = between 0x4e00 0x9fff c

-- max(1, (len(token) + 3) // 4), for a run of word characters
unfoldable pub run_tokens : ℕ → ℕ
run_tokens zero = 0
run_tokens (suc n) = max 1 ((suc n + 3) / 4)

module _ (unicode : Unicode) (cjk : ℕ → Bool) where
  unfoldable pub count_cjk : Text → ℕ
  count_cjk [] = 0
  count_cjk (c ∷ text) = (if cjk c then 1 else 0) + count_cjk text

  -- The matches of \w+|[^\w\s], where a CJK character stands for a space; `run` is the length of the
  -- run of word characters that has just been read.
  unfoldable pub is_word : ℕ → Bool
  is_word c = if cjk c then false else unicode.is_word c

  unfoldable pub is_space : ℕ → Bool
  is_space c = if cjk c then true else unicode.is_space c

  unfoldable pub other_tokens : ℕ → Text → ℕ
  unfolding run_tokens is_word is_space
  other_tokens run [] = run_tokens run
  other_tokens run (c ∷ text) =
      (if is_word c then 0 else run_tokens run + (if is_space c then 0 else 1))
      + other_tokens (if is_word c then run + 1 else 0) text

  unfoldable pub estimate : Text → ℕ
  unfolding count_cjk other_tokens
  estimate text = count_cjk text + other_tokens 0 text

-- text[-n:] and text[:n] for a positive n; text[n:] and text[:-n] for a positive n.
abbrev pub kept {ℓ} : {A : Type ℓ} → Bool → ℕ → List A → List A
kept true n xs = drop (length xs - n) xs
kept false n xs = take n xs

abbrev pub cut {ℓ} : {A : Type ℓ} → Bool → ℕ → List A → List A
cut true n xs = drop n xs
cut false n xs = take (length xs - n) xs

module _ (t : Tokenizer) where
  unfoldable pub count_tokens : Text → ℕ
  unfolding estimate is_cjk
  count_tokens [] = 0
  count_tokens (c ∷ text) = elim (t.encode (c ∷ text)) [
    | some tokens ↦ length tokens
    | none ↦ estimate t.unicode is_cjk (c ∷ text)
  ]

  -- The `while` loop, with the length of the text as fuel: each round takes off a character at least.
  unfoldable pub shrink : ℕ → Bool → ℕ → Text → Text
  shrink zero keep_end budget trimmed = trimmed
  shrink (suc fuel) keep_end budget [] = []
  shrink (suc fuel) keep_end budget (c ∷ text) =
      let rest =
        shrink fuel keep_end budget (cut keep_end (max 1 (length (c ∷ text) / 10)) (c ∷ text)) in
      if ltb budget (count_tokens (c ∷ text)) then rest else c ∷ text

  unfoldable pub truncate_estimated : Bool → ℕ → Text → Text
  unfolding shrink strip
  truncate_estimated keep_end budget text =
      let trimmed =
        kept keep_end (max 1 (t.scaled (length text) budget (max 1 (count_tokens text)))) text in
      if leb (count_tokens text) budget
      then text
      else strip t.unicode.is_space (shrink (length trimmed) keep_end budget trimmed)

  truncate_encoded : Bool → ℕ → Text → Option (List ℕ) → Text
  unfolding truncate_estimated
  truncate_encoded keep_end budget text none = truncate_estimated keep_end budget text
  truncate_encoded keep_end budget text (some tokens) =
      if leb (length tokens) budget then text else elim (t.decode (kept keep_end budget tokens)) [
        | some decoded ↦ strip t.unicode.is_space decoded
        | none ↦ truncate_estimated keep_end budget text
      ]

  -- truncate_tokens(text, max_tokens, keep): `keep_end` is `keep == "end"`. A negative budget is 0.
  unfoldable pub truncate_tokens : Bool → ℕ → Text → Text
  unfolding truncate_encoded
  truncate_tokens keep_end zero text = []
  truncate_tokens keep_end (suc n) [] = []
  truncate_tokens keep_end (suc n) (c ∷ text) =
      truncate_encoded keep_end (suc n) (c ∷ text) (t.encode (c ∷ text))

  -- The loop over reversed(lines); what is selected stands in the order of the lines.
  unfoldable pub fit : ℕ → List Text → List Text → ℕ → List Text
  fit budget [] selected used = selected
  fit budget (line ∷ older) selected used =
      let rest = fit budget older (line ∷ selected) (used + count_tokens line) in
      if leb 1 (length selected) && ltb budget (used + count_tokens line)
      then selected
      else if ltb budget (count_tokens line)
      then truncate_tokens true budget line ∷ selected
      else rest

  unfoldable pub fit_recent_lines : List Text → ℕ → List Text
  unfolding fit
  fit_recent_lines lines zero = []
  fit_recent_lines lines (suc n) = fit (suc n) (reverse lines) [] 0
