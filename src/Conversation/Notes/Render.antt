-- ===== src/Conversation/Notes/Render.antt =====
-- The notes as text, within their budgets (services/conversation_context.py, `_section_lines`,
-- `_render_summary_sections`, `_append_with_budget`).
use agentic_learning_platfor.Base.{
  ℕ, ◌+◌, ◌-◌, Text, codes, joined, true, ◌&&◌, List, [], ◌∷◌, ◌++◌, reverse, length, ltb, leb,
  if◌then◌else◌,
}
use agentic_learning_platfor.TokenBudget.{Tokenizer, count_tokens, truncate_tokens}
use agentic_learning_platfor.Conversation.Notes.{Section, Sections, ordered_sections, section_of}

module _ (t : Tokenizer) where
  -- The loop over reversed(items); what is selected stands in the order of the items.
  unfoldable pub fill_section : ℕ → List Text → List Text → ℕ → List Text
  unfolding count_tokens truncate_tokens
  fill_section budget [] selected used = selected
  fill_section budget (item ∷ older) selected used =
      let line = codes "- " ++ item in
      let rest = fill_section budget older (line ∷ selected) (used + count_tokens t line) in
      if leb 1 (length selected) && ltb budget (used + count_tokens t line)
      then selected
      else if ltb budget (count_tokens t line)
      then (codes "- " ++ truncate_tokens t true budget item) ∷ selected
      else rest

  unfoldable pub section_lines : List Text → ℕ → List Text
  unfolding fill_section
  section_lines items budget = fill_section budget (reverse items) [] 0

  abbrev pub rendered : Section → List Text → List Text → List Text
  rendered s [] others = others
  rendered s (line ∷ lines) others =
      (codes "【" ++ s.title ++ codes "】" ++ 10 ∷ joined (10 ∷ []) (line ∷ lines)) ∷ others

  abbrev pub render_each : List Section → Sections → List Text
  render_each [] sections = []
  render_each (s ∷ others) sections =
      rendered s (section_lines (section_of s.key sections) s.budget) (render_each others sections)

  unfoldable pub render_summary_sections : Sections → Text
  unfolding section_lines joined
  render_summary_sections sections = joined (10 ∷ 10 ∷ []) (render_each ordered_sections sections)

  abbrev pub append_clipped : List Text → Text → List Text
  append_clipped parts [] = parts
  append_clipped parts (c ∷ clipped) = parts ++ (c ∷ clipped) ∷ []

  unfoldable pub append_with_budget : List Text → Text → ℕ → List Text
  unfolding truncate_tokens count_tokens joined
  append_with_budget parts [] max_tokens = parts
  append_with_budget parts (c ∷ text) max_tokens =
      let used = count_tokens t (joined (10 ∷ 10 ∷ []) parts) in
      if leb (count_tokens t (joined (10 ∷ 10 ∷ []) (parts ++ (c ∷ text) ∷ []))) max_tokens
      then parts ++ (c ∷ text) ∷ []
      else if leb max_tokens used
      then parts
      else append_clipped parts (truncate_tokens t true (max_tokens - used) (c ∷ text))
