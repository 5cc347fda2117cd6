-- ===== src/Conversation/Context.antt =====
-- The parts of a conversation's context (services/conversation_context.py, `_task_state` to
-- `_task_text`); the limits are those of config.py.
pub mod Compaction
use agentic_learning_platfor.Base.{
  ℕ, zero, suc, ◌+◌, ◌-◌, ◌≤◌, ◌/◌, max, String, Text, Unicode, codes, strip, joined, Bool, true,
  false, ◌&&◌, ◌||◌, Option, none, some, List, [], ◌∷◌, ◌++◌, map, select, length, take, drop, ltb,
  leb, ◌==◌, if◌then◌else◌, str_eq,
}
use agentic_learning_platfor.TokenBudget.{
  Tokenizer, count_tokens, truncate_tokens, fit_recent_lines,
}
use agentic_learning_platfor.Conversation.Notes.{
  Message, Patterns, last, is_blank, role_line, raw_role_line, clip,
}
use agentic_learning_platfor.Conversation.Notes.Extract.{extract_summary_sections}
use agentic_learning_platfor.Conversation.Notes.Render.{render_summary_sections, append_with_budget}

-- RAG_HISTORY_MESSAGES, RAG_COMPACTION_THRESHOLD, RAG_MEMORY_MAX_TOKENS,
-- RAG_MEMORY_SUMMARY_MAX_TOKENS, RAG_MEMORY_RECENT_MAX_TOKENS, RAG_MEMORY_TASK_STATE_MAX_TOKENS;
-- config.py makes sure of the law.
pub record Limits : Type 0 where
  pub history : ℕ
  pub threshold : ℕ
  pub memory_tokens : ℕ
  pub summary_tokens : ℕ
  pub recent_tokens : ℕ
  pub state_tokens : ℕ
  pub history_below : history + 2 ≤ threshold

pub record TaskState : Type 0 where
  pub goal : Text
  pub recent_requests : List Text

-- A summary_until_message_id that is missing is 0, and a task state that is missing or no JSON none.
pub record Conversation : Type 0 where
  pub summary : Option Text
  pub summary_until : ℕ
  pub task_state : Option TaskState

pub record ConversationContext : Type 0 where
  pub history : Text
  pub task_state : Text
  pub compacted : Bool

abbrev pub or_empty : Option Text → Text
or_empty none = []
or_empty (some text) = text

abbrev pub default_to : Text → Text → Text
default_to default [] = default
default_to default (c ∷ text) = c ∷ text

abbrev blank_line : Text
blank_line = 10 ∷ 10 ∷ []

module _ (t : Tokenizer) (p : Patterns) (limits : Limits) where
  unfoldable pub state_of_requests : List Message → TaskState
  unfolding clip
  state_of_requests [] = record { goal = []; recent_requests = [] }
  state_of_requests (first ∷ others) = record {
    goal = clip t first.content 120 false;
    recent_requests = map (λ (m : Message). clip t m.content 120 true) (last 3 (first ∷ others));
  }

  unfoldable pub task_state : List Message → TaskState
  unfolding state_of_requests
  task_state messages = state_of_requests (select (λ (m : Message). str_eq m.role "user") messages)

  unfoldable pub extracted_or_raw : List Message → Text → Text
  unfolding role_line joined
  extracted_or_raw messages [] =
      codes "【保底原文】" ++ 10 ∷ joined (10 ∷ []) (map (λ m. role_line t m 400) (last 4 messages))
  extracted_or_raw messages (c ∷ extracted) = c ∷ extracted

  abbrev pub previous_section : Text → List Text
  previous_section [] = []
  previous_section (c ∷ previous) =
      truncate_tokens t true (max 200 (limits.summary_tokens / 4))
        (strip t.unicode.is_space (c ∷ previous))
      ∷ []

  abbrev pub new_section : List Message → List Text
  new_section [] = []
  new_section (m ∷ messages) =
      extracted_or_raw (m ∷ messages)
        (render_summary_sections t (extract_summary_sections t p (m ∷ messages)))
      ∷ []

  unfoldable pub bounded_sections : List Text → List Text → List Text
  unfolding append_with_budget
  bounded_sections parts [] = parts
  bounded_sections parts (text ∷ sections) =
      bounded_sections (append_with_budget t parts text limits.summary_tokens) sections

  unfoldable pub merge_summary : Text → List Message → Text
  unfolding bounded_sections joined strip extract_summary_sections render_summary_sections
  merge_summary previous messages =
      truncate_tokens t true limits.summary_tokens (
        joined blank_line (bounded_sections [] (previous_section previous ++ new_section messages)))

  abbrev pub summary_part : Option Text → List Text
  summary_part none = []
  summary_part (some []) = []
  summary_part (some (c ∷ summary)) =
      (codes "【历史压缩摘要】" ++ 10 ∷ truncate_tokens t true limits.summary_tokens (c ∷ summary)) ∷ []

  abbrev pub recent_lines_part : List Text → List Text
  recent_lines_part [] = []
  recent_lines_part (line ∷ lines) = (codes "【最近原始消息】" ++ 10 ∷ joined (10 ∷ []) (line ∷ lines)) ∷ []

  unfoldable pub recent_notes_part : List Message → Text → List Text
  unfolding role_line joined fit_recent_lines
  recent_notes_part recent [] =
      recent_lines_part
        (fit_recent_lines t (map (λ m. role_line t m 400) recent) limits.recent_tokens)
  recent_notes_part recent (c ∷ notes) =
      (codes "【最近对话要点】" ++ 10 ∷ truncate_tokens t true limits.recent_tokens (c ∷ notes)) ∷ []

  abbrev pub recent_part : List Message → List Text
  recent_part [] = []
  recent_part (m ∷ recent) =
      recent_notes_part (m ∷ recent)
        (render_summary_sections t (extract_summary_sections t p (m ∷ recent)))

  unfoldable pub bounded_history : Option Text → List Message → Text
  unfolding recent_notes_part joined extract_summary_sections render_summary_sections
      truncate_tokens
  bounded_history summary recent = truncate_tokens t true limits.memory_tokens (
      default_to (codes "（无历史对话）") (joined blank_line (summary_part summary ++ recent_part recent)))

  unfoldable pub task_text : TaskState → Text
  unfolding joined truncate_tokens
  task_text state = truncate_tokens t true limits.state_tokens (
      codes "目标："
      ++ default_to (codes "未明确") state.goal
      ++ 10
        ∷ (codes "最近请求："
            ++ 10 ∷ joined (10 ∷ []) (map (λ item. codes "- " ++ item) state.recent_requests)))
