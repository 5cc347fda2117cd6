-- ===== src/Conversation/Context/Compaction.antt =====
-- The compaction of a conversation (services/conversation_context.py, `build_conversation_context`).
-- Its queries read the list of all the conversation's messages, which is in the order of their ids.
pub mod Order
pub mod Laws
use agentic_learning_platfor.Base.{
  ℕ, zero, suc, ◌-◌, Text, codes, joined, Bool, true, false, ◌&&◌, ◌||◌, Option, none, some, List,
  [], ◌∷◌, map, select, length, take, drop, ltb, leb, ◌==◌, if◌then◌else◌,
}
use agentic_learning_platfor.TokenBudget.{Tokenizer, count_tokens}
use agentic_learning_platfor.Conversation.Notes.{Message, Patterns, last, raw_role_line}
use agentic_learning_platfor.Conversation.Context.{
  Limits, TaskState, Conversation, ConversationContext, or_empty, task_state, merge_summary,
  bounded_history, task_text,
}

-- uncompressed: the messages behind the summary.
abbrev pub after : ℕ → List Message → List Message
after checkpoint messages = select (λ (m : Message). ltb checkpoint m.id) messages

-- rows_to_compact[-1].id
abbrev pub last_id : ℕ → List Message → ℕ
last_id id [] = id
last_id id (m ∷ messages) = last_id m.id messages

-- What the compaction leaves: the conversation, the messages that it keeps, and whether it was one.
pub record Compacted : Type 0 where
  pub conversation : Conversation
  pub uncompressed : List Message
  pub compacted : Bool

abbrev pub keep_goal : Text → TaskState → TaskState
keep_goal [] state = state
keep_goal (c ∷ goal) state = record state { goal = c ∷ goal }

abbrev pub with_goal : Option TaskState → TaskState → TaskState
with_goal none state = state
with_goal (some previous) state = keep_goal previous.goal state

module _ (t : Tokenizer) (p : Patterns) (limits : Limits) where
  abbrev pub text_of : List Message → Text
  text_of messages = joined (10 ∷ []) (map (raw_role_line t) messages)

  unfoldable pub is_over : List Message → Bool
  unfolding raw_role_line joined count_tokens
  is_over messages =
      ltb limits.memory_tokens (count_tokens t (text_of messages))
      || ltb limits.memory_tokens (length (text_of messages))

  unfoldable pub compact_count : List Message → ℕ
  unfolding is_over
  compact_count messages =
      let surplus = length messages - limits.history in
      if leb limits.threshold (length messages) || is_over messages
      then (if surplus == 0 && is_over messages then 1 else surplus)
      else 0

  unfoldable pub compact_rows : Conversation → List Message → List Message → Compacted
  unfolding merge_summary
  compact_rows c [] kept = record { conversation = c; uncompressed = kept; compacted = false }
  compact_rows c (m ∷ rows) kept = record {
    conversation = record {
      summary = some (merge_summary t p limits (or_empty c.summary) (m ∷ rows));
      summary_until = last_id m.id rows;
      task_state = c.task_state;
    };
    uncompressed = kept;
    compacted = true;
  }

  unfoldable pub compact : Conversation → List Message → Compacted
  unfolding compact_count compact_rows
  compact c messages =
      let n = compact_count messages in compact_rows c (take n messages) (drop n messages)

  -- The last messages of all, less those that the summary has.
  unfoldable pub recent_of : ℕ → Conversation → List Message → List Message
  recent_of zero c messages = []
  recent_of (suc n) c messages = after c.summary_until (last (suc n) messages)

  unfoldable pub context_of :
      Compacted → List Message → TaskState → Conversation × ConversationContext
  unfolding recent_of bounded_history task_text
  context_of k messages state = (
    record k.conversation { task_state = some state },
    record {
      history =
          bounded_history t p limits k.conversation.summary
            (recent_of limits.history k.conversation messages);
      task_state = task_text t p limits state;
      compacted = k.compacted;
    },
  )

  unfoldable pub build_conversation_context :
      Option Conversation → List Message → Option Conversation × ConversationContext
  unfolding compact context_of task_state
  build_conversation_context none messages =
      (none, record { history = codes "（无历史对话）"; task_state = codes "（无任务状态）"; compacted = false })
  build_conversation_context (some c) messages =
      let state = with_goal c.task_state (task_state t p limits (after c.summary_until messages)) in
      let r = context_of (compact c (after c.summary_until messages)) messages state in
      (some r.0, r.1)
