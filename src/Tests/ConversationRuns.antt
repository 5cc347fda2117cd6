-- ===== src/Tests/ConversationRuns.antt =====
-- The context of a conversation on concrete inputs.
use agentic_learning_platfor.Base.{
  ℕ, ◌+◌, ◌≤◌, String, Text, codes, ◌≡◌, refl, false, Option, none, some, List, [], ◌∷◌, drop,
  length, arith, joined, words, squeezed, contains, starts_with, strip, lstrip, rstrip, get, put,
}
use agentic_learning_platfor.TokenBudget.{Tokenizer, count_tokens, truncate_tokens}
use agentic_learning_platfor.Conversation.Notes.{
  Message, Patterns, last, section_of, raw_role_line, add_unique, message_text, is_short_command,
}
use agentic_learning_platfor.Conversation.Notes.Extract.{
  extract_summary_sections, extract_messages, extract_text, found_notes, user_notes, project_notes,
  note, note_all, with_last_values,
}
use agentic_learning_platfor.Conversation.Notes.Laws.{AllTidy, extract_summary_sections-AllTidy}
use agentic_learning_platfor.Conversation.Context.{
  task_state, Limits, Conversation, bounded_history,
}
use agentic_learning_platfor.Conversation.Context.Compaction.{
  after, is_over, compact, compact_count, build_conversation_context,
}
use agentic_learning_platfor.Conversation.Context.Compaction.Order.{Ordered}
use agentic_learning_platfor.Conversation.Context.Compaction.Laws.{
  build_conversation_context-Window, build_conversation_context-gap,
}
use agentic_learning_platfor.Tests.{ascii}

-- A tokenizer for which each character is a token.
abbrev counting : Tokenizer
counting = record {
  unicode = ascii;
  encode = λ text. some text;
  decode = λ tokens. some tokens;
  scaled = λ length budget tokens. length;
}

abbrev no_matches : Patterns
no_matches = record {
  paths = λ text. [];
  configs = λ text. [];
  params = λ text. [];
  metrics = λ text. [];
  config_key = λ text. text;
}

abbrev said : ℕ → String → String → Message
said id role content = record { id = id; role = role; content = codes content }

abbrev dialogue : List Message
dialogue =
    said 4 "user" "不要 Redis" ∷ said 5 "assistant" "fine then" ∷ said 7 "user" "先 read the docs" ∷ []

notes_of_dialogue :
    section_of "constraints" (extract_summary_sections counting no_matches dialogue)
    ≡ codes "不要 Redis" ∷ []
unfolding extract_summary_sections extract_messages extract_text found_notes user_notes
    project_notes note note_all with_last_values add_unique message_text is_short_command
    truncate_tokens squeezed words joined contains starts_with strip lstrip rstrip get put
notes_of_dialogue = refl

extract_summary_sections-AllTidy_example :
    AllTidy (extract_summary_sections counting no_matches dialogue)
extract_summary_sections-AllTidy_example =
    extract_summary_sections-AllTidy counting no_matches dialogue

dialogue-Ordered : Ordered dialogue
dialogue-Ordered = ((omega arith, (omega arith, tt)), ((omega arith, tt), (tt, tt)))

abbrev limits_of : ℕ → Limits
limits_of more = record {
  history = 1;
  threshold = 3 + more;
  memory_tokens = 200;
  summary_tokens = 100;
  recent_tokens = 100;
  state_tokens = 50;
  history_below = omega arith;
}

abbrev conversation : Conversation
conversation = record { summary = none; summary_until = 3; task_state = none }

-- The threshold is reached: two messages are compacted, and the third one is shown.
abbrev summary_now : Option Text
summary_now =
    (compact counting no_matches (limits_of 0) conversation (after 3 dialogue)).conversation.summary

build_conversation_context-Window_example :
    ((build_conversation_context counting no_matches
        (limits_of 0)
        (some conversation)
        dialogue).1.history
      ≡ bounded_history counting no_matches
          (limits_of 0)
          summary_now
          (last 1 (drop (compact_count counting no_matches (limits_of 0) dialogue) dialogue)))
    × (after
          (compact counting no_matches
            (limits_of 0)
            conversation
            dialogue).conversation.summary_until
          dialogue
        ≡ drop (compact_count counting no_matches (limits_of 0) dialogue) dialogue)
    × (3 ≤ 3
        → last 1 (drop (compact_count counting no_matches (limits_of 0) dialogue) dialogue)
          ≡ drop (compact_count counting no_matches (limits_of 0) dialogue) dialogue)
build_conversation_context-Window_example =
    build_conversation_context-Window counting no_matches (limits_of 0) conversation dialogue
      dialogue-Ordered

-- One below the threshold: the messages 4 and 5 are in neither the summary nor the history.
build_conversation_context-gap_example :
    ((build_conversation_context counting no_matches (limits_of 1) (some conversation) dialogue).0
      ≡ some (record conversation {
        task_state = some (task_state counting no_matches (limits_of 1) dialogue);
      }))
    × ((build_conversation_context counting no_matches
          (limits_of 1)
          (some conversation)
          dialogue).1.compacted
        ≡ false)
    × ((build_conversation_context counting no_matches
          (limits_of 1)
          (some conversation)
          dialogue).1.history
        ≡ bounded_history counting no_matches (limits_of 1) none (last 1 dialogue))
    × (length (last 1 dialogue) ≡ 1)
unfolding is_over raw_role_line count_tokens squeezed words joined
build_conversation_context-gap_example =
    build_conversation_context-gap counting no_matches (limits_of 1) conversation dialogue
      dialogue-Ordered (omega arith) (omega arith) refl
