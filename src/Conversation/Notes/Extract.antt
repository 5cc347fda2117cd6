-- ===== src/Conversation/Notes/Extract.antt =====
-- What is taken from each message, and when all are read (services/conversation_context.py,
-- `_extract_summary_sections`).
use agentic_learning_platfor.Base.{
  ℕ, String, Text, Unicode, codes, contains, starts_with, strip, joined, Bool, true, not, ◌&&◌,
  List, [], ◌∷◌, ◌++◌, map, any, if◌then◌else◌, put, str_eq,
}
use agentic_learning_platfor.TokenBudget.{Tokenizer, truncate_tokens}
use agentic_learning_platfor.Conversation.Notes.{
  Message, Patterns, Section, Sections, ordered_sections, project_keywords, forbidding_words,
  deciding_words, asking_words, last, is_blank, put_text, section_of, add_unique, message_text,
  is_short_command,
}

pub record Extracted : Type 0 where
  pub sections : Sections
  pub raw_candidates : List Text
  pub metrics : List (Text × Text)
  pub configs : List (Text × Text)

module _ (t : Tokenizer) where
  abbrev u : Unicode
  u = t.unicode

  -- _add_unique(sections[key], item, max_items=…), for one item and for several.
  unfoldable pub note : String → ℕ → Text → Sections → Sections
  unfolding add_unique
  note key max_items item sections =
      put key (add_unique t (section_of key sections) item max_items) sections

  unfoldable pub note_all : String → ℕ → List Text → Sections → Sections
  unfolding note
  note_all key max_items [] sections = sections
  note_all key max_items (item ∷ items) sections =
      note_all key max_items items (note key max_items item sections)

  abbrev pub note_if : Bool → String → ℕ → Text → Sections → Sections
  note_if wanted key max_items item sections =
      if wanted then note key max_items item sections else sections

  unfoldable pub user_notes : Text → Sections → Sections
  unfolding note is_short_command
  user_notes text sections =
      let long = not (is_short_command t text) in
      note_if (any (starts_with text) asking_words && long) "todos" 8 text (
        note_if (any (contains text) deciding_words && long) "decisions" 10 text
          (note_if (any (contains text) forbidding_words) "constraints" 10 text sections))

  unfoldable pub project_notes : Text → Sections → Sections
  unfolding note truncate_tokens
  project_notes text sections =
      note_if (any (λ keyword. contains (u.lower text) (u.lower keyword)) project_keywords)
        "project_context" 8 (truncate_tokens t true 90 text) sections

  abbrev pub raw_label : String → Text
  raw_label role =
      if str_eq role "user"
      then codes "用户"
      else if str_eq role "assistant"
      then codes "助手"
      else codes role

  module _ (p : Patterns) where
    abbrev pub put_configs : List Text → List (Text × Text) → List (Text × Text)
    put_configs [] configs = configs
    put_configs (match' ∷ matches) configs =
        put_configs matches (put_text (p.config_key match') (strip u.is_space match') configs)

    abbrev pub put_metrics : List (Text × Text) → List (Text × Text) → List (Text × Text)
    put_metrics [] metrics = metrics
    put_metrics ((metric, value) ∷ matches) metrics =
        put_metrics matches (put_text metric value metrics)

    unfoldable pub found_notes : Text → Sections → Sections
    unfolding note_all project_notes
    found_notes text sections = project_notes text (
        note_all "config_params" 12 (map (strip u.is_space) (p.params text))
          (note_all "paths" 10 (p.paths text) sections))

    -- The body of the loop, for a message with a text.
    unfoldable pub extract_text : String → Text → Extracted → Extracted
    unfolding found_notes user_notes is_short_command truncate_tokens
    extract_text role text e =
        let found = found_notes text e.sections in
        let raw = codes "[" ++ raw_label role ++ codes "] " ++ truncate_tokens t true 120 text in
        record {
          sections = if str_eq role "user" then user_notes text found else found;
          raw_candidates =
              if is_short_command t text then e.raw_candidates else e.raw_candidates ++ raw ∷ [];
          metrics = put_metrics (p.metrics text) e.metrics;
          configs = put_configs (p.configs text) e.configs;
        }

    unfoldable pub extract_messages : List Message → Extracted → Extracted
    unfolding extract_text message_text
    extract_messages [] e = e
    extract_messages (message ∷ messages) e =
        let text = message_text t message 260 in
        extract_messages messages (if is_blank text then e else extract_text message.role text e)

    abbrev pub metric_note : List (Text × Text) → Text
    metric_note metrics =
        codes "最近 RAGAS/评测指标："
        ++ joined (codes "，")
            (map (λ (entry : Text × Text). entry.0 ++ codes "=" ++ entry.1) metrics)

    abbrev pub note_metrics : List (Text × Text) → Sections → Sections
    note_metrics [] sections = sections
    note_metrics (m ∷ metrics) sections = note "run_results" 6 (metric_note (m ∷ metrics)) sections

    abbrev pub empty_sections : Sections
    empty_sections = map (λ (s : Section). (s.key, [])) ordered_sections

    abbrev pub nothing_yet : Extracted
    nothing_yet = record {
      sections = empty_sections;
      raw_candidates = [];
      metrics = [];
      configs = [];
    }

    -- After the loop.
    unfoldable pub with_last_values : Extracted → Sections
    unfolding note_all
    with_last_values e = note_all "raw_fallback" 4 (last 4 e.raw_candidates) (
        note_metrics e.metrics (
          note_all "config_params" 12 (map (λ (entry : Text × Text). entry.1) e.configs)
            e.sections))

    unfoldable pub extract_summary_sections : List Message → Sections
    unfolding extract_messages with_last_values
    extract_summary_sections messages = with_last_values (extract_messages messages nothing_yet)
