-- ===== src/Memory/Consolidator.antt =====
-- The events that are merged into the memory (memory/consolidator.py, `consolidate_memory_events`).
-- The query's rows are a list, newest first. Weights and confidences are whole numbers, ten thousand
-- for 1; an empty text of the metadata, and a number 0, is a value that is missing.
pub mod Laws
use agentic_learning_platfor.Base.{
  ℕ, zero, suc, ◌+◌, min, max, String, Text, codes, Unicode, strip, squeezed, sub_runs, Bool, true,
  false, not, ◌&&◌, ◌||◌, Option, none, some, List, [], ◌∷◌, ◌++◌, any, length, take, reverse, ltb,
  leb, ◌==◌, if◌then◌else◌, Assoc, get, str_eq,
}
use agentic_learning_platfor.TokenBudget.{between}
use agentic_learning_platfor.Memory.Upsert.{Memory, Request, Session, opened, flush, upsert_memory}

abbrev pub consolidation_policy : Assoc (String × ℕ)
consolidation_policy =
    ("user_goal_set", ("learning_goal", 12000))
    ∷ ("weak_point_detected", ("weak_point", 15000))
    ∷ ("topic_mastered", ("mastered_topic", 11000))
    ∷ ("project_gap_found", ("project_gap", 14000))
    ∷ ("constraint_confirmed", ("constraint", 13000))
    ∷ ("preference_detected", ("preference", 11000))
    ∷ ("resume_feedback_received", ("resume_feedback", 14000))
    ∷ ("project_context_updated", ("project_context", 10000))
    ∷ ("task_completed", ("project_context", 6000))
    ∷ ("verification_failed", ("weak_point", 8000))
    ∷ []

abbrev pub memory_categories : List String
memory_categories =
    "learning_goal" ∷ "career_goal" ∷ "project_context" ∷ "weak_point" ∷ "mastered_topic"
    ∷ "preference" ∷ "constraint" ∷ "tech_stack" ∷ "resume_feedback" ∷ "project_gap" ∷ "other" ∷ []

-- What _load_metadata gives, with the keys that the code reads.
pub record Metadata : Type 0 where
  pub memory_approved : Bool
  pub memory_key : Option Text
  pub confidence : Option ℕ
  pub weight : Option ℕ

pub record MemoryEvent : Type 0 where
  pub id : ℕ
  pub event_type : String
  pub category : Option String
  pub content : Text
  pub metadata : Metadata
  pub task_id : Option String

pub record Item : Type 0 where
  pub memory_key : Text
  pub category : String
  pub value : Text
  pub source_event_id : ℕ

abbrev pub or_default {ℓ} : {A : Type ℓ} → A → Option A → A
or_default default none = default
or_default default (some value) = value

abbrev pub or_memory : Text → Text
or_memory [] = codes "memory"
or_memory (c ∷ text) = c ∷ text

module _ (u : Unicode) where
  -- [^\w\u4e00-\u9fff.-]
  abbrev pub is_sluggish : ℕ → Bool
  is_sluggish c = not (u.is_word c || between 0x4e00 0x9fff c || c == 46 || c == 45)

  unfoldable pub slug : Text → ℕ → Text
  unfolding sub_runs strip
  slug text max_len = take max_len (
      or_memory (
        strip (λ c. c == 95)
          (sub_runs is_sluggish 95 false
            (sub_runs u.is_space 95 false (u.lower (strip u.is_space text))))))

  abbrev pub known : String → String
  known category = if any (str_eq category) memory_categories then category else "other"

  unfoldable pub policy_of : MemoryEvent → String × ℕ
  unfolding get
  policy_of row =
      or_default (or_default "other" row.category, 4000) (get row.event_type consolidation_policy)

  abbrev pub category_of : MemoryEvent → String
  category_of row = known (policy_of row).0

  -- The request for an event with a value.
  unfoldable pub request_of : ℕ → MemoryEvent → Text → Request
  unfolding policy_of slug
  request_of user_id row value = record {
    user_id = user_id;
    memory_key =
        or_default (slug (codes (category_of row) ++ 95 ∷ take 60 value) 128)
          row.metadata.memory_key;
    category = category_of row;
    value = value;
    weight = or_default (policy_of row).1 row.metadata.weight;
    confidence = or_default 7500 row.metadata.confidence;
    source_event_id = row.id;
    source_task_id = row.task_id;
  }

  abbrev pub item_of : Request → Item
  item_of r = record {
    memory_key = r.memory_key;
    category = r.category;
    value = r.value;
    source_event_id = r.source_event_id;
  }

  -- The three `continue`s of the loop.
  unfoldable pub accepted : ℕ → ℕ → MemoryEvent → Text → Option Request
  unfolding request_of
  accepted min_confidence user_id row [] = none
  accepted min_confidence user_id row (c ∷ value) =
      let r = request_of user_id row (c ∷ value) in
      if not row.metadata.memory_approved
      then none
      else if ltb r.confidence min_confidence
      then none
      else some r

  module _ (decay : Memory → ℕ) (postgresql : Bool) (min_confidence now user_id : ℕ) where
    abbrev pub merged : Option Request → Session × List Item → Session × List Item
    merged none s = s
    merged (some r) s = (upsert_memory decay postgresql now r s.0, s.1 ++ item_of r ∷ [])

    abbrev pub read : MemoryEvent → Option Request
    read row = accepted min_confidence user_id row (squeezed u.is_space row.content)

    unfoldable pub consolidate_rows : List MemoryEvent → Session × List Item → Session × List Item
    unfolding accepted upsert_memory squeezed
    consolidate_rows [] s = s
    consolidate_rows (row ∷ rows) s = consolidate_rows rows (merged (read row) s)

  abbrev pub with_items : List Item → Option (List Memory) → Option (List Memory × List Item)
  with_items items none = none
  with_items items (some table) = some (table, items)

  -- The events of the user that the query selects, newest first.
  abbrev pub selected : ℕ → List MemoryEvent → List MemoryEvent
  selected limit events = reverse (take (max 1 (min limit 200)) events)

  -- The events of the user, newest first, and the table, in a session that has nothing pending. none:
  -- the IntegrityError of db.flush().
  unfoldable pub consolidate_memory_events :
      (Memory → ℕ)
      → Bool
      → ℕ
      → ℕ
      → Option ℕ
      → ℕ
      → List MemoryEvent
      → List Memory
      → Option (List Memory × List Item)
  unfolding consolidate_rows flush
  consolidate_memory_events decay postgresql min_confidence now none limit events table =
      some (table, [])
  consolidate_memory_events decay postgresql min_confidence now (some user_id) limit events table =
      let s =
        consolidate_rows decay postgresql min_confidence now user_id (selected limit events)
          (opened table, []) in
      with_items s.1 (flush now s.0)
