-- ===== src/Tests/MemoryRuns.antt =====
-- The memory on concrete inputs.
use agentic_learning_platfor.Base.{
  sub_runs, squeezed, words, get, ℕ, codes, ◌≡◌, refl, true, false, Option, none, some, List, [],
  ◌∷◌, map, strip, lstrip, rstrip,
}
use agentic_learning_platfor.Memory.Upsert.{
  Memory, Request, has_key, find_first, upsert_memory, effective_weight, insert_or_update,
  assign_first, add_or_assign, opened, upsert_session, flush, insert_all,
}
use agentic_learning_platfor.Memory.Consolidator.{
  MemoryEvent, consolidate_memory_events, consolidate_rows, accepted, request_of, policy_of, slug,
}
use agentic_learning_platfor.Tests.{ascii}

-- A memory that has been set aside.
abbrev archived : Memory
archived = record {
  user_id = 3;
  memory_type = "agent_profile";
  key = codes "go";
  keyword = codes "go";
  memory_key = codes "go";
  category = "weak_point";
  value = codes "channels";
  weight = 8000;
  confidence = none;
  source = "agent";
  is_active = some 0;
  source_event_id = 1;
  source_task_id = none;
  updated_at = 10;
}

abbrev asked : Request
asked = record {
  user_id = 3;
  memory_key = codes "go";
  category = "weak_point";
  value = codes "select";
  weight = 15000;
  confidence = 9000;
  source_event_id = 2;
  source_task_id = some "t";
}

abbrev halved : Memory → ℕ
halved row = 4000

activity : List Memory → List (Option ℕ)
activity table = map (λ (row : Memory). row.is_active) table

-- PostgreSQL's statement makes the memory active again, the session does not.
activity_of_upsert :
    (activity (upsert_memory halved true 20 asked (opened (archived ∷ []))).rows ≡ some 1 ∷ [])
    × (activity (upsert_memory halved false 20 asked (opened (archived ∷ []))).rows ≡ some 0 ∷ [])
unfolding activity upsert_memory effective_weight find_first has_key insert_or_update assign_first
    add_or_assign
activity_of_upsert = (refl, refl)

-- The archived memory is the one that is found.
archived_is_found : find_first asked (archived ∷ []) ≡ some archived
unfolding find_first has_key
archived_is_found = refl

abbrev event : MemoryEvent
event = record {
  id = 9;
  event_type = "weak_point_detected";
  category = none;
  content = codes "  go   select ";
  metadata = record { memory_approved = true; memory_key = none; confidence = none; weight = none };
  task_id = none;
}

slug_of_text : slug ascii (codes "Weak_point Go, select!") 128 ≡ codes "weak_point_go_select"
unfolding slug sub_runs strip lstrip rstrip
slug_of_text = refl

-- Two events with one key, as the model of the memory may name it.
abbrev with_key : ℕ → MemoryEvent
with_key id = record event {
  id = id;
  metadata = record {
    memory_approved = true;
    memory_key = some (codes "go");
    confidence = none;
    weight = none;
  };
}

-- On another database than PostgreSQL their key is twice among the rows that are added.
repeated_key_fails :
    consolidate_memory_events ascii halved false 6500 20
      (some 3)
      40
      (with_key 10 ∷ with_key 9 ∷ [])
      []
    ≡ none
unfolding consolidate_memory_events consolidate_rows accepted request_of policy_of squeezed words
    upsert_memory upsert_session effective_weight find_first add_or_assign flush insert_all get
    has_key
repeated_key_fails = refl
