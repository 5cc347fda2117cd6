-- ===== src/Memory/Upsert.antt =====
-- One memory that is merged into the table user_memories (memory/consolidator.py, `_upsert_memory`),
-- by the statement for PostgreSQL and by the session for other databases,
-- and the flush of that session (SessionLocal of core/database.py). Weights and confidences are
-- whole numbers in a fixed unit; the decay of a row's weight and the clock are parameters.
pub mod Laws
pub mod Unique
use agentic_learning_platfor.Base.{
  ℕ, zero, suc, ◌+◌, max, String, Text, same_text, Bool, true, false, ◌&&◌, Option, none, some,
  List, [], ◌∷◌, ◌++◌, any, ◌==◌, if◌then◌else◌, str_eq,
}

pub record Memory : Type 0 where
  pub user_id : ℕ
  pub memory_type : String
  pub key : Text
  pub keyword : Text
  pub memory_key : Text
  pub category : String
  pub value : Text
  pub weight : ℕ
  pub confidence : Option ℕ
  pub source : String
  pub is_active : Option ℕ
  pub source_event_id : ℕ
  pub source_task_id : Option String
  pub updated_at : ℕ

-- What an upsert is asked to store.
pub record Request : Type 0 where
  pub user_id : ℕ
  pub memory_key : Text
  pub category : String
  pub value : Text
  pub weight : ℕ
  pub confidence : ℕ
  pub source_event_id : ℕ
  pub source_task_id : Option String

-- The columns of uq_user_memory_keyword.
unfoldable pub has_key : Request → Memory → Bool
has_key r row =
    row.user_id == r.user_id && same_text row.keyword r.memory_key && str_eq row.category r.category

-- query(…).filter(…).first()
unfoldable pub find_first : Request → List Memory → Option Memory
find_first r [] = none
find_first r (row ∷ table) =
    let rest = find_first r table in if has_key r row then some row else rest

abbrev pub at_least : Option ℕ → ℕ → ℕ
at_least none confidence = confidence
at_least (some held) confidence = max held confidence

-- `values`, with the weight that is computed before.
abbrev pub inserted : ℕ → ℕ → Request → Memory
inserted now weight r = record {
  user_id = r.user_id;
  memory_type = "learner_profile";
  key = r.memory_key;
  keyword = r.memory_key;
  memory_key = r.memory_key;
  category = r.category;
  value = r.value;
  weight = weight;
  confidence = some r.confidence;
  source = "agent_consolidator";
  is_active = some 1;
  source_event_id = r.source_event_id;
  source_task_id = r.source_task_id;
  updated_at = now;
}

-- set_ of on_conflict_do_update.
abbrev pub on_conflict : ℕ → ℕ → Request → Memory → Memory
on_conflict now weight r row = record row {
  memory_key = r.memory_key;
  key = r.memory_key;
  value = r.value;
  weight = weight;
  confidence = some (at_least row.confidence r.confidence);
  source = "agent_consolidator";
  is_active = some 1;
  source_event_id = r.source_event_id;
  source_task_id = r.source_task_id;
  updated_at = now;
}

-- The assignments to `existing`. The column's onupdate sets updated_at when they are flushed.
abbrev pub assigned : ℕ → Request → Memory → Memory
assigned weight r row = record row {
  memory_key = r.memory_key;
  key = r.memory_key;
  value = r.value;
  weight = weight;
  confidence = some (at_least row.confidence r.confidence);
  source_event_id = r.source_event_id;
  source_task_id = r.source_task_id;
}

-- A session of SessionLocal, which has autoflush off: the rows of the table, of which those in memory
-- have their new columns already; the requests whose rows have changed; and the rows that were added
-- but are not in the table yet. A query does not find these.
pub record Session : Type 0 where
  pub rows : List Memory
  pub changed : List Request
  pub added : List Memory

abbrev pub opened : List Memory → Session
opened table = record { rows = table; changed = []; added = [] }

-- INSERT … ON CONFLICT DO UPDATE: the database finds the row in conflict itself.
unfoldable pub insert_or_update : ℕ → ℕ → Request → List Memory → List Memory
insert_or_update now weight r [] = inserted now weight r ∷ []
insert_or_update now weight r (row ∷ table) =
    let rest = insert_or_update now weight r table in
    if has_key r row then on_conflict now weight r row ∷ table else row ∷ rest

unfoldable pub assign_first : ℕ → Request → List Memory → List Memory
assign_first weight r [] = []
assign_first weight r (row ∷ table) =
    let rest = assign_first weight r table in
    if has_key r row then assigned weight r row ∷ table else row ∷ rest

abbrev pub touched : ℕ → Memory → Memory
touched now row = record row { updated_at = now }

-- The UPDATE of a row that has changed.
unfoldable pub touch_first : ℕ → Request → List Memory → List Memory
touch_first now r [] = []
touch_first now r (row ∷ table) =
    let rest = touch_first now r table in
    if has_key r row then touched now row ∷ table else row ∷ rest

unfoldable pub touch_all : ℕ → List Request → List Memory → List Memory
unfolding touch_first
touch_all now [] table = table
touch_all now (r ∷ requests) table = touch_all now requests (touch_first now r table)

-- uq_user_memory_keyword: no two rows have the same user, keyword and category.
abbrev pub same_key : Memory → Memory → Bool
same_key a b =
    a.user_id == b.user_id && same_text a.keyword b.keyword && str_eq a.category b.category

-- The INSERTs of the rows that were added. none: the IntegrityError of a key that is there.
unfoldable pub insert_all : List Memory → List Memory → Option (List Memory)
insert_all [] table = some table
insert_all (row ∷ added) table =
    let rest = insert_all added (table ++ row ∷ []) in
    if any (λ old. same_key old row) table then none else rest

abbrev pub updated : ℕ → List Request → Option (List Memory) → Option (List Memory)
updated now changed none = none
updated now changed (some table) = some (touch_all now changed table)

-- db.flush(): the INSERTs, then the UPDATEs.
unfoldable pub flush : ℕ → Session → Option (List Memory)
unfolding insert_all touch_all
flush now s = updated now s.changed (insert_all s.added s.rows)

module _ (decay : Memory → ℕ) where
  -- _compute_existing_weight
  abbrev pub existing_weight : Option Memory → ℕ
  existing_weight none = 0
  existing_weight (some row) = decay row

  unfoldable pub effective_weight : Request → List Memory → ℕ
  unfolding find_first
  effective_weight r table = existing_weight (find_first r table) + r.weight

  unfoldable pub upsert_postgresql : ℕ → Request → List Memory → List Memory
  unfolding effective_weight insert_or_update
  upsert_postgresql now r table = insert_or_update now (effective_weight r table) r table

  unfoldable pub add_or_assign : ℕ → ℕ → Request → Session → Option Memory → Session
  unfolding assign_first
  add_or_assign now weight r s none = record s { added = s.added ++ inserted now weight r ∷ [] }
  add_or_assign now weight r s (some existing) = record s {
    rows = assign_first weight r s.rows;
    changed = s.changed ++ r ∷ [];
  }

  unfoldable pub upsert_session : ℕ → Request → Session → Session
  unfolding effective_weight add_or_assign find_first
  upsert_session now r s = add_or_assign now (effective_weight r s.rows) r s (find_first r s.rows)

  -- `postgresql` is db.get_bind().dialect.name == "postgresql".
  unfoldable pub upsert_memory : Bool → ℕ → Request → Session → Session
  unfolding upsert_postgresql upsert_session
  upsert_memory true now r s = record s { rows = upsert_postgresql now r s.rows }
  upsert_memory false now r s = upsert_session now r s
