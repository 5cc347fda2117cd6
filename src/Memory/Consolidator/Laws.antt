-- ===== src/Memory/Consolidator/Laws.antt =====
-- What a consolidation stores: rows with unique keys, and items of approved and confident events.
use agentic_learning_platfor.Base.{
  squeezed, ℕ, ◌≤◌, min, max, ◌≡◌, ◌⊎◌, Bool, true, false, Option, none, some, List, [], ◌∷◌, any,
  All, length, str_eq, Unicode,
}
use agentic_learning_platfor.Memory.Upsert.{Memory, Request, Session}
use agentic_learning_platfor.Memory.Upsert.Unique.{IsUnique, IsReady, Apart}
use agentic_learning_platfor.Memory.Consolidator.{
  MemoryEvent, Item, memory_categories, or_default, accepted, selected,
}

abbrev pub In : MemoryEvent → List MemoryEvent → Type 0
In row [] = ⊥
In row (x ∷ rows) = (row ≡ x) ⊎ In row rows

-- The item comes from an event that was approved, and is confident enough, and its category is one of
-- the memory's.
pub record IsSound (min_confidence : ℕ) (events : List MemoryEvent) (item : Item) : Type 0 where
  pub row : MemoryEvent
  pub is_row : In row events
  pub same_id : item.source_event_id ≡ row.id
  pub approved : row.metadata.memory_approved ≡ true
  pub confident : min_confidence ≤ or_default 7500 row.metadata.confidence
  pub in_categories : any (str_eq item.category) memory_categories ≡ true

-- At most `n` items, each of them sound.
abbrev pub IsKept : ℕ → List MemoryEvent → ℕ → List Item → Type 0
IsKept min_confidence events n items =
    All (IsSound min_confidence events) items × (length items ≤ n)

-- The requests of the events that pass the guards.
abbrev pub cons_some : Option Request → List Request → List Request
cons_some none requests = requests
cons_some (some r) requests = r ∷ requests

module _ (u : Unicode) (min_confidence user_id : ℕ) where
  abbrev pub requests_of : List MemoryEvent → List Request
  requests_of [] = []
  requests_of (row ∷ rows) =
      cons_some (accepted u min_confidence user_id row (squeezed u.is_space row.content))
        (requests_of rows)

  module _ (decay : Memory → ℕ) (postgresql : Bool) (now : ℕ) where
    -- Before the rows that are left: the session is ready for their requests, and the items are sound.
    abbrev Going : List MemoryEvent → List Request → ℕ → Session × List Item → Type 0
    Going events requests n s = IsReady postgresql requests s.0 × IsKept min_confidence events n s.1

-- On PostgreSQL any requests will do; elsewhere they are for different rows.
abbrev pub IsFit : Bool → List Request → Type 0
IsFit true requests = Unit
IsFit false requests = Apart requests

module _ (u : Unicode) (decay : Memory → ℕ) (postgresql : Bool) (min_confidence now : ℕ) (limit : ℕ)
    (events : List MemoryEvent) (table : List Memory) where
  -- A consolidation succeeds, with a table that has unique keys, and sound items, at most as many as
  -- the limit, held between 1 and 200.
  abbrev pub Succeeds : Option (List Memory × List Item) → Type 0
  Succeeds o =
      (s : List Memory × List Item) × (o ≡ some s)
      × IsUnique s.0
      × IsKept min_confidence events (max 1 (min limit 200)) s.1

  abbrev pub asked_by : Option ℕ → List Request
  asked_by none = []
  asked_by (some user_id) = requests_of u min_confidence user_id (selected u limit events)
