-- ===== src/Jobs/Lock.antt =====
-- The lock of a document's index job (backend/app/queue.py). Redis is a parameter: string keys that
-- expire, as its commands GET, SET NX EX, DEL and EXPIRE document them. The document's id stands for
-- the key f"lock:doc_index:{document_id}". Each operation takes the clock's reading in seconds, and
-- whether _get_client() has a client; a Lua script is one step of Redis.
pub mod Lease
pub mod Owners
use agentic_learning_platfor.Base.{
  ℕ, ◌+◌, ◌≤◌, String, ◌≡◌, Bool, true, false, Option, none, some, ltb, str_eq, if◌then◌else◌,
}

-- What a key holds at a reading of the clock, given its value and its end.
abbrev pub until : ℕ → String → ℕ → Option String
until end value t = if ltb t end then some value else none

pub record Redis : Type 1 where
  pub Store : Type 0
  pub read : ℕ → ℕ → Store → Option String
  pub set_nx : ℕ → ℕ → String → ℕ → Store → Store × Bool
  pub del : ℕ → Store → Store
  pub expire : ℕ → ℕ → ℕ → Store → Store
  pub set_nx_free :
      (now key : ℕ) (value : String) (ttl : ℕ) (s : Store)
      → read now key s ≡ none
      → ((set_nx now key value ttl s).1 ≡ true)
        × ((t : ℕ)
            → now ≤ t
            → read t key (set_nx now key value ttl s).0 ≡ until (now + ttl) value t)
  pub set_nx_taken :
      (now key : ℕ) (value : String) (ttl : ℕ) (s : Store) (other : String)
      → read now key s ≡ some other
      → set_nx now key value ttl s ≡ (s, false)
  pub read_del : (t key : ℕ) (s : Store) → read t key (del key s) ≡ none
  pub read_expire :
      (now key ttl : ℕ) (s : Store) (value : String)
      → read now key s ≡ some value
      → (t : ℕ) → now ≤ t
      → read t key (expire now key ttl s) ≡ until (now + ttl) value t

-- redis.call('get', KEYS[1]) == ARGV[1]
abbrev pub is_value : String → Option String → Bool
is_value value none = false
is_value value (some held) = str_eq held value

-- `ttl` is DOC_INDEX_LOCK_TTL_SECONDS.
module _ (redis : Redis) (ttl : ℕ) where
  unfoldable pub acquire_doc_index_lock :
      Bool → ℕ → ℕ → String → redis.Store → redis.Store × Option Bool
  acquire_doc_index_lock false now document_id task_id s = (s, none)
  acquire_doc_index_lock true now document_id task_id s =
      let r = redis.set_nx now document_id task_id ttl s in (r.0, some r.1)

  unfoldable pub release_doc_index_lock : Bool → ℕ → ℕ → String → redis.Store → redis.Store
  release_doc_index_lock false now document_id task_id s = s
  release_doc_index_lock true now document_id task_id s =
      if is_value task_id (redis.read now document_id s) then redis.del document_id s else s

  unfoldable pub refresh_doc_index_lock : Bool → ℕ → ℕ → String → redis.Store → redis.Store × Bool
  refresh_doc_index_lock false now document_id task_id s = (s, false)
  refresh_doc_index_lock true now document_id task_id s =
      if is_value task_id (redis.read now document_id s)
      then (redis.expire now document_id ttl s, true)
      else (s, false)
