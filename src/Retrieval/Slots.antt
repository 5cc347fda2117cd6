-- ===== src/Retrieval/Slots.antt =====
-- The slots of the vision model that all workers share (rag/distributed_limit.py). Redis is a
-- parameter: a sorted set of tokens by the end of their lease in milliseconds, as ZREMRANGEBYSCORE,
-- ZCARD, ZADD and ZREM document it. A Lua script is one step. The expiry of the whole key lies behind
-- the end of every lease, so that it takes none away, and is left out.
pub mod Limit
use agentic_learning_platfor.Base.{
  ℕ, ◌+◌, ◌≤◌, ◌≡◌, ◌≢◌, String, Bool, true, false, Option, none, some, List, [], ◌∷◌, any, All,
  length, ltb, leb, str_eq, if◌then◌else◌,
}

-- No text of the list is there twice.
abbrev pub Different : List String → Type 0
Different [] = Unit
Different (x ∷ xs) = (any (str_eq x) xs ≡ false) × Different xs

abbrev pub unless_up_to : ℕ → Option ℕ → Option ℕ
unless_up_to now none = none
unless_up_to now (some end) = if leb end now then none else some end

pub record SortedSets : Type 1 where
  pub Store : Type 0
  pub score : String → Store → Option ℕ
  pub zcard : Store → ℕ
  pub zremrangebyscore : ℕ → Store → Store
  pub zadd : ℕ → String → Store → Store
  pub zrem : String → Store → Store
  pub score_zremrangebyscore :
      (now : ℕ) (m : String) (s : Store)
      → score m (zremrangebyscore now s) ≡ unless_up_to now (score m s)
  pub score_zadd :
      (end : ℕ) (m token : String) (s : Store)
      → score m (zadd end token s) ≡ (if str_eq token m then some end else score m s)
  pub score_zrem :
      (m token : String) (s : Store)
      → score m (zrem token s) ≡ (if str_eq token m then none else score m s)
  pub zcard_zremrangebyscore : (now : ℕ) (s : Store) → zcard (zremrangebyscore now s) ≤ zcard s
  pub zcard_zadd : (end : ℕ) (token : String) (s : Store) → zcard (zadd end token s) ≤ zcard s + 1
  pub zcard_zrem : (token : String) (s : Store) → zcard (zrem token s) ≤ zcard s
  pub zcard_counts :
      (ms : List String) (s : Store)
      → Different ms
      → All (λ m. score m s ≢ none) ms
      → length ms ≤ zcard s

-- `concurrency` is VISION_GLOBAL_CONCURRENCY, and `ttl` VISION_GLOBAL_SLOT_TTL_SECONDS * 1000.
module _ (redis : SortedSets) (concurrency ttl : ℕ) where
  unfoldable pub try_acquire : ℕ → String → redis.Store → redis.Store × Bool
  try_acquire now token s =
      let live = redis.zremrangebyscore now s in
      if ltb (redis.zcard live) concurrency
      then (redis.zadd (now + ttl) token live, true)
      else (live, false)

  unfoldable pub release_slot : String → redis.Store → redis.Store
  release_slot token s = redis.zrem token s
