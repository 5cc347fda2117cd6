-- ===== src/Retrieval/Slots/Limit.antt =====
-- The workers that hold a slot, in whatever order they ask for it and give it back.
use agentic_learning_platfor.Base.{
  ℕ, ◌+◌, ◌≤◌, ◌<◌, String, ◌≡◌, ◌≢◌, Bool, true, false, none, some, List, [], All, All-map, length,
  arith, ltb, Bool-cases, inl, inr, Assoc, get, put, remove, get-put, get-remove,
}
use agentic_learning_platfor.Retrieval.Slots.{SortedSets, Different, try_acquire, release_slot}

-- The clock, Redis, and the tokens whose holders have not given them back, with the ends of their
-- leases.
pub record Shared (Store : Type 0) : Type 0 where
  pub now : ℕ
  pub store : Store
  pub held : Assoc ℕ

abbrev hold : Bool → String → ℕ → Assoc ℕ → Assoc ℕ
hold true token end held = put token end held
hold false token end held = held

module _ (redis : SortedSets) (concurrency ttl : ℕ) where
  abbrev pub acquire_step : String → Shared redis.Store → Shared redis.Store
  acquire_step token s =
      let r = try_acquire redis concurrency ttl s.now token s.store in
      record { now = s.now; store = r.0; held = hold r.1 token (s.now + ttl) s.held }

  pub data Step : Shared redis.Store → Shared redis.Store → Type 0 where
    tick : (s : Shared redis.Store) (wait : ℕ) → Step s (record s { now = s.now + wait })
    acquire : (s : Shared redis.Store) (token : String) → Step s (acquire_step token s)
    release :
        (s : Shared redis.Store) (token : String)
        → Step s (record s {
          store = release_slot redis concurrency ttl token s.store;
          held = remove token s.held;
        })

  pub data Reach (s : Shared redis.Store) : Shared redis.Store → Type 0 where
    here : Reach s s
    next : {t u : Shared redis.Store} → Reach s t → Step t u → Reach s u

  record IsLimited (s : Shared redis.Store) : Type 0 where
    limited : redis.zcard s.store ≤ concurrency
    recorded :
        (m : String) (end : ℕ)
        → get m s.held ≡ some end
        → s.now < end
        → redis.score m s.store ≡ some end

  try_acquire-IsLimited :
      (s : Shared redis.Store) (token : String) → IsLimited s → IsLimited (acquire_step token s)
  unfolding try_acquire
  try_acquire-IsLimited s token l =
      let live = redis.zremrangebyscore s.now s.store in
      elim (Bool-cases (ltb (redis.zcard live) concurrency)) [
        | inl e ↦ rw e (record {
          limited = ground (arith, redis.zcard_zadd (s.now + ttl) token live);
          recorded = λ m end h lt. ground (
            arith,
            get-put token m (s.now + ttl) s.held,
            redis.score_zadd (s.now + ttl) m token live,
            redis.score_zremrangebyscore s.now m s.store,
            l.recorded m end,
          );
        })
        | inr e ↦ rw e (record {
          limited = omega (arith, l.limited, redis.zcard_zremrangebyscore s.now s.store);
          recorded = λ m end h lt.
              ground (arith, redis.score_zremrangebyscore s.now m s.store, l.recorded m end);
        })
      ]

  Step-IsLimited : {s t : Shared redis.Store} → Step s t → IsLimited s → IsLimited t
  unfolding release_slot
  Step-IsLimited (tick s wait) l = record {
    limited = l.limited;
    recorded = λ m end h lt. l.recorded m end h (omega arith);
  }
  Step-IsLimited (acquire s token) l = try_acquire-IsLimited s token l
  Step-IsLimited (release s token) l = record {
    limited = omega (arith, l.limited, redis.zcard_zrem token s.store);
    recorded = λ m end h lt.
        ground
          (arith, get-remove token m s.held, redis.score_zrem m token s.store, l.recorded m end);
  }

  Reach-IsLimited : {s t : Shared redis.Store} → IsLimited s → Reach s t → IsLimited t
  Reach-IsLimited l here = l
  Reach-IsLimited l (next r step) = Step-IsLimited step (Reach-IsLimited l r)

  -- A worker holds its token, and its lease has not ended.
  abbrev pub IsLive : Shared redis.Store → String → Type 0
  IsLive s m = (end : ℕ) × (get m s.held ≡ some end) × (s.now < end)

  -- From an empty set on, whatever the workers do in whatever order, the tokens that are held and not
  -- expired are at most VISION_GLOBAL_CONCURRENCY.
  pub live_tokens_limited :
      (s t : Shared redis.Store) (ms : List String)
      → s.held ≡ []
      → redis.zcard s.store ≡ 0
      → Reach s t
      → Different ms
      → All (IsLive t) ms
      → length ms ≤ concurrency
  unfolding get
  live_tokens_limited s t ms none_held empty reach different live =
      let l = Reach-IsLimited (start s none_held empty) reach in
      let found =
        All-map (IsLive t) (λ m. redis.score m t.store ≢ none)
          (λ m h none_there. ground (arith, l.recorded m h.0 h.1 h.2)) ms live in
      omega (arith, l.limited, redis.zcard_counts ms t.store different found)
    where
      start : (s : Shared redis.Store) → s.held ≡ [] → redis.zcard s.store ≡ 0 → IsLimited s
      start s none_held empty = record {
        limited = omega arith;
        recorded = rw none_held (λ m end h. absurd (ground arith));
      }
