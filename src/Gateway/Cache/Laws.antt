-- ===== src/Gateway/Cache/Laws.antt =====
-- The cache returns what was stored, for as long as it is fresh and under its own key only.
use Prim.Native.String
use Prim.Native.Char.{code}
use text.Mathlib.TextLemmas.{append_cancel_left, cons-append}
use agentic_learning_platfor.Base.{
  ℕ, ◌+◌, ◌≤◌, ◌<◌, String, ◌≡◌, refl, ap, sym, ◌∙◌, subst, none, some, arith, get, put,
  get-put_self, get-put_ne, get-remove, eq_refl,
}
use agentic_learning_platfor.Gateway.Cache.{
  LlmResponse, response_to_json, response_from_json, Role, planner, architect, judge, role_name,
  cache_key, redis_cache_key, Cache, CacheEntry, RedisRead, missing, found, cache_get, cache_set,
}

-- A response that is written to Redis reads back as it was.
pub response_from_json-to_json :
    (r : LlmResponse) → response_from_json (response_to_json r) ≡ some r
unfolding response_to_json response_from_json
response_from_json-to_json r = refl

module _ (ttl : ℕ) (role : Role) (hash : String) where
  -- A response that was stored at the reading t is returned, and the cache left as it is, at every
  -- later reading before the time to live is over, whatever Redis would say.
  pub cache_get-set :
      (t now later : ℕ) (redis : String → RedisRead) (r : LlmResponse) (cache : Cache)
      → now < t + ttl
      → t ≤ now
      → cache_get ttl now later redis role hash (cache_set ttl t role hash r cache).0
        ≡ ((cache_set ttl t role hash r cache).0, some r)
  unfolding cache_get cache_set
  cache_get-set t now later redis r cache h k =
      ground
        (arith, get-put_self (cache_key role hash) (record { response = r; created_at = t }) cache)

  -- Past its time to live a stored response is not returned any more: with nothing in Redis the answer
  -- is none, and the entry is gone.
  cache_get-expired :
      (t now later : ℕ) (redis : String → RedisRead) (r : LlmResponse) (cache : Cache)
      → t + ttl ≤ now
      → redis (redis_cache_key role hash) ≡ missing
      → 0 < ttl
      → let stored = (cache_set ttl t role hash r cache).0 in
        let (cache', hit) = cache_get ttl now later redis role hash stored in
        (hit ≡ none) × (get (cache_key role hash) cache' ≡ none)
  unfolding cache_get cache_set
  cache_get-expired t now later redis r cache h e pos =
      let entry : CacheEntry = record { response = r; created_at = t } in
      let key = cache_key role hash in
      ground
        (arith, get-put_self key entry cache, get-remove key key (put key entry cache), eq_refl key)

  -- A hit in Redis fills the process's cache, so that the next read before the time to live is over
  -- has the same answer without Redis.
  cache_get_twice :
      (t later now after : ℕ) (redis redis' : String → RedisRead) (r : LlmResponse) (cache : Cache)
      → 0 < ttl
      → get (cache_key role hash) cache ≡ none
      → redis (redis_cache_key role hash) ≡ found (response_to_json r)
      → now < later + ttl
      → (cache_get ttl now after redis' role hash (cache_get ttl t later redis role hash cache).0).1
        ≡ some r
  unfolding cache_get response_to_json response_from_json
  cache_get_twice t later now after redis redis' r cache pos e f h =
      let entry : CacheEntry = record { response = r; created_at = later } in
      ground (arith, get-put_self (cache_key role hash) entry cache)

first : String → ℕ
first String.[] = 0
first (String.◌∷◌ c s) = code c

initial : Role → ℕ
initial planner = 112
initial architect = 97
initial judge = 106

first-cache_key : (role : Role) (hash : String) → first (cache_key role hash) ≡ initial role
unfolding first cache_key initial
first-cache_key planner hash = ap first (cons-append "p" "lanner" (String.◌++◌ ":" hash))
first-cache_key architect hash = ap first (cons-append "a" "rchitect" (String.◌++◌ ":" hash))
first-cache_key judge hash = ap first (cons-append "j" "udge" (String.◌++◌ ":" hash))

same_role : (role role' : Role) → initial role ≡ initial role' → role ≡ role'
unfolding initial
same_role role role' h = ground arith

same_hash :
    (role : Role) (hash hash' : String) → cache_key role hash ≡ cache_key role hash' → hash ≡ hash'
unfolding cache_key
same_hash role hash hash' e = append_cancel_left ":" _ _ (append_cancel_left (role_name role) _ _ e)

-- Two requests share an entry only if they have the same role and the same hash of the prompt.
cache_key-injective :
    (role role' : Role) (hash hash' : String)
    → cache_key role hash ≡ cache_key role' hash'
    → (role ≡ role') × (hash ≡ hash')
cache_key-injective role role' hash hash' e =
    let r : role ≡ role' =
      same_role role role'
        (sym (first-cache_key role hash) ∙ ap first e ∙ first-cache_key role' hash') in
    (r, same_hash role' hash hash' (subst (λ x. cache_key x hash ≡ cache_key role' hash') r e))

-- Storing a response never changes what is read for another role or another hash of the prompt.
cache_get-other :
    (ttl t now later : ℕ) (redis : String → RedisRead) (r : LlmResponse) (cache : Cache)
    (role role' : Role) (hash hash' : String)
    → ¬ ((role ≡ role') × (hash ≡ hash'))
    → (cache_get ttl now later redis role' hash' (cache_set ttl t role hash r cache).0).1
      ≡ (cache_get ttl now later redis role' hash' cache).1
unfolding cache_get cache_set
cache_get-other ttl t now later redis r cache role role' hash hash' ne =
    let entry : CacheEntry = record { response = r; created_at = t } in
    ground (
      arith,
      get-put_ne (cache_key role hash) (cache_key role' hash') entry cache
          (λ e. ne (cache_key-injective role role' hash hash' e)),
    )
