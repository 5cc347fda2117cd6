-- ===== src/Gateway/Cache.antt =====
-- The response cache of `LLMGateway` (llm_gateway.py, `_cache_get`, `_cache_set`, the JSON form of a
-- response). L1 is the process's dictionary. L2 is Redis, outside of the program: what it answers to a
-- read is an argument, and what is written to it comes back as a list of writes.
pub mod Laws
use Prim.Native.String
use agentic_learning_platfor.Base.{
  ℕ, ◌+◌, String, Text, Option, none, some, List, [], ◌∷◌, ltb, leb, ◌==◌, if◌then◌else◌, Assoc,
  get, put, remove,
}

pub record LlmResponse : Type 0 where
  pub content : Text
  pub provider : String
  pub model : String
  pub prompt_tokens : ℕ
  pub completion_tokens : ℕ
  pub total_tokens : ℕ

-- A JSON object as `json.loads` returns it, by the keys that the program reads.
pub record Payload : Type 0 where
  pub content : Option Text
  pub provider : Option String
  pub model : Option String
  pub prompt_tokens : Option ℕ
  pub completion_tokens : Option ℕ
  pub total_tokens : Option ℕ

unfoldable pub response_to_json : LlmResponse → Payload
response_to_json r = record {
  content = some r.content;
  provider = some r.provider;
  model = some r.model;
  prompt_tokens = some r.prompt_tokens;
  completion_tokens = some r.completion_tokens;
  total_tokens = some r.total_tokens;
}

-- data.get(key, 0)
abbrev pub or_zero : Option ℕ → ℕ
or_zero none = 0
or_zero (some n) = n

required : Option Text → Option String → Option String → Payload → Option LlmResponse
required (some content) (some provider) (some model) data' = some (record {
  content = content;
  provider = provider;
  model = model;
  prompt_tokens = or_zero data'.prompt_tokens;
  completion_tokens = or_zero data'.completion_tokens;
  total_tokens = or_zero data'.total_tokens;
})
required _ _ _ data' = none

-- `none` is the KeyError for a missing content, provider or model.
unfoldable pub response_from_json : Payload → Option LlmResponse
unfolding required
response_from_json p = required p.content p.provider p.model p

pub data Role : Type 0 where
  planner architect judge : Role

abbrev pub role_name : Role → String
role_name planner = "planner"
role_name architect = "architect"
role_name judge = "judge"

unfoldable pub cache_key : Role → String → String
cache_key role hash = String.◌++◌ (role_name role) (String.◌++◌ ":" hash)

unfoldable pub redis_cache_key : Role → String → String
redis_cache_key role hash =
    String.◌++◌ "llm:cache" (String.◌++◌ ":" (String.◌++◌ (role_name role) (String.◌++◌ ":" hash)))

pub record CacheEntry : Type 0 where
  pub response : LlmResponse
  pub created_at : ℕ

abbrev pub Cache : Type 0
Cache = Assoc CacheEntry

-- What a read of one key gives: no client, an exception, no value, or a value that `json.loads` reads.
pub data RedisRead : Type 0 where
  unavailable raised missing : RedisRead
  found : Payload → RedisRead

pub record RedisWrite : Type 0 where
  pub key : String
  pub ttl : ℕ
  pub payload : Payload

local_hit : ℕ → ℕ → String → Cache → Option CacheEntry → Cache × Option LlmResponse
local_hit ttl now key cache none = (cache, none)
local_hit ttl now key cache (some entry) =
    if ltb now (entry.created_at + ttl)
    then (cache, some entry.response)
    else (remove key cache, none)

fill : ℕ → String → Cache → Option LlmResponse → Cache × Option LlmResponse
fill later key cache none = (cache, none)
fill later key cache (some r) =
    (put key (record { response = r; created_at = later }) cache, some r)

shared_hit : ℕ → String → Cache → RedisRead → Cache × Option LlmResponse
unfolding fill
shared_hit later key cache (found p) = fill later key cache (response_from_json p)
shared_hit later key cache _ = (cache, none)

-- `now` is the reading at the lookup, `later` the one at which L2's answer is stored in L1.
unfoldable pub cache_get :
    ℕ → ℕ → ℕ → (String → RedisRead) → Role → String → Cache → Cache × Option LlmResponse
unfolding local_hit shared_hit
cache_get ttl now later redis role hash cache =
    let key = cache_key role hash in
    if ttl == 0
    then (remove key cache, none)
    else let (cache', hit) = local_hit ttl now key cache (get key cache) in
      elim hit [
        | some r ↦ (cache', some r)
        | none ↦ shared_hit later key cache' (redis (redis_cache_key role hash))
      ]

unfoldable pub cache_set : ℕ → ℕ → Role → String → LlmResponse → Cache → Cache × List RedisWrite
cache_set ttl now role hash r cache = if ttl == 0 then (cache, []) else (
  put (cache_key role hash) (record { response = r; created_at = now }) cache,
  record { key = redis_cache_key role hash; ttl = ttl; payload = response_to_json r } ∷ [],
)
