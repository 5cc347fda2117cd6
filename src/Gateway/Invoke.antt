-- ===== src/Gateway/Invoke.antt =====
-- `LLMGateway.invoke`, `_invoke_inner` and `invoke_structured` (llm_gateway.py): the walk along the
-- role's chain of providers. The clock, the credentials, the providers and Redis are outside of the
-- program: a `World` answers each request of them by the number of the requests made before it. The
-- text of an error is kept as its parts, and the attempts with it.
pub mod Walk
pub mod Turns
pub mod Answers
pub mod Fallback
use agentic_learning_platfor.Base.{
  ℕ, ◌+◌, ◌≤◌, String, Text, Unicode, strip, Bool, true, false, not, ◌&&◌, ◌||◌, Option, none, some,
  ◌⊎◌, inl, inr, List, [], ◌∷◌, ◌++◌, codes, str_eq, if◌then◌else◌,
}
use agentic_learning_platfor.Gateway.Circuit.{
  Circuits, Breaker, can_invoke, report_success, report_failure,
}
use agentic_learning_platfor.Gateway.Cache.{
  LlmResponse, Role, planner, architect, judge, Cache, RedisRead, RedisWrite, cache_get, cache_set,
}
use agentic_learning_platfor.Gateway.Errors.{retryable, configuration_error}

pub data Attempt : Type 0 where
  unsupported not_configured circuit_open : String → Attempt
  failed : String → Text → Attempt

abbrev pub provider_of : Attempt → String
provider_of (unsupported p) = p
provider_of (not_configured p) = p
provider_of (circuit_open p) = p
provider_of (failed p message) = p

pub data GatewayError : Type 0 where
  rejected : Text → GatewayError
  no_fallback : Text → GatewayError
  no_provider : List Attempt → GatewayError

pub data Result {ℓ} (A : Type ℓ) : Type ℓ where
  ok : A → Result A
  err : GatewayError → Result A

pub record Usage : Type 0 where
  pub prompt : ℕ
  pub completion : ℕ
  pub total : ℕ

-- What a provider's `invoke` does: it returns a content with its usage, or raises.
pub data Outcome : Type 0 where
  replied : Text → Usage → Outcome
  raised : Text → Outcome

-- What a provider's `stream` does: chunks of text, and maybe an exception behind them.
pub record Stream : Type 0 where
  pub chunks : List Text
  pub failure : Option Text

-- What a structured call returns: an instance of the schema, a dictionary, some other value as text.
pub data Structured (A Raw : Type 0) : Type 0 where
  instance_of : A → Usage → Structured A Raw
  dictionary : Raw → Usage → Structured A Raw
  other : Text → Usage → Structured A Raw
  raises : Text → Structured A Raw

-- A Pydantic schema: validation, which may raise, the value `{"raw": text}`, and the JSON of an
-- instance.
pub record Schema (A Raw : Type 0) : Type 0 where
  pub model_validate : Raw → A ⊎ Text
  pub raw : Text → Raw
  pub model_dump_json : A → Text

pub record World : Type 0 where
  pub unicode : Unicode
  pub hash_prompt : Text → String
  pub chain : Role → List String
  pub credentials : String → Bool
  pub model_name : String → String
  pub clock : ℕ → ℕ
  pub invoke : ℕ → String → Role → Text → Outcome
  pub stream : ℕ → String → Role → Text → Stream
  pub redis : ℕ → String → RedisRead

-- The gateway's fields, the number of requests made to the world, and what went out to it: the
-- providers called, the tokens handed to `on_token`, the writes to Redis.
pub record Gateway : Type 0 where
  pub circuits : Circuits
  pub cache : Cache
  pub events : ℕ
  pub called : List String
  pub tokens : List (String × Text)
  pub writes : List RedisWrite

pub data Turn (A : Type 0) : Type 0 where
  go_on : Attempt → Turn A
  stop : Result A → Turn A

unfoldable pub is_supported : String → Bool
is_supported provider =
    str_eq provider "deepseek" || str_eq provider "openai" || str_eq provider "anthropic"

-- `role in {"architect", "judge"}`
abbrev pub is_cached : Role → Bool
is_cached planner = false
is_cached _ = true

abbrev pub empty_response : Text
empty_response = codes "Provider returned an empty response."

abbrev pub is_empty : Text → Bool
is_empty [] = true
is_empty (c ∷ text) = false

-- The empty tokens are left out.
unfoldable pub spoken : List Text → List Text
spoken [] = []
spoken ([] ∷ chunks) = spoken chunks
spoken ((c ∷ cs) ∷ chunks) = (c ∷ cs) ∷ spoken chunks

unfoldable pub join : List Text → Text
join [] = []
join (t ∷ ts) = t ++ join ts

abbrev tagged : String → List Text → List (String × Text)
tagged p [] = []
tagged p (t ∷ ts) = (p, t) ∷ tagged p ts

abbrev no_usage : Usage
no_usage = record { prompt = 0; completion = 0; total = 0 }

stream_outcome : Stream → Outcome
unfolding spoken join
stream_outcome s = elim s.failure [
  | none ↦ replied (join (spoken s.chunks)) no_usage
  | some message ↦ raised message
]

module _ (b : Breaker) (ttl : ℕ) (w : World) where
  -- The `except` branch.
  unfoldable pub recover : {A : Type 0} → String → Text → Gateway → Turn A × Gateway
  recover p message g =
      if configuration_error w.unicode message
      then (stop (err (rejected message)), g)
      else if not (retryable w.unicode message)
      then (stop (err (no_fallback message)), g)
      else (
        go_on (failed p message),
        record g {
          circuits = report_failure b (w.clock g.events) p g.circuits;
          events = g.events + 1;
        },
      )

  -- The three tests that skip a provider, before `attempt` is made.
  unfoldable pub guarded :
      {A : Type 0} → (String → Gateway → Turn A × Gateway) → String → Gateway → Turn A × Gateway
  guarded attempt p g =
      if not (is_supported p)
      then (go_on (unsupported p), g)
      else if not (w.credentials p)
      then (go_on (not_configured p), g)
      else let (circuits, admitted) = can_invoke (w.clock g.events) p g.circuits in
        let g' : Gateway = record g { circuits = circuits; events = g.events + 1 } in
        if admitted then attempt p g' else (go_on (circuit_open p), g')

  -- The `for` loop over the chain.
  unfoldable pub walk :
      {A : Type 0}
      → (String → Gateway → Turn A × Gateway)
      → List String
      → List Attempt
      → Gateway
      → Result A × Gateway
  walk attempt [] attempted g = (err (no_provider attempted), g)
  walk attempt (p ∷ chain) attempted g =
      let (turn, g') = guarded attempt p g in
      elim turn [ go_on a ↦ walk attempt chain (attempted ++ a ∷ []) g' | stop r ↦ (r, g') ]

  module _ (role : Role) (prompt : Text) (streaming : Bool) where
    unfoldable pub call_provider : String → Gateway → Outcome × Gateway
    unfolding stream_outcome spoken
    call_provider p g =
        if streaming
        then (
          stream_outcome (w.stream g.events p role prompt),
          record g {
            events = g.events + 1;
            called = g.called ++ p ∷ [];
            tokens = g.tokens ++ tagged p (spoken (w.stream g.events p role prompt).chunks);
          },
        )
        else (
          w.invoke g.events p role prompt,
          record g { events = g.events + 1; called = g.called ++ p ∷ [] },
        )

    store : LlmResponse → Gateway → Gateway
    store r g =
        let (cache, writes) =
          cache_set ttl (w.clock g.events) role (w.hash_prompt prompt) r g.cache in
        if is_cached role && not streaming
        then record g { cache = cache; events = g.events + 1; writes = g.writes ++ writes }
        else g

    accept : String → Text → Usage → Gateway → Turn LlmResponse × Gateway
    unfolding store
    accept p content usage g =
        let r : LlmResponse = record {
          content = content;
          provider = p;
          model = w.model_name p;
          prompt_tokens = usage.prompt;
          completion_tokens = usage.completion;
          total_tokens = usage.total;
        } in
        (stop (ok r), store r (record g { circuits = report_success p g.circuits }))

    settle : String → Outcome → Gateway → Turn LlmResponse × Gateway
    unfolding accept recover
    settle p (raised message) g = recover p message g
    settle p (replied content usage) g =
        if is_empty (strip w.unicode.is_space content)
        then recover p empty_response g
        else accept p content usage g

    unfoldable pub attempt_text : String → Gateway → Turn LlmResponse × Gateway
    unfolding settle call_provider
    attempt_text p g = let (outcome, g') = call_provider p g in settle p outcome g'

    unfoldable pub invoke_inner : Gateway → Result LlmResponse × Gateway
    unfolding attempt_text
    invoke_inner g = walk attempt_text (w.chain role) [] g

    unfoldable pub invoke : Gateway → Result LlmResponse × Gateway
    invoke g =
        let (cache, hit) =
          cache_get ttl (w.clock g.events) (w.clock (g.events + 1)) (w.redis (g.events + 2)) role
            (w.hash_prompt prompt) g.cache in
        let g' : Gateway = record g { cache = cache; events = g.events + 3 } in
        if is_cached role && not streaming
        then elim hit [ some r ↦ (ok r, g') | none ↦ invoke_inner g' ]
        else invoke_inner g

  module _ {A Raw : Type 0} (schema : Schema A Raw)
      (call : ℕ → String → Role → Text → Structured A Raw) (role : Role) (prompt : Text) where
    accept_structured : String → A → Usage → Gateway → Turn (A × LlmResponse) × Gateway
    accept_structured p validated usage g = (
      stop (
          ok (
            validated,
            record {
              content = schema.model_dump_json validated;
              provider = p;
              model = w.model_name p;
              prompt_tokens = usage.prompt;
              completion_tokens = usage.completion;
              total_tokens = usage.total;
            },
          )),
      record g { circuits = report_success p g.circuits },
    )

    checked : String → A ⊎ Text → Usage → Gateway → Turn (A × LlmResponse) × Gateway
    unfolding accept_structured recover
    checked p (inl validated) usage g = accept_structured p validated usage g
    checked p (inr message) usage g = recover p message g

    settle_structured : String → Structured A Raw → Gateway → Turn (A × LlmResponse) × Gateway
    unfolding checked
    settle_structured p (instance_of validated usage) g = accept_structured p validated usage g
    settle_structured p (dictionary raw usage) g = checked p (schema.model_validate raw) usage g
    settle_structured p (other text usage) g =
        checked p (schema.model_validate (schema.raw text)) usage g
    settle_structured p (raises message) g = recover p message g

    attempt_structured : String → Gateway → Turn (A × LlmResponse) × Gateway
    unfolding settle_structured
    attempt_structured p g =
        settle_structured p (call g.events p role prompt)
          (record g { events = g.events + 1; called = g.called ++ p ∷ [] })

    unfoldable pub invoke_structured : Gateway → Result (A × LlmResponse) × Gateway
    unfolding attempt_structured
    invoke_structured g = walk attempt_structured (w.chain role) [] g
