-- ===== src/Tests/CacheRuns.antt =====
-- Runs of the gateway's cache (llm_gateway.py).
use agentic_learning_platfor.Base.{codes, ◌≡◌, some, [], arith}
use agentic_learning_platfor.Gateway.Cache.{
  LlmResponse, judge, missing, cache_get, cache_set, Cache,
}
use agentic_learning_platfor.Gateway.Cache.Laws.{cache_get-set}

abbrev answer : LlmResponse
answer = record {
  content = codes "hello";
  provider = "openai";
  model = "gpt";
  prompt_tokens = 1;
  completion_tokens = 2;
  total_tokens = 3;
}

abbrev stored : Cache
stored = (cache_set 60 100 judge "h" answer []).0

cache_get-set_example :
    cache_get 60 130 131 (λ key. missing) judge "h" stored ≡ (stored, some answer)
cache_get-set_example =
    cache_get-set 60 judge "h" 100 130 131 (λ key. missing) answer [] (omega arith) (omega arith)
