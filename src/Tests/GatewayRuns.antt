-- ===== src/Tests/GatewayRuns.antt =====
-- Runs of the gateway (llm_gateway.py).
use agentic_learning_platfor.Gateway.Errors.{retryable, configuration_error}
use agentic_learning_platfor.Base.{
  inr, strip, contains, put, get, ℕ, ◌+◌, ◌≤◌, ◌<◌, String, codes, ◌≡◌, ◌≢◌, refl, ◌↔◌, true, false,
  none, [], ◌∷◌, length, arith, eq_iff,
}
use agentic_learning_platfor.Tests.{ascii}
use agentic_learning_platfor.Gateway.Circuit.{
  Circuits, Breaker, circuit_of, can_invoke, report_failure,
}
use agentic_learning_platfor.Gateway.Circuit.Laws.{fail_all, last_time, blocked_iff}
use agentic_learning_platfor.Gateway.Circuit.Interleaving.{
  start, fail, Reach, here, next, wait_ends,
}
use agentic_learning_platfor.Gateway.Cache.{LlmResponse, planner, missing}
use agentic_learning_platfor.Gateway.Invoke.{
  Attempt, Result, call_provider, guarded, guarded, is_supported, err, rejected, Outcome, replied,
  raised, World, Gateway, walk, attempt_text, invoke_inner,
}
use agentic_learning_platfor.Gateway.Invoke.Walk.{Some, Usable}
use agentic_learning_platfor.Gateway.Invoke.Answers.{Good, invoke_inner-answer}
use agentic_learning_platfor.Gateway.Invoke.Turns.{IsPassed}
use agentic_learning_platfor.Gateway.Invoke.Fallback.{
  count_of, open_is_never_called, falls_back, stops_at_400,
}

abbrev breaker : Breaker
breaker = record {
  threshold = 2;
  cooldown = 30;
  threshold_pos = omega arith;
  cooldown_pos = omega arith;
}

blocked_iff_example :
    ((can_invoke 20 "openai" (fail_all breaker "openai" (1 ∷ 2 ∷ []) [])).1 ≡ false)
    ↔ ((2 ≤ length {A = ℕ} (1 ∷ 2 ∷ [])) × (20 < last_time 1 (2 ∷ []) + 30))
unfolding circuit_of get
blocked_iff_example = blocked_iff breaker "openai" 1 (2 ∷ []) 20 [] refl

abbrev tripped : Circuits
tripped = report_failure breaker 0 "openai" (report_failure breaker 0 "openai" [])

abbrev two_failures : Reach breaker (start 0) (record { now = 0; circuits = tripped })
two_failures = next (next here (fail (start 0) "openai")) (fail _ "openai")

wait_ends_example : (can_invoke 30 "openai" tripped).1 ≡ true
wait_ends_example =
    wait_ends breaker 0 (record { now = 0; circuits = tripped }) "openai" 30 two_failures
      (omega arith)

openai-ne-deepseek : ◌≢◌ {A = String} "openai" "deepseek"
openai-ne-deepseek e = cc ((eq_iff "openai" "deepseek").1 e)

-- A world whose providers answer as they are told; the clock stands still.
abbrev world : (String → Outcome) → World
world answers = record {
  unicode = ascii;
  hash_prompt = λ prompt. "hash";
  chain = λ role. "openai" ∷ "deepseek" ∷ [];
  credentials = λ p. true;
  model_name = λ p. p;
  clock = λ n. 10;
  invoke = λ n p role prompt. answers p;
  stream = λ n p role prompt. record { chunks = []; failure = none };
  redis = λ n key. missing;
}

abbrev idle : Gateway
idle = record { circuits = []; cache = []; events = 0; called = []; tokens = []; writes = [] }

abbrev hello : LlmResponse
hello = record {
  content = codes "hello";
  provider = "openai";
  model = "openai";
  prompt_tokens = 0;
  completion_tokens = 0;
  total_tokens = 0;
}

abbrev all_answer : World
all_answer = world (λ p. replied (codes "hello") (record { prompt = 0; completion = 0; total = 0 }))

invoke_inner-answer_example :
    Some
      (λ p.
        Usable all_answer p
        × Good breaker 60 all_answer planner
            (codes "hi")
            false
            p
            hello
            (invoke_inner breaker 60 all_answer planner (codes "hi") false idle).1)
      ("openai" ∷ "deepseek" ∷ [])
unfolding invoke_inner walk guarded is_supported can_invoke get strip
invoke_inner-answer_example =
    invoke_inner-answer breaker 60 all_answer planner (codes "hi") false idle hello refl

abbrev all_time_out : World
all_time_out = world (λ p. raised (codes "timeout"))

abbrev blocked : Gateway
blocked = record idle { circuits = tripped }

open_is_never_called_example :
    count_of "openai"
      (invoke_inner breaker 60 all_answer planner (codes "hi") false blocked).1.called
    ≡ 0
unfolding circuit_of get report_failure put
open_is_never_called_example =
    open_is_never_called breaker 60 all_answer planner (codes "hi") false "openai" blocked
      (λ n. omega arith)

falls_back_example :
    (IsPassed breaker 60 all_time_out planner (codes "hi") false "openai" idle
      → (a : Attempt) × (walk breaker 60 all_time_out
            (attempt_text breaker 60 all_time_out planner (codes "hi") false)
            ("openai" ∷ "deepseek" ∷ [])
            []
            idle
          ≡ walk breaker 60 all_time_out
              (attempt_text breaker 60 all_time_out planner (codes "hi") false)
              ("deepseek" ∷ [])
              (a ∷ [])
              (guarded breaker 60 all_time_out
                (attempt_text breaker 60 all_time_out planner (codes "hi") false)
                "openai"
                idle).1))
    × ((IsPassed breaker 60 all_time_out planner (codes "hi") false "openai" idle → ⊥)
        → (r : Result LlmResponse) × (walk breaker 60 all_time_out
              (attempt_text breaker 60 all_time_out planner (codes "hi") false)
              ("openai" ∷ "deepseek" ∷ [])
              []
              idle
            ≡ (
              r,
              (guarded breaker 60 all_time_out
                  (attempt_text breaker 60 all_time_out planner (codes "hi") false)
                  "openai"
                  idle).1,
            )))
falls_back_example =
    falls_back breaker 60 all_time_out planner (codes "hi") false "openai" ("deepseek" ∷ []) [] idle

-- The call of the first provider times out, so that it is passed.
openai-IsPassed : IsPassed breaker 60 all_time_out planner (codes "hi") false "openai" idle
unfolding call_provider configuration_error contains retryable
openai-IsPassed = inr (codes "timeout", refl, refl, refl)

abbrev slow : World
slow = world (λ p. raised (codes "timed out after 4000 ms"))

stops_at_400_example :
    ((invoke_inner breaker 60 slow planner (codes "hi") false idle).0
      ≡ err (rejected (codes "timed out after 4000 ms")))
    × ((invoke_inner breaker 60 slow planner (codes "hi") false idle).1.called ≡ "openai" ∷ [])
unfolding is_supported can_invoke get contains
stops_at_400_example =
    stops_at_400 breaker 60 slow planner (codes "hi") false "openai" ("deepseek" ∷ []) idle
      (codes "timed out after 4000 ms") refl refl (refl, refl) refl refl refl
