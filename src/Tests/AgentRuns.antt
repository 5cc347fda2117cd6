-- ===== src/Tests/AgentRuns.antt =====
-- Runs of the tools and of the runtime.
use agentic_learning_platfor.Base.{
  get, starts_with, ℕ, ◌+◌, ◌≤◌, max, ◌≡◌, refl, true, false, Option, none, some, List, [], ◌∷◌,
  Assoc,
}
use agentic_learning_platfor.Tests.{ascii}
use agentic_learning_platfor.Tools.Json.{Json, null, text, number, object, field, end}
use agentic_learning_platfor.Tools.Registry.{ToolResult, Registry, finished, max_retries, call}
use agentic_learning_platfor.Tools.Registry.Laws.{Ran, call-Ran}
use agentic_learning_platfor.Tools.Managed.{
  Request, World, ManagedToolExecution, execution_of, trusted_args, execute_managed_tool,
}
use agentic_learning_platfor.Tools.Managed.Trust.{Scoped, trusted_args-Scoped}
use agentic_learning_platfor.Tools.Managed.Once.{execute_managed_tool-once}
use agentic_learning_platfor.Runtime.Research.{Env, Task, max_repair_count}
use agentic_learning_platfor.Runtime.Research.Loop.{Findings, fallback, research_agent}
use agentic_learning_platfor.Runtime.Research.Loop.Ends.{Ends, research_agent-Ends}
use agentic_learning_platfor.Runtime.Research.Loop.Calls.{Called, research_agent-Called}
use agentic_learning_platfor.Runtime.Graph.{
  answer_agent_route, supervisor_route, Node, State, running, directly, supervise, answer, Reach,
  begin, step, after_supervisor, after_answer,
}
use agentic_learning_platfor.Runtime.Graph.{by_tools, answer_agent_route}
use agentic_learning_platfor.Runtime.Graph.Answers.{failed_calls_fall_back}
use agentic_learning_platfor.Runtime.Sources.{
  ToolCall, resolve_source_policy, generate_research_source_decision, allowed_calls,
}
use agentic_learning_platfor.Runtime.Sources.Local.{SomeLocal, SomeLocalCall, restricted_to_local}
use agentic_learning_platfor.Runtime.Graph.Published.{
  Publishable, published_is_verified, repairs_are_bounded,
}

-- A tool that fails each time, with an error that may be retried.
abbrev failure : ToolResult
failure = record {
  ok = false;
  tool_name = "knowledge.answer";
  data' = object end;
  confidence = 0;
  citations = [];
  grounding_mode = none;
  rag_used = true;
  latency_ms = none;
  error = none;
}

abbrev tools : Registry
tools = record {
  descriptors = ("knowledge.answer", record { retryable = true }) ∷ [];
  handler = λ name. true;
  run = λ n name args. finished failure;
  took = λ n. 5;
  timeout_text = λ name. "Tool exceeded its timeout.";
  denied_text = λ agent name. "Agent is not allowed to use tool";
  missing_text = λ name. "Tool is not registered.";
}

call-Ran_example :
    (n : ℕ) × ((n ≤ max_retries tools "knowledge.answer" + 1)
      × Ran "knowledge.answer" [] n [] (call tools "answer_agent" "knowledge.answer" [] []).1)
call-Ran_example = call-Ran tools "knowledge.answer" [] "answer_agent" []

abbrev task_state : Assoc Json
task_state = ("username", text "ann") ∷ ("user_id", number 7) ∷ []

-- The model asks for the data of another user.
abbrev forged : Assoc Json
forged = ("user_id", number 1) ∷ ("query", text "grades") ∷ []

trusted_args-Scoped_example :
    (args : Assoc Json) × ((trusted_args task_state "knowledge.answer" forged ≡ some args)
      × Scoped task_state (text "ann") args)
unfolding starts_with get
trusted_args-Scoped_example =
    trusted_args-Scoped task_state "knowledge.answer" (text "ann") forged refl refl

abbrev request : Request
request = record {
  tool_name = "github.read_readme";
  arguments = ("repo", text "a/b") ∷ [];
  agent_name = "answer_agent";
  skill_name = "registered_tool_use";
  step_id = "call-1";
  call_id = "call-1";
}

abbrev first_run : Option (ManagedToolExecution × World)
first_run =
    execute_managed_tool tools (λ s. s) task_state "t1" request
      (record { completed = []; log = [] })

abbrev first_world : World
first_world = elim first_run [ none ↦ record { completed = []; log = [] } | some r ↦ r.1 ]

abbrev first_execution : ManagedToolExecution
first_execution = elim first_run [ none ↦ execution_of request failure | some r ↦ r.0 ]

execute_managed_tool-once_example :
    execute_managed_tool tools (λ s. s) task_state "t1" request first_world
    ≡ some (execution_of request first_execution.result, first_world)
unfolding execute_managed_tool starts_with
execute_managed_tool-once_example =
    execute_managed_tool-once tools (λ s. s) task_state task_state "t1" request request
      (record { completed = []; log = [] }) first_world (("repo", text "a/b") ∷ []) first_execution
      refl refl refl

-- A world in which no evidence is found and the verification asks for repairs for ever.
abbrev unsure : ToolResult
unsure = record failure { data' = object (field "status" (text "repair") end) }

abbrev env : Env
env = record {
  budget = record { max_tool_calls = none; deadline_seconds = none };
  local_only = false;
  user_input = "plan";
  prior = [];
  reading = λ n. record { cancel_requested = false; elapsed = none };
  sources = λ task. "knowledge.answer" ∷ [];
  result = λ n name step. unsure;
  unicode = ascii;
  fresh = λ n. "n";
}

abbrev nothing_found : Findings
nothing_found = record {
  next_action = fallback;
  proposal = null;
  verification = null;
  repair_count = 0;
  is_over_budget = false;
}

abbrev tasks : List Task
tasks =
    record { task_id = "evidence"; query = "plan"; objective = "Retrieve evidence."; top_k = 5 }
    ∷ []

research_agent-Ends_example : Ends (max 0 max_repair_count) (research_agent env nothing_found tasks)
research_agent-Ends_example = research_agent-Ends env nothing_found tasks

research_agent-Called_example : Called env (max 0 13) (research_agent env nothing_found tasks)
research_agent-Called_example = research_agent-Called env nothing_found tasks

abbrev asked : State
asked = record {
  user_input = "hi";
  route = "";
  feedback_action = "";
  answer_draft = "";
  approval_required = false;
  next_action = none;
  proposal = null;
  verification = null;
  repair_count = 0;
  review = none;
  status = running;
  final_answer = "";
}

abbrev routed : State
routed = after_supervisor "answer" asked

abbrev answered : State
answered = after_answer (directly "hello") routed

abbrev run : Reach ascii (λ t. "") (λ p v. "") asked Node.final_response answered
unfolding supervisor_route after_supervisor answer_agent_route after_answer
run =
    step Node.answer_agent routed Node.final_response answered
      (step Node.supervisor_agent asked Node.answer_agent routed begin
        (supervise asked "answer" _ refl))
      (answer routed (directly "hello"))

published_is_verified_example : Publishable answered
published_is_verified_example = published_is_verified ascii (λ t. "") (λ p v. "") asked answered run

repairs_are_bounded_example : answered.repair_count ≤ 2
repairs_are_bounded_example =
    repairs_are_bounded ascii (λ t. "") (λ p v. "") asked answered Node.final_response refl run

failed_calls_fall_back_example :
    (answer_agent_route (after_answer (by_tools "complete" (false ∷ false ∷ []) "draft") asked)
      ≡ Node.fallback_response)
    × ((after_answer (by_tools "complete" (false ∷ false ∷ []) "draft") asked).answer_draft ≡ "")
failed_calls_fall_back_example =
    failed_calls_fall_back asked "complete" "draft" false (false ∷ []) (refl, (refl, tt))

abbrev web_calls : List ToolCall
web_calls = record { call_id = "c1"; tool_name = "web.search_duckduckgo" } ∷ []

restricted_to_local_example :
    SomeLocal (
      generate_research_source_decision
        (resolve_source_policy ascii (some "local_only") [])
        ("web.search_duckduckgo" ∷ [])
        (some ("web.search_duckduckgo" ∷ [])))
    × SomeLocalCall
        (allowed_calls (resolve_source_policy ascii (some "local_only") []) "c2" web_calls)
unfolding resolve_source_policy
restricted_to_local_example =
    restricted_to_local ascii (some "local_only") [] ("web.search_duckduckgo" ∷ [])
      (some ("web.search_duckduckgo" ∷ [])) "c2" web_calls refl
