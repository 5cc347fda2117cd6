-- ===== src/Runtime/Research.antt =====
-- `_research_agent` (runtime.py): the loop of evidence, proposal and verification. The searches of the
-- web that the thread pool runs ahead return what `result` says; what the loop does with them, it does
-- in the order below.
pub mod Loop
pub mod Limits
use agentic_learning_platfor.Base.{
  ℕ, zero, suc, ◌+◌, min, String, Text, Unicode, codes, strip, Bool, true, false, not, ◌&&◌, ◌||◌,
  Option, none, some, List, [], ◌∷◌, ◌++◌, take, length, any, ltb, str_eq, Assoc, get, put,
  if◌then◌else◌,
}
use Prim.Native.String
use agentic_learning_platfor.Tools.Json.{Json, is_true, field_of, text_field, texts}
use agentic_learning_platfor.Tools.Registry.{ToolError, ToolResult}
use agentic_learning_platfor.Runtime.Policy.{Stop, Budget, Reading, enforce_policy}

abbrev pub max_repair_count : ℕ
max_repair_count = 2

pub record Task : Type 0 where
  pub task_id : String
  pub query : String
  pub objective : String
  pub top_k : ℕ

-- An entry of `evidence_requests`.
pub record Request : Type 0 where
  pub step_id : String
  pub tool_name : String
  pub query : String
  pub limit : ℕ

pub record Artifact : Type 0 where
  pub correlation_id : String
  pub tool_name : String
  pub citations : List Json

-- What the agent's run is given: the state that it begins with, and the world around it. The n-th
-- check of the policy reads `reading n`; `result n` is what a tool returns when n artifacts are there.
pub record Env : Type 0 where
  pub budget : Budget
  pub local_only : Bool
  pub user_input : String
  pub prior : List Artifact
  pub reading : ℕ → Reading
  pub sources : Task → List String
  pub result : ℕ → String → String → ToolResult
  pub unicode : Unicode
  -- Names of steps that are made from a number.
  pub fresh : ℕ → String

-- The loop's own variables that its calls change.
pub record Work : Type 0 where
  pub checks : ℕ
  pub artifacts : List Artifact
  pub feedback : Assoc Bool
  pub errors : List ToolError

pub data Res (A : Type 0) : Type 0 where
  stopped : Stop → Work → Res A
  done : A → Work → Res A

abbrev pub then' : {A B : Type 0} → Res A → (A → Work → Res B) → Res B
then' (stopped s w) f = stopped s w
then' (done a w) f = f a w

-- The results of the proposal and of its verification.
pub record Draft : Type 0 where
  pub proposal : Json
  pub verification : Json

-- The verification may run with the tool calls used up.
abbrev pub is_passed_over : String → Stop → Bool
is_passed_over tool_name Stop.max_tool_calls = str_eq tool_name "verification.verify_proposal"
is_passed_over tool_name _ = false

abbrev pub with_error : ToolResult → List ToolError → List ToolError
with_error r errors = elim r.error [ none ↦ errors | some e ↦ errors ++ e ∷ [] ]

module _ (env : Env) where
  abbrev pub artifact_count : Work → ℕ
  artifact_count w = length env.prior + length w.artifacts

  -- The call behind its check.
  unfoldable pub perform : String → String → ToolResult → Work → Work
  perform tool_name step_id r w = record {
    checks = suc w.checks;
    artifacts =
        w.artifacts
        ++ record { correlation_id = step_id; tool_name = tool_name; citations = r.citations } ∷ [];
    feedback = put step_id r.ok w.feedback;
    errors = with_error r w.errors;
  }

  abbrev pub check : Work → Option Stop
  check w = enforce_policy env.budget (env.reading w.checks) (artifact_count w)

  abbrev pub checked : Work → Work
  checked w = record {
    checks = suc w.checks;
    artifacts = w.artifacts;
    feedback = w.feedback;
    errors = w.errors;
  }

  unfoldable pub call_research_tool : String → String → ToolResult → Work → Res ToolResult
  unfolding perform
  call_research_tool tool_name step_id r w = elim (check w) [
    | none ↦ done r (perform tool_name step_id r w)
    | some s ↦
        if is_passed_over tool_name s
        then done r (perform tool_name step_id r w)
        else stopped s (checked w)
  ]

  abbrev pub call_with_result : String → String → Work → Res ToolResult
  call_with_result tool_name step_id w =
      call_research_tool tool_name step_id (env.result (artifact_count w) tool_name step_id) w

  abbrev pub step_of : Task → String → String
  step_of task suffix = String.◌++◌ task.task_id suffix

  abbrev pub chooses : Task → String → Bool
  chooses task tool_name = any (str_eq tool_name) (env.sources task)

  abbrev pub request_if : Bool → Request → List Request
  request_if true r = r ∷ []
  request_if false r = []

  abbrev pub local_request : Task → List Request
  local_request task = request_if (chooses task "knowledge.answer") (record {
    step_id = step_of task "-rag";
    tool_name = "knowledge.answer";
    query = task.query;
    limit = task.top_k;
  })

  abbrev pub web_request : Task → List Request
  web_request task = request_if (chooses task "web.search_duckduckgo") (record {
    step_id = step_of task "-web";
    tool_name = "web.search_duckduckgo";
    query = task.query;
    limit = min 10 task.top_k;
  })

  abbrev pub github_request : Task → List Request
  github_request task = request_if (chooses task "github.search_repositories") (record {
    step_id = step_of task "-github";
    tool_name = "github.search_repositories";
    query = task.query;
    limit = min 10 task.top_k;
  })

  -- The requests in the order in which they are consumed: those of the web behind all others.
  unfoldable pub other_requests : List Task → List Request
  other_requests [] = []
  other_requests (task ∷ tasks) =
      local_request task ++ (github_request task ++ other_requests tasks)

  unfoldable pub web_requests : List Task → List Request
  web_requests [] = []
  web_requests (task ∷ tasks) = web_request task ++ web_requests tasks

  -- result_by_step
  unfoldable pub gather : List Request → Assoc ToolResult → Work → Res (Assoc ToolResult)
  unfolding call_research_tool
  gather [] results w = done results w
  gather (r ∷ requests) results w =
      then' (call_with_result r.tool_name r.step_id w)
        (λ result w'. gather requests (put r.step_id result results) w')

  abbrev pub has_evidence : Assoc ToolResult → Task → String → Bool
  has_evidence results task suffix = elim (get (step_of task suffix) results) [
    | none ↦ false
    | some r ↦ elim r.citations [ [] ↦ false | c ∷ cs ↦ true ]
  ]

  -- bool(local_error.get("retryable", True))
  abbrev pub is_retryable : Assoc ToolResult → Task → Bool
  is_retryable results task = elim (get (step_of task "-rag") results) [
    | none ↦ true
    | some r ↦ elim r.error [ none ↦ true | some e ↦ elim e.retryable [ none ↦ true | some b ↦ b ] ]
  ]

  unfoldable pub needs_repair : Assoc ToolResult → Task → Bool
  needs_repair results task =
      chooses task "knowledge.answer"
      && (not (has_evidence results task "-rag")
          && ((env.local_only
                || not (
                    has_evidence results task "-rag"
                    || (has_evidence results task "-web" || has_evidence results task "-github")))
              && is_retryable results task))

  unfoldable pub repair_retrieval : Assoc ToolResult → List Task → Work → Res Unit
  unfolding needs_repair call_research_tool
  repair_retrieval results [] w = done tt w
  repair_retrieval results (task ∷ tasks) w =
      if needs_repair results task
      then then' (call_with_result "knowledge.repair_retrieval" (step_of task "-rag-repair") w)
          (λ r w'. repair_retrieval results tasks w')
      else repair_retrieval results tasks w

  -- One turn of the loop, down to the verification.
  unfoldable pub round : List Task → Work → Res Draft
  unfolding other_requests web_requests gather repair_retrieval call_research_tool
  round tasks w = then' (gather (other_requests tasks ++ web_requests tasks) [] w) (λ results w1.
      then' (repair_retrieval results tasks w1) (λ u w2.
        then' (call_with_result "architecture.generate_proposal" (env.fresh w2.checks) w2) (λ p w3.
          then' (call_with_result "verification.verify_proposal" "proposal-verification" w3)
            (λ v w4. done (record { proposal = p.data'; verification = v.data' }) w4))))

  abbrev pub is_blank : String → Bool
  is_blank s = elim (strip env.unicode.is_space (codes s)) [ [] ↦ true | c ∷ cs ↦ false ]

  abbrev pub repair_task : ℕ → String → Task
  repair_task index query = record {
    task_id = String.◌++◌ "repair-" (env.fresh index);
    query = query;
    objective = "Supplement evidence requested by verification.";
    top_k = 8;
  }

  -- planning_repair_research_tasks (tools.py): the tasks of at most three queries.
  unfoldable pub tasks_of_queries : ℕ → List String → List Task
  tasks_of_queries index [] = []
  tasks_of_queries index (q ∷ queries) =
      let rest = tasks_of_queries (suc index) queries in
      if is_blank q then rest else repair_task index q ∷ rest

  unfoldable pub repair_research_tasks : Json → List Task
  unfolding tasks_of_queries
  repair_research_tasks verification = tasks_of_queries 0 (
      take 3 (
        if is_true (field_of "repair_queries" verification)
        then texts (field_of "repair_queries" verification)
        else env.user_input ∷ []))
