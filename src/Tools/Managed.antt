-- ===== src/Tools/Managed.antt =====
-- tool_manager.py: the arguments that the runtime fixes, and a call that is made once for its key.
pub mod Trust
pub mod Once
use Prim.Native.String
use agentic_learning_platfor.Base.{
  ℕ, ◌+◌, String, Bool, true, false, ◌||◌, not, Option, none, some, List, [], ◌∷◌, ltb, length,
  codes, starts_with, Assoc, get, put, if◌then◌else◌,
}
use agentic_learning_platfor.Tools.Json.{
  Json, null, bool, number, text, array, object, nil, end, get_or, get_true,
}
use agentic_learning_platfor.Tools.Registry.{ToolResult, Registry, Execution, call}

abbrev pub has_prefix : String → String → Bool
has_prefix prefix name = starts_with (codes name) (codes prefix)

unfoldable pub artifact_kind : String → String
artifact_kind tool_name =
    if has_prefix "architecture." tool_name
    then "proposal"
    else if has_prefix "knowledge.verify" tool_name
    then "verification"
    else if has_prefix "verification." tool_name
    then "verification"
    else if has_prefix "planning." tool_name
    then "plan"
    else if has_prefix "knowledge." tool_name || has_prefix "web." tool_name
    then "research"
    else if has_prefix "learning." tool_name
    then "learning_blueprint"
    else "tool_result"

-- args.setdefault(key, value)
abbrev pub set_default : String → Json → Assoc Json → Assoc Json
set_default key value args = elim (get key args) [ none ↦ put key value args | some v ↦ args ]

-- The arguments of a knowledge tool, with the user's name that the state must have.
abbrev pub knowledge_args : Assoc Json → Json → Assoc Json → Assoc Json
knowledge_args state username args = set_default "rewrite_query" (bool true) (
    set_default "top_k" (number 5) (
      put "conversation_id" (get_or null "conversation_id" state) (
        put "document_id" (get_or null "document_id" state) (
          put "kb_id" (get_or null "kb_id" state)
            (put "user_id" (get_or null "user_id" state) (put "username" username args))))))

abbrev pub task_args : Assoc Json → Assoc Json → Assoc Json
task_args state args = put "budget" (get_true (object end) "budget" state) (
    put "scenario" (get_true (object end) "scenario" state) (
      put "memory_context" (get_true (object end) "memory_context" state) (
        put "kb_id" (get_or null "kb_id" state) (
          put "user_id" (get_or null "user_id" state) (
            put "username" (get_or (text "") "username" state) (
              put "run_id" (get_or (text "") "run_id" state) (
                put "task_id" (get_or (text "") "task_id" state)
                  (put "user_input" (get_or (text "") "user_input" state) args))))))))

abbrev pub verification_args : Assoc Json → Assoc Json → Assoc Json
verification_args state args = put "grounding" (get_true (object end) "grounding" state) (
    put "citations" (get_true (array nil) "citations" state) (
      put "artifacts" (get_true (array nil) "artifacts" state)
        (put "proposal" (get_true (object end) "proposal" state) args)))

abbrev pub planning_args : Assoc Json → Assoc Json → Assoc Json
planning_args state args =
    put "repair_count" (get_true (number 0) "repair_count" state)
      (put "verification" (get_true (object end) "verification" state) args)

-- The blocks behind the first one, which cannot fail.
unfoldable pub task_tool_args : Assoc Json → String → Assoc Json → Assoc Json
task_tool_args state tool_name args =
    let for_architecture = has_prefix "architecture." tool_name in
    let for_verification = has_prefix "verification." tool_name in
    let for_planning = has_prefix "planning." tool_name in
    let a =
      if for_architecture || (for_verification || for_planning)
      then task_args state args
      else args in
    let b =
      if for_architecture then put "artifacts" (get_true (array nil) "artifacts" state) a else a in
    let c = if for_verification then verification_args state b else b in
    if for_planning then planning_args state c else c

-- none: the KeyError of state["username"].
unfoldable pub trusted_args : Assoc Json → String → Assoc Json → Option (Assoc Json)
unfolding task_tool_args
trusted_args state tool_name arguments =
    if has_prefix "knowledge." tool_name
    then elim (get "username" state) [
      | none ↦ none
      | some username ↦
          some (task_tool_args state tool_name (knowledge_args state username arguments))
    ]
    else some (task_tool_args state tool_name arguments)

pub record Artifact : Type 0 where
  pub artifact_id : String
  pub kind : String
  pub producer : String
  pub correlation_id : String
  pub result : ToolResult

pub record ManagedToolExecution : Type 0 where
  pub call_id : String
  pub tool_name : String
  pub agent_name : String
  pub skill_name : String
  pub step_id : String
  pub result : ToolResult
  pub artifact : Artifact

-- What a call reads and changes: the calls that the store has as completed, by their key, and the log
-- of the handlers' runs.
pub record World : Type 0 where
  pub completed : Assoc ToolResult
  pub log : List Execution

-- The caller's request; the identifiers are there already, given or fresh.
pub record Request : Type 0 where
  pub tool_name : String
  pub arguments : Assoc Json
  pub agent_name : String
  pub skill_name : String
  pub step_id : String
  pub call_id : String

-- A key over 128 characters is hashed.
unfoldable pub execution_key : (String → String) → String → String → String
execution_key sha256 task_id call_id =
    let key = String.◌++◌ task_id (String.◌++◌ ":" call_id) in
    if ltb 128 (length (codes key)) then String.◌++◌ "tool-" (sha256 key) else key

unfoldable pub execution_of : Request → ToolResult → ManagedToolExecution
unfolding artifact_kind
execution_of request result = record {
  call_id = request.call_id;
  tool_name = request.tool_name;
  agent_name = request.agent_name;
  skill_name = request.skill_name;
  step_id = request.step_id;
  result = result;
  artifact = record {
    artifact_id = String.◌++◌ "tool-" request.call_id;
    kind = artifact_kind request.tool_name;
    producer = request.agent_name;
    correlation_id = request.step_id;
    result = result;
  };
}

module _ (reg : Registry) (sha256 : String → String) where
  -- The call with its key: the store's answer, or a run of the tool that the store is told of.
  unfoldable pub run_keyed : String → Request → Assoc Json → World → ManagedToolExecution × World
  unfolding execution_of call
  run_keyed key request args w = elim (get key w.completed) [
    | some result ↦ (execution_of request result, w)
    | none ↦
        let (result, log) =
          call reg request.agent_name request.tool_name (put "idempotency_key" (text key) args)
            w.log in
        (execution_of request result, record { completed = put key result w.completed; log = log })
  ]

  unfoldable pub execute_managed_tool :
      Assoc Json → String → Request → World → Option (ManagedToolExecution × World)
  unfolding trusted_args execution_key run_keyed
  execute_managed_tool state task_id request w =
      elim (trusted_args state request.tool_name request.arguments) [
        | none ↦ none
        | some args ↦ some (run_keyed (execution_key sha256 task_id request.call_id) request args w)
      ]
