-- ===== src/Tools/Registry.antt =====
-- `ToolRegistry` (tools.py): a call is checked against the permissions, and run again once where the
-- tool and the error allow it.
pub mod Laws
use agentic_learning_platfor.Base.{
  ℕ, zero, suc, ◌+◌, String, Bool, true, false, Option, none, some, List, [], ◌∷◌, ltb, Assoc, get,
  put, if◌then◌else◌,
}
use agentic_learning_platfor.Tools.Json.{Json, null, object, end}
use agentic_learning_platfor.Tools.Permissions.{assert_tool_allowed}

-- The `error` of a result; a key that is missing is none.
pub record ToolError : Type 0 where
  pub kind : Option String
  pub message : Option String
  pub retryable : Option Bool

-- The keys of a `ToolResult` that the code reads.
pub record ToolResult : Type 0 where
  pub ok : Bool
  pub tool_name : String
  pub data' : Json
  pub confidence : ℕ
  pub citations : List Json
  pub grounding_mode : Option String
  pub rag_used : Bool
  pub latency_ms : Option ℕ
  pub error : Option ToolError

unfoldable pub tool_error : String → String → String → Bool → ToolResult
tool_error name error_type message retryable = record {
  ok = false;
  tool_name = name;
  data' = object end;
  confidence = 0;
  citations = [];
  grounding_mode = some error_type;
  rag_used = false;
  latency_ms = none;
  error =
      some (record { kind = some error_type; message = some message; retryable = some retryable });
}

-- What running a handler in its thread comes to.
pub data Run : Type 0 where
  finished : ToolResult → Run
  timed_out : Run
  raised : String → Run

pub record Descriptor : Type 0 where
  pub retryable : Bool

-- The registered tools, and the handlers' world: what the n-th run of any handler comes to, and the
-- milliseconds that it takes.
pub record Registry : Type 0 where
  pub descriptors : Assoc Descriptor
  pub handler : String → Bool
  pub run : ℕ → String → Assoc Json → Run
  pub took : ℕ → ℕ
  pub timeout_text : String → String
  pub denied_text : String → String → String
  pub missing_text : String → String

-- One run of a handler, as the log holds it.
pub record Execution : Type 0 where
  pub tool : String
  pub args : Assoc Json

abbrev pub count : List Execution → ℕ
count [] = 0
count (x ∷ log) = suc (count log)

abbrev pub timed : ℕ → ToolResult → ToolResult
timed elapsed r = record {
  ok = r.ok;
  tool_name = r.tool_name;
  data' = r.data';
  confidence = r.confidence;
  citations = r.citations;
  grounding_mode = r.grounding_mode;
  rag_used = r.rag_used;
  latency_ms = some elapsed;
  error = r.error;
}

-- error_info.get("retryable", True), where no error counts as an error without a word
abbrev pub may_retry : ToolResult → Bool
may_retry r = elim r.error [ none ↦ true | some e ↦ elim e.retryable [ none ↦ true | some b ↦ b ] ]

abbrev pub or_text : Option String → String → String
or_text none other = other
or_text (some String.[]) other = other
or_text (some (String.◌∷◌ c s)) other = String.◌∷◌ c s

-- error_info.get("message") or error_info.get("type", "unknown")
abbrev pub last_error : ToolResult → String
last_error r = elim r.error [
  | none ↦ "unknown"
  | some e ↦ or_text e.message (elim e.kind [ none ↦ "unknown" | some k ↦ k ])
]

module _ (reg : Registry) where
  unfoldable pub execute_with_timeout : String → Assoc Json → List Execution → ToolResult
  unfolding tool_error
  execute_with_timeout name args log =
      timed (reg.took (count log)) (elim (reg.run (count log) name args) [
        | finished r ↦ r
        | timed_out ↦ tool_error name "tool_timeout" (reg.timeout_text name) true
        | raised message ↦ tool_error name "tool_exception" message true
      ])

  -- The loop over the attempts, with the number of those that are left.
  unfoldable pub attempts :
      ℕ → String → String → Assoc Json → List Execution → ToolResult × List Execution
  unfolding tool_error execute_with_timeout
  attempts zero message name args log = (
    timed 0 (
        tool_error name "tool_exhausted_retries"
          (or_text (some message) "Tool failed after retries.") false),
    log,
  )
  attempts (suc left) message name args log =
      let result = execute_with_timeout name args log in
      let logged = record { tool = name; args = args } ∷ log in
      let rest = attempts left (last_error result) name args logged in
      if result.ok then (result, logged) else if may_retry result then rest else (result, logged)

  abbrev pub max_retries : String → ℕ
  max_retries name = elim (get name reg.descriptors) [
    | none ↦ 0
    | some d ↦ if d.retryable then 1 else 0
  ]

  unfoldable pub call : String → String → Assoc Json → List Execution → ToolResult × List Execution
  unfolding tool_error assert_tool_allowed attempts
  call agent name args log = elim (assert_tool_allowed agent name) [
    | none ↦ (tool_error name "tool_permission_denied" (reg.denied_text agent name) false, log)
    | some permission ↦
        if reg.handler name
        then attempts (max_retries name + 1) "" name args log
        else (tool_error name "tool_missing" (reg.missing_text name) false, log)
  ]
