-- ===== src/Tests/ToolRuns.antt =====
-- The check of a tool's arguments on concrete inputs.
use agentic_learning_platfor.Base.{
  ℕ, String, ◌≡◌, ◌⊎◌, refl, false, none, [], ◌∷◌, Assoc, get, strip, lstrip, rstrip,
}
use agentic_learning_platfor.Tools.Json.{Json, number, text}
use agentic_learning_platfor.Tools.Registry.{ToolResult, Run, finished, raised, tool_error}
use agentic_learning_platfor.Tools.Arguments.{
  Reader, call_handler, validate_tool_args, is_filled, int_of, text_error, number_error,
  knowledge_error,
}
use agentic_learning_platfor.Tools.Arguments.Bounds.{IsAsked, call_handler-IsAsked}
use agentic_learning_platfor.Tests.{ascii}

abbrev reader : Reader
reader = record { unicode = ascii; int_text = λ s. none; int_error = "int" }

abbrev question : ℕ → Assoc Json
question top_k = ("query", text "what is antt") ∷ ("top_k", number top_k) ∷ []

abbrev answered : ToolResult
answered = tool_error "knowledge.answer" "none" "found nothing" false

abbrev answering : String → Assoc Json → Run
answering name args = finished answered

refused_top_k :
    call_handler reader answering "knowledge.answer" (question 21)
    ≡ raised "top_k must be between 1 and 20."
unfolding call_handler validate_tool_args knowledge_error text_error number_error is_filled int_of
    strip lstrip rstrip get
refused_top_k = refl

abbrev asked_tool : String
asked_tool = "knowledge.answer"

call_handler-IsAsked_example :
    ((asked_tool ≡ "knowledge.answer") ⊎ (asked_tool ≡ "knowledge.repair_retrieval")
      → IsAsked reader (question 5) 2000 "top_k" 5 20)
    × (asked_tool ≡ "github.search_repositories" → IsAsked reader (question 5) 512 "limit" 3 10)
    × (asked_tool ≡ "web.search_duckduckgo" → IsAsked reader (question 5) 512 "limit" 5 10)
unfolding call_handler validate_tool_args knowledge_error text_error number_error is_filled int_of
    strip lstrip rstrip get tool_error
call_handler-IsAsked_example =
    call_handler-IsAsked reader answering asked_tool (question 5) answered refl
