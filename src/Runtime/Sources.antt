-- ===== src/Runtime/Sources.antt =====
-- Where evidence may come from: `resolve_source_policy` (source_policy.py), the tools that the research
-- agent searches with (planner.py, `generate_research_source_decision`), and the calls that the answer
-- agent may make (runtime.py, `_answer_agent`).
pub mod Local
use agentic_learning_platfor.Base.{
  String, Text, Unicode, codes, contains, starts_with, Bool, true, false, ◌||◌, Option, none, some,
  List, [], ◌∷◌, any, select, str_eq, if◌then◌else◌,
}

abbrev pub local_only_phrases : List Text
local_only_phrases =
    codes "仅参考本地知识库"
    ∷ codes "只参考本地知识库"
    ∷ codes "仅使用本地知识库"
    ∷ codes "只使用本地知识库"
    ∷ codes "只查本地资料"
    ∷ codes "仅查本地资料"
    ∷ codes "only use local knowledge base"
    ∷ codes "local knowledge base only"
    ∷ []

pub data SourcePolicy : Type 0 where
  auto : SourcePolicy
  local_only : SourcePolicy

abbrev pub is_named : Option String → Bool
is_named none = false
is_named (some policy) = str_eq policy "local_only"

-- The state's source policy, and its user input.
unfoldable pub resolve_source_policy : Unicode → Option String → Text → SourcePolicy
resolve_source_policy u policy user_input =
    if is_named policy
    then local_only
    else if any (contains (u.lower user_input)) local_only_phrases
    then local_only
    else auto

abbrev pub is_knowledge : String → Bool
is_knowledge tool_name = starts_with (codes tool_name) (codes "knowledge.")

unfoldable pub default_research_source_decision : SourcePolicy → List String
default_research_source_decision local_only = "knowledge.answer" ∷ []
default_research_source_decision auto = "knowledge.answer" ∷ "web.search_duckduckgo" ∷ []

abbrev pub narrowed : SourcePolicy → List String → List String
narrowed local_only names = select is_knowledge names
narrowed auto names = names

abbrev pub or_else : List String → List String → List String
or_else [] default = default
or_else (name ∷ names) default = name ∷ names

-- The names that the model has decided on; none where the call of the model has failed.
unfoldable pub generate_research_source_decision :
    SourcePolicy → List String → Option (List String) → List String
unfolding default_research_source_decision
generate_research_source_decision policy available none = default_research_source_decision policy
generate_research_source_decision policy available (some names) =
    or_else (narrowed policy (select (λ name. any (str_eq name) available) names))
      (default_research_source_decision policy)

-- A call that the answer agent's decision asks for.
pub record ToolCall : Type 0 where
  pub call_id : String
  pub tool_name : String

abbrev pub or_knowledge : String → List ToolCall → List ToolCall
or_knowledge fresh_id [] = record { call_id = fresh_id; tool_name = "knowledge.answer" } ∷ []
or_knowledge fresh_id (call ∷ calls) = call ∷ calls

-- The calls that the answer agent makes: under `local_only` those of the knowledge base, one at least.
unfoldable pub allowed_calls : SourcePolicy → String → List ToolCall → List ToolCall
allowed_calls local_only fresh_id calls =
    or_knowledge fresh_id (select (λ c. is_knowledge c.tool_name) calls)
allowed_calls auto fresh_id calls = calls
