-- ===== src/Tools/Permissions.antt =====
-- tool_permissions.py.
use agentic_learning_platfor.Base.{
  String, Option, none, some, List, [], ◌∷◌, any, str_eq, if◌then◌else◌,
}

pub record ToolPermission : Type 0 where
  pub agent : String
  pub tool : String

abbrev pub research_agent_tools : List String
research_agent_tools =
    "web.search_duckduckgo" ∷ "github.search_repositories" ∷ "github.read_readme"
    ∷ "knowledge.answer" ∷ "knowledge.repair_retrieval" ∷ "architecture.generate_proposal"
    ∷ "verification.verify_proposal" ∷ "planning.repair_research_tasks" ∷ []

abbrev pub answer_agent_tools : List String
answer_agent_tools =
    "web.search_duckduckgo" ∷ "github.search_repositories" ∷ "github.read_readme"
    ∷ "knowledge.answer" ∷ "knowledge.repair_retrieval" ∷ "knowledge.verify_claim"
    ∷ "learning.scenario_blueprint" ∷ []

-- ALLOWED_TOOLS_BY_AGENT.get(agent, frozenset())
abbrev pub allowed_tools_by_agent : String → List String
allowed_tools_by_agent agent =
    if str_eq agent "research_agent"
    then research_agent_tools
    else if str_eq agent "answer_agent"
    then answer_agent_tools
    else []

-- none: the ToolPermissionError.
unfoldable pub assert_tool_allowed : String → String → Option ToolPermission
assert_tool_allowed agent tool =
    if any (str_eq tool) (allowed_tools_by_agent agent)
    then some (record { agent = agent; tool = tool })
    else none
