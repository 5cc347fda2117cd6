-- ===== src/Tools/Arguments.antt =====
-- The check of a tool's arguments before its handler runs (tools.py, `_validate_tool_args` and
-- `_call_handler`). Unicode's tables and int(text) are parameters; `int_text` is none where it raises.
pub mod Bounds
use agentic_learning_platfor.Base.{
  ℕ, zero, suc, ◌≤◌, String, Text, Unicode, codes, strip, Bool, true, false, not, ◌&&◌, ◌||◌,
  Option, none, some, List, [], ◌∷◌, any, length, ltb, leb, ◌==◌, Assoc, get, str_eq, if◌then◌else◌,
}
use agentic_learning_platfor.Tools.Json.{
  Json, null, bool, number, text, array, object, is_true, get_or, get_true,
}
use agentic_learning_platfor.Tools.Registry.{ToolResult, Run, finished, raised}

pub record Reader : Type 0 where
  pub unicode : Unicode
  pub int_text : String → Option ℕ
  pub int_error : String

abbrev pub is_blank : Text → Bool
is_blank [] = true
is_blank (c ∷ others) = false

abbrev pub one_of : List String → String → Bool
one_of names name = any (str_eq name) names

-- One error, or the next one.
abbrev pub or_next : Option String → Option String → Option String
or_next none next = next
or_next (some error) next = some error

abbrev pub fails : Bool → String → Option String
fails true error = some error
fails false error = none

abbrev pub is_array : Json → Bool
is_array (array items) = true
is_array _ = false

abbrev pub is_object : Json → Bool
is_object (object fields) = true
is_object _ = false

abbrev pub is_null : Json → Bool
is_null null = true
is_null _ = false

module _ (r : Reader) where
  -- `isinstance(value, str) and value.strip()`
  unfoldable pub is_filled : Json → Bool
  unfolding strip
  is_filled (text s) = not (is_blank (strip r.unicode.is_space (codes s)))
  is_filled _ = false

  abbrev pub length_of : Json → ℕ
  length_of (text s) = length (codes s)
  length_of _ = 0

  -- int(value), where a bool is 0 or 1.
  unfoldable pub int_of : Json → Option ℕ
  int_of (number n) = some n
  int_of (bool true) = some 1
  int_of (bool false) = some 0
  int_of (text s) = r.int_text s
  int_of _ = none

  abbrev pub within : ℕ → Option ℕ → String → Option String
  within high none error = some r.int_error
  within high (some n) error = fails (not (leb 1 n && leb n high)) error

  -- A text that is asked for, and a number that has a default.
  unfoldable pub text_error : Json → ℕ → String → String → Option String
  unfolding is_filled
  text_error value high missing long =
      or_next (fails (not (is_filled value)) missing) (fails (ltb high (length_of value)) long)

  unfoldable pub number_error : String → ℕ → ℕ → String → Assoc Json → Option String
  unfolding int_of get
  number_error key default high error args =
      within high (int_of (get_true (number default) key args)) error

  unfoldable pub knowledge_error : Assoc Json → Option String
  unfolding text_error number_error
  knowledge_error args =
      or_next
        (text_error (get_or null "query" args) 2000 "Knowledge tools require a non-empty query."
          "Knowledge query exceeds 2000 characters.")
        (number_error "top_k" 5 20 "top_k must be between 1 and 20." args)

  unfoldable pub github_error : Assoc Json → Option String
  unfolding text_error number_error
  github_error args =
      or_next
        (text_error (get_or null "query" args) 512 "GitHub search requires a non-empty query."
          "GitHub search query exceeds 512 characters.")
        (number_error "limit" 3 10 "limit must be between 1 and 10." args)

  abbrev pub has_slash : Json → Bool
  has_slash (text s) = any (λ c. c == 47) (codes s)
  has_slash _ = false

  unfoldable pub readme_error : Assoc Json → Option String
  unfolding is_filled get
  readme_error args =
      let repo = get_or null "repo" args in
      or_next
        (fails (not (is_filled repo) || not (has_slash repo))
          "github.read_readme requires repo in owner/name format.")
        (fails (ltb 255 (length_of repo)) "repo exceeds 255 characters.")

  unfoldable pub web_error : Assoc Json → Option String
  unfolding text_error number_error
  web_error args =
      or_next
        (text_error (get_or null "query" args) 512 "DuckDuckGo search requires a non-empty query."
          "DuckDuckGo search query exceeds 512 characters.")
        (number_error "limit" 5 10 "limit must be between 1 and 10." args)

  abbrev pub is_short_text : Json → Bool
  is_short_text (text s) = leb (length (codes s)) 128
  is_short_text _ = false

  unfoldable pub blueprint_error : Assoc Json → Option String
  unfolding get
  blueprint_error args =
      let key = get_or null "scenario_key" args in
      fails (not (is_null key) && not (is_short_text key))
        "scenario_key must be a string under 128 characters."

  abbrev pub artifacts_error : String → Assoc Json → Option String
  artifacts_error error args =
      let artifacts = get_or null "artifacts" args in
      fails (not (is_null artifacts) && not (is_array artifacts)) error

  abbrev pub object_error : String → String → Assoc Json → Option String
  object_error key error args = fails (not (is_object (get_or null key args))) error

  -- None is a check that passes; the arguments are an object.
  unfoldable pub validate_tool_args : String → Assoc Json → Option String
  unfolding knowledge_error github_error readme_error web_error blueprint_error get
  validate_tool_args name args =
      if one_of ("knowledge.answer" ∷ "knowledge.repair_retrieval" ∷ []) name
      then knowledge_error args
      else if str_eq name "github.search_repositories"
      then github_error args
      else if str_eq name "github.read_readme"
      then readme_error args
      else if str_eq name "web.search_duckduckgo"
      then web_error args
      else if str_eq name "learning.scenario_blueprint"
      then blueprint_error args
      else if str_eq name "architecture.generate_proposal"
      then artifacts_error "architecture.generate_proposal requires artifacts to be a list." args
      else if str_eq name "verification.verify_proposal"
      then or_next
          (object_error "proposal" "verification.verify_proposal requires a proposal object." args)
          (artifacts_error "verification.verify_proposal requires artifacts to be a list." args)
      else if str_eq name "planning.repair_research_tasks"
      then object_error "verification"
          "planning.repair_research_tasks requires a verification object." args
      else none

  abbrev pub unless_error : Option String → Run → Run
  unless_error none run = run
  unless_error (some error) run = raised error

  -- What a handler comes to, behind the check of its arguments.
  unfoldable pub call_handler : (String → Assoc Json → Run) → String → Assoc Json → Run
  unfolding validate_tool_args
  call_handler handler name args = unless_error (validate_tool_args name args) (handler name args)
