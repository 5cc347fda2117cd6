-- ===== src/Planner.antt =====
-- backend/packages/harness/deerflow/planner.py: the supervisor's decision, its validation, and the one
-- that is made without a model. A decision that does not validate is Pydantic's ValidationError.
pub mod Terms
pub mod Lengths
use agentic_learning_platfor.Planner.Terms.{
  coach_terms, project_terms, heavy_terms, rag_terms, direct_terms,
}
use agentic_learning_platfor.Base.{
  ℕ, String, Text, Unicode, codes, contains, strip, Bool, true, false, not, ◌&&◌, ◌||◌, ◌⊎◌, inl,
  inr, Option, none, some, List, [], ◌∷◌, ◌++◌, any, length, leb, str_eq, if◌then◌else◌,
}

pub data Route : Type 0 where
  answer : Route
  research : Route

-- Its confidence is in hundredths.
pub record SupervisorDecision : Type 0 where
  pub child_agents : List String
  pub route : Route
  pub intent : Text
  pub reason : Text
  pub confidence : ℕ
  pub needs_rag : Bool
  pub needs_tools : Bool
  pub needs_verification : Bool
  pub stop_after_children : Bool
  pub response_mode : Route
  pub query : Option Text

unfoldable pub child_agents_for_route : Route → List String
child_agents_for_route answer = "answer_agent" ∷ []
child_agents_for_route research = "planner_agent" ∷ "research_agent" ∷ []

abbrev pub same_names : List String → List String → Bool
same_names [] [] = true
same_names (a ∷ names) (b ∷ others) = str_eq a b && same_names names others
same_names _ _ = false

abbrev pub is_answer : Route → Bool
is_answer answer = true
is_answer research = false

-- validate_route_consistency
unfoldable pub is_consistent : SupervisorDecision → Bool
unfolding child_agents_for_route
is_consistent d =
    same_names d.child_agents (child_agents_for_route d.route)
    && (not (is_answer d.route && d.needs_verification)
        && not (not (is_answer d.route) && not d.needs_verification))

abbrev pub within : ℕ → ℕ → Text → Bool
within low high t = leb low (length t) && leb (length t) high

abbrev pub query_fits : Option Text → Bool
query_fits none = true
query_fits (some q) = leb (length q) 2000

-- The fields' own constraints on texts.
unfoldable pub lengths_fit : SupervisorDecision → Bool
lengths_fit d = within 1 128 d.intent && (within 1 1000 d.reason && query_fits d.query)

unfoldable pub is_valid : SupervisorDecision → Bool
unfolding is_consistent lengths_fit
is_valid d =
    (leb 1 (length d.child_agents) && leb (length d.child_agents) 5)
    && (leb d.confidence 100 && (lengths_fit d && is_consistent d))

-- The part of the state that the decision reads; a task type that is missing or empty is none.
pub record Asked : Type 0 where
  pub user_input : Text
  pub task_type : Option Text
  pub kb_id : Bool
  pub document_id : Bool
  pub conversation_id : Bool

abbrev pub has_rag_scope : Asked → Bool
has_rag_scope s = s.kb_id || (s.document_id || s.conversation_id)

-- The branch that a request falls into.
pub data Kind : Type 0 where
  coaching : Kind
  project : Kind
  rag_question : Kind
  direct_chat : Kind
  open_request : Kind

-- The variables that the branches of the decision set.
pub record Branch : Type 0 where
  pub route : Route
  pub intent : Text
  pub confidence : ℕ
  pub needs_rag : Bool
  pub needs_verification : Bool
  pub stop_after_children : Bool
  pub response_mode : Route
  pub query : Option Text
  pub fallback_reason : Text

abbrev pub or_text : Option Text → Text → Text
or_text none default = default
or_text (some t) default = t

module _ (u : Unicode) where
  abbrev pub stripped : Asked → Text
  stripped s = strip u.is_space s.user_input

  unfoldable pub kind_of : Asked → Kind
  kind_of s =
      let task_type = u.lower (or_text s.task_type []) in
      let text = u.lower (stripped s) in
      if any (contains task_type) coach_terms
      then coaching
      else if any (contains task_type) project_terms || any (contains text) heavy_terms
      then project
      else if has_rag_scope s || any (contains text) rag_terms
      then rag_question
      else if leb (length (stripped s)) 160 || any (contains text) direct_terms
      then direct_chat
      else open_request

  -- What each branch sets by hand.
  unfoldable pub branch : Asked → Kind → Branch
  branch s coaching = record {
    route = research;
    intent = codes "learning_improvement";
    confidence = 82;
    needs_rag = has_rag_scope s;
    needs_verification = true;
    stop_after_children = false;
    response_mode = research;
    query = some (stripped s);
    fallback_reason = codes "学习提升任务走诊断、练习、教练短链路。";
  }
  branch s project = record {
    route = research;
    intent = or_text s.task_type (codes "interview_improvement");
    confidence = 72;
    needs_rag = true;
    needs_verification = true;
    stop_after_children = false;
    response_mode = research;
    query = some (stripped s);
    fallback_reason = codes "请求涉及规划、诊断、练习或长期提升，需要进入多 Agent 方案链路。";
  }
  branch s rag_question = record {
    route = answer;
    intent = codes "rag_question";
    confidence = 68;
    needs_rag = true;
    needs_verification = false;
    stop_after_children = true;
    response_mode = answer;
    query = some (stripped s);
    fallback_reason = codes "请求包含知识库上下文或具体资料问题，交给 Tool Agent 做检索问答。";
  }
  branch s direct_chat = record {
    route = answer;
    intent = codes "direct_chat";
    confidence = 62;
    needs_rag = false;
    needs_verification = false;
    stop_after_children = true;
    response_mode = answer;
    query = none;
    fallback_reason = codes "请求较轻量或偏闲聊，无需调用 RAG 或多 Agent 链路。";
  }
  branch s open_request = record {
    route = research;
    intent = or_text s.task_type (codes "interview_improvement");
    confidence = 55;
    needs_rag = true;
    needs_verification = true;
    stop_after_children = false;
    response_mode = research;
    query = some (stripped s);
    fallback_reason = codes "输入较开放，按学习提升或方案设计任务进入多 Agent 链路。";
  }

  abbrev pub decision : Option Text → Branch → SupervisorDecision
  decision reason b = record {
    child_agents = child_agents_for_route b.route;
    route = b.route;
    intent = b.intent;
    reason = or_text reason b.fallback_reason;
    confidence = b.confidence;
    needs_rag = b.needs_rag;
    needs_tools = is_answer b.route && b.needs_rag;
    needs_verification = b.needs_verification;
    stop_after_children = b.stop_after_children;
    response_mode = b.response_mode;
    query = b.query;
  }

  -- The decision of a branch, before it is validated; `reason` is what the caller gives, if it
  -- is not empty.
  unfoldable pub decision_of : Asked → Option Text → Kind → SupervisorDecision
  unfolding child_agents_for_route branch
  decision_of s reason kind = decision reason (branch s kind)

  -- none: the ValidationError.
  unfoldable pub default_supervisor_decision : Asked → Option Text → Option SupervisorDecision
  unfolding kind_of decision_of is_valid
  default_supervisor_decision s reason =
      let d = decision_of s reason (kind_of s) in if is_valid d then some d else none

  abbrev pub failed_call : Text → Text
  failed_call exception =
      codes "Supervisor Agent LLM call failed; applied deterministic delegation: " ++ exception

  abbrev pub sourced :
      Text → Option SupervisorDecision → Option (SupervisorDecision × String × Option Text)
  sourced error none = none
  sourced error (some d) = some (d, "fallback", some error)

  -- The call of the model comes to an exception with its message, or to a decision and its source.
  -- none: an exception, which the handler of the call's exception raises.
  unfoldable pub generate_supervisor_decision :
      Asked
      → Text ⊎ (SupervisorDecision × String)
      → Option (SupervisorDecision × String × Option Text)
  unfolding default_supervisor_decision
  generate_supervisor_decision s (inr (d, source)) = some (d, source, none)
  generate_supervisor_decision s (inl exception) =
      sourced (failed_call exception) (default_supervisor_decision s (some (failed_call exception)))
