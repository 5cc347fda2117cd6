-- ===== src/Runtime/Graph.antt =====
-- The graph of the agents (runtime.py, `build_agent_graph`): the nodes, the routes between them, and a
-- run as a sequence of steps. What the models, the user and the research loop come to is given to a
-- step; the messages, events and memory that a node writes are left out. A node that raises an
-- exception ends the run, which is no step.
pub mod Published
pub mod Answers
use Prim.Native.String
use agentic_learning_platfor.Base.{
  ℕ, zero, suc, ◌+◌, ◌-◌, String, Text, Unicode, codes, strip, starts_with, Bool, true, false, not,
  ◌&&◌, ◌||◌, ◌≤◌, ◌≡◌, Option, none, some, List, [], ◌∷◌, length, any, select, max, str_eq, ◌==◌,
  if◌then◌else◌,
}
use agentic_learning_platfor.Tools.Json.{Json, is_true, field_of, text_field}
use agentic_learning_platfor.Runtime.Research.{Task, Env, Work}
use agentic_learning_platfor.Runtime.Research.Loop
use agentic_learning_platfor.Runtime.Research.Loop.{
  NextAction, complete, ask_user, fallback, Findings, left,
}

pub data Node : Type 0 where
  supervisor_agent : Node
  answer_agent : Node
  planner_agent : Node
  approval_gate : Node
  research_agent : Node
  review_agent : Node
  final_response : Node
  fallback_response : Node
  end : Node

pub data Status : Type 0 where
  running : Status
  waiting_user : Status
  completed : Status
  failed : Status

pub data Outcome : Type 0 where
  needs_confirmation : Outcome
  approved : Outcome
  rejected : Outcome

-- The part of AgentTaskState that the graph reads and writes; `route` is that of the supervisor's
-- decision, `feedback_action` the next action of the answer agent's feedback.
pub record State : Type 0 where
  pub user_input : String
  pub route : String
  pub feedback_action : String
  pub answer_draft : String
  pub approval_required : Bool
  pub next_action : Option NextAction
  pub proposal : Json
  pub verification : Json
  pub repair_count : ℕ
  pub review : Option Outcome
  pub status : Status
  pub final_answer : String

-- The routes. none: the ValidationError for a route that the graph does not know.
unfoldable pub supervisor_route : State → Option Node
supervisor_route s =
    if str_eq s.route "answer"
    then some answer_agent
    else if str_eq s.route "research"
    then some planner_agent
    else none

unfoldable pub answer_agent_route : State → Node
answer_agent_route s =
    if str_eq s.feedback_action "fallback" then fallback_response else final_response

unfoldable pub plan_route : State → Node
plan_route s = if s.approval_required then approval_gate else research_agent

unfoldable pub research_agent_route : State → Node
research_agent_route s = elim s.next_action [
  | none ↦ fallback_response
  | some complete ↦ review_agent
  | some ask_user ↦ approval_gate
  | some fallback ↦ fallback_response
]

unfoldable pub review_agent_route : State → Node
review_agent_route s = elim s.next_action [
  | none ↦ fallback_response
  | some complete ↦ final_response
  | some ask_user ↦ approval_gate
  | some fallback ↦ fallback_response
]

abbrev pub success_count : List Bool → ℕ
success_count [] = 0
success_count (true ∷ oks) = suc (success_count oks)
success_count (false ∷ oks) = success_count oks

-- The next action: if all the calls have failed it is the fallback, whatever the model has decided.
unfoldable pub feedback_action_of : String → List Bool → String
feedback_action_of decided oks = elim oks [
  | [] ↦ decided
  | ok ∷ rest ↦ if success_count (ok ∷ rest) == 0 then "fallback" else decided
]

-- What the answer agent's run comes to: no call, with the model's draft; or the calls' success, with
-- the draft made of their results.
pub data Answered : Type 0 where
  directly : String → Answered
  by_tools : String → List Bool → String → Answered

pub record Review : Type 0 where
  pub next_action : NextAction
  pub outcome : Outcome

abbrev pub verification_status : Json → String
verification_status verification = text_field "fallback" "status" verification

abbrev pub has_deliverable : Json → Bool
has_deliverable proposal =
    is_true (field_of "summary" proposal) || is_true (field_of "sections" proposal)

unfoldable pub review_of : Json → Json → Review
review_of verification proposal =
    if str_eq (verification_status verification) "needs_approval"
    then record { next_action = ask_user; outcome = needs_confirmation }
    else if str_eq (verification_status verification) "passed" && has_deliverable proposal
    then record { next_action = complete; outcome = approved }
    else record { next_action = fallback; outcome = rejected }

-- The nodes: how each changes the state.
unfoldable pub after_supervisor : String → State → State
after_supervisor route s = record s { route = route; status = running }

unfoldable pub after_answer : Answered → State → State
unfolding feedback_action_of
after_answer (directly draft) s = record s {
  feedback_action = "complete";
  answer_draft = draft;
  status = running;
}
after_answer (by_tools decided oks draft) s =
    let action = feedback_action_of decided oks in
    record s {
      feedback_action = action;
      answer_draft = if str_eq action "complete" then draft else s.answer_draft;
      status = running;
    }

-- The plan is made anew; its need of an approval is the model's.
unfoldable pub after_planner : Bool → State → State
after_planner approval_required s = record s {
  approval_required = approval_required;
  status = if approval_required then waiting_user else running;
}

-- The user's answer; what is no object counts as a refusal.
pub data Approval : Type 0 where
  approve : Approval
  edit : String → Approval
  reject : Approval

abbrev pub or_text : String → String → String
or_text String.[] other = other
or_text (String.◌∷◌ c s) other = String.◌∷◌ c s

unfoldable pub approval_gate_goto : Approval → Node
approval_gate_goto approve = research_agent
approval_gate_goto (edit user_input) = planner_agent
approval_gate_goto reject = fallback_response

unfoldable pub after_approval : Approval → State → State
after_approval approve s = record s { status = running }
after_approval (edit user_input) s = record s {
  status = running;
  user_input = or_text user_input s.user_input;
}
after_approval reject s = record s { status = running }

unfoldable pub after_research : Findings → State → State
after_research f s = record s {
  next_action = some f.next_action;
  proposal = f.proposal;
  verification = f.verification;
  repair_count = f.repair_count;
  status = if f.is_over_budget then failed else running;
}

unfoldable pub after_review : State → State
unfolding review_of
after_review s =
    let review = review_of s.verification s.proposal in
    record s {
      next_action = some review.next_action;
      review = some review.outcome;
      status = running;
    }

abbrev pub is_blank : Text → Bool
is_blank [] = true
is_blank (c ∷ text) = false

-- The published answer: the draft, and without one the proposal as `render` sets it.
unfoldable pub after_final : Unicode → (Text → String) → (Json → Json → String) → State → State
after_final u of_codes render s =
    let draft = strip u.is_space (codes s.answer_draft) in
    record s {
      status = completed;
      final_answer = if is_blank draft then render s.proposal s.verification else of_codes draft;
    }

abbrev pub fallback_answer : String
fallback_answer = "当前无法取得足够的可验证证据来完成该方案。请补充或索引相关项目材料后重试。"

unfoldable pub after_fallback : State → State
after_fallback s = record s { status = completed; final_answer = fallback_answer }

-- What the research agent finds in the state.
abbrev pub before_research : State → Findings
before_research s = record {
  next_action = fallback;
  proposal = s.proposal;
  verification = s.verification;
  repair_count = s.repair_count;
  is_over_budget = false;
}

module _ (u : Unicode) (of_codes : Text → String) (render : Json → Json → String) where
  -- A step of the graph. A plan of more than `max_steps` tasks (8, where the budget has no other number)
  -- raises AgentBudgetExceeded.
  pub data Step : Node → State → Node → State → Type 0 where
    supervise :
        (s : State) (route : String) (n : Node)
        → supervisor_route (after_supervisor route s) ≡ some n
        → Step supervisor_agent s n (after_supervisor route s)
    answer :
        (s : State) (a : Answered)
        → Step answer_agent s (answer_agent_route (after_answer a s)) (after_answer a s)
    plan :
        (s : State) (approval_required : Bool) (task_count max_steps : ℕ)
        → task_count ≤ max_steps
        → Step planner_agent s
            (plan_route (after_planner approval_required s))
            (after_planner approval_required s)
    decide :
        (s : State) (a : Approval)
        → Step approval_gate s (approval_gate_goto a) (after_approval a s)
    research :
        (s : State) (env : Env) (tasks : List Task) (f : Findings) (w : Work)
        → Loop.research_agent env (before_research s) tasks ≡ some (left f w)
        → Step research_agent s (research_agent_route (after_research f s)) (after_research f s)
    review :
        (s : State) → Step review_agent s (review_agent_route (after_review s)) (after_review s)
    publish : (s : State) → Step final_response s end (after_final u of_codes render s)
    give_up : (s : State) → Step fallback_response s end (after_fallback s)

  -- The nodes and states that a task comes to.
  pub data Reach (s₀ : State) : Node → State → Type 0 where
    begin : Reach s₀ supervisor_agent s₀
    step :
        (n : Node) (s : State) (m : Node) (t : State) → Reach s₀ n s → Step n s m t → Reach s₀ m t
