-- ===== src/Tests/PlannerRuns.antt =====
-- Runs of the supervisor's decision (planner.py).
use agentic_learning_platfor.Base.{
  ℕ, zero, suc, Text, codes, contains, starts_with, strip, lstrip, rstrip, ◌≡◌, ◌≢◌, refl, sym, ◌∙◌,
  false, not, inl, none, some, [], ◌∷◌, arith, if◌then◌else◌,
}
use agentic_learning_platfor.Tests.{ascii}
use agentic_learning_platfor.Planner.{
  Asked, coaching, direct_chat, lengths_fit, kind_of, default_supervisor_decision,
  generate_supervisor_decision, child_agents_for_route, is_answer,
}
use agentic_learning_platfor.Planner.Lengths.{
  fallback, default_supervisor_decision_valid, long_request_fails,
}

abbrev greeting : Asked
greeting = record {
  user_input = codes "good morning";
  task_type = none;
  kb_id = false;
  document_id = false;
  conversation_id = false;
}

default_supervisor_decision_valid_example :
    ((fallback ascii greeting none).child_agents
      ≡ child_agents_for_route (fallback ascii greeting none).route)
    × ((fallback ascii greeting none).needs_verification
        ≡ not (is_answer (fallback ascii greeting none).route))
    × ((fallback ascii greeting none).stop_after_children
        ≡ is_answer (fallback ascii greeting none).response_mode)
    × ((fallback ascii greeting none).response_mode ≡ (fallback ascii greeting none).route)
    × (default_supervisor_decision ascii greeting none ≡ (
        if lengths_fit (fallback ascii greeting none)
        then some (fallback ascii greeting none)
        else none))
default_supervisor_decision_valid_example = default_supervisor_decision_valid ascii greeting none

abbrev letters : ℕ → Text
letters zero = []
letters (suc n) = 97 ∷ letters n

abbrev long_request : Asked
long_request = record {
  user_input = letters 2001;
  task_type = some (codes "coach");
  kb_id = false;
  document_id = false;
  conversation_id = false;
}

long_request_kind : kind_of ascii long_request ≡ coaching
unfolding kind_of contains starts_with
long_request_kind = refl

coaching_is_not_chat : coaching ≢ direct_chat
coaching_is_not_chat e = cc

long_request_fails_example :
    generate_supervisor_decision ascii long_request (inl (codes "timeout")) ≡ none
unfolding strip lstrip rstrip
long_request_fails_example =
    long_request_fails ascii long_request (codes "timeout")
      (λ e. coaching_is_not_chat (sym long_request_kind ∙ e)) (omega arith)
