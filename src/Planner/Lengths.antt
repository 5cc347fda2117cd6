-- ===== src/Planner/Lengths.antt =====
-- When the decision that is made without a model validates.
use agentic_learning_platfor.Base.{
  ℕ, ◌<◌, Text, Unicode, ◌≡◌, ◌≢◌, refl, Bool, true, false, not, ◌&&◌, inl, ap, ◌∙◌, Option, none,
  some, length, leb, arith, if◌then◌else◌,
}
use agentic_learning_platfor.Planner.{
  SupervisorDecision, within, lengths_fit, is_consistent, is_valid, Asked, Kind, coaching, project,
  rag_question, direct_chat, open_request, stripped, kind_of, decision_of,
  default_supervisor_decision, child_agents_for_route, is_answer, branch, failed_call, sourced,
  generate_supervisor_decision,
}

and-true : (b : Bool) → (b && true) ≡ b
and-true true = refl
and-true false = refl

too_long : (a b : Bool) {n : ℕ} → 2000 < n → (a && (b && leb n 2000)) ≡ false
too_long a b {n} h = ground arith

query_too_long :
    (d : SupervisorDecision) (q : Text) → d.query ≡ some q → 2000 < length q → lengths_fit d ≡ false
unfolding lengths_fit
query_too_long d q e h =
    rw (lengths_fit, e) (too_long (within 1 128 d.intent) (within 1 1000 d.reason) h)

module _ (u : Unicode) where
  decision_of-is_valid :
      (s : Asked) (reason : Option Text) (k : Kind)
      → is_valid (decision_of u s reason k) ≡ lengths_fit (decision_of u s reason k)
  unfolding is_valid is_consistent decision_of branch child_agents_for_route
  decision_of-is_valid s reason coaching = and-true _
  decision_of-is_valid s reason project = and-true _
  decision_of-is_valid s reason rag_question = and-true _
  decision_of-is_valid s reason direct_chat = and-true _
  decision_of-is_valid s reason open_request = and-true _

  decision_of-agents :
      (s : Asked) (reason : Option Text) (k : Kind)
      → ((decision_of u s reason k).child_agents
          ≡ child_agents_for_route (decision_of u s reason k).route)
        × ((decision_of u s reason k).needs_verification
            ≡ not (is_answer (decision_of u s reason k).route))
        × ((decision_of u s reason k).stop_after_children
            ≡ is_answer (decision_of u s reason k).response_mode)
        × ((decision_of u s reason k).response_mode ≡ (decision_of u s reason k).route)
  unfolding decision_of branch
  decision_of-agents s reason coaching = (refl, refl, refl, refl)
  decision_of-agents s reason project = (refl, refl, refl, refl)
  decision_of-agents s reason rag_question = (refl, refl, refl, refl)
  decision_of-agents s reason direct_chat = (refl, refl, refl, refl)
  decision_of-agents s reason open_request = (refl, refl, refl, refl)

  abbrev pub fallback : Asked → Option Text → SupervisorDecision
  fallback s reason = decision_of u s reason (kind_of u s)

  -- Whatever branch the request falls into, the fields that the branch sets agree: the agents are those
  -- of the route, a verification is asked for exactly where the route is research, the run stops after
  -- the children exactly where the answer is their response, and the mode of the response is the route.
  -- So the validator has nothing against them, and the decision is returned if its texts are within
  -- the lengths of the schema, and else fails to validate.
  pub default_supervisor_decision_valid :
      (s : Asked) (reason : Option Text)
      → ((fallback s reason).child_agents ≡ child_agents_for_route (fallback s reason).route)
        × ((fallback s reason).needs_verification ≡ not (is_answer (fallback s reason).route))
        × ((fallback s reason).stop_after_children ≡ is_answer (fallback s reason).response_mode)
        × ((fallback s reason).response_mode ≡ (fallback s reason).route)
        × (default_supervisor_decision u s reason
            ≡ (if lengths_fit (fallback s reason) then some (fallback s reason) else none))
  unfolding default_supervisor_decision
  default_supervisor_decision_valid s reason =
      let agents = decision_of-agents s reason (kind_of u s) in
      (
        agents.0,
        agents.1,
        agents.2,
        agents.3,
        rw (decision_of-is_valid s reason (kind_of u s)) refl,
      )

  lengths_fit-long :
      (s : Asked) (reason : Option Text) (k : Kind)
      → k ≢ direct_chat
      → 2000 < length (stripped u s)
      → lengths_fit (decision_of u s reason k) ≡ false
  unfolding decision_of branch
  lengths_fit-long s reason coaching ne h =
      query_too_long (decision_of u s reason coaching) (stripped u s) refl h
  lengths_fit-long s reason project ne h =
      query_too_long (decision_of u s reason project) (stripped u s) refl h
  lengths_fit-long s reason rag_question ne h =
      query_too_long (decision_of u s reason rag_question) (stripped u s) refl h
  lengths_fit-long s reason direct_chat ne h = absurd (ne refl)
  lengths_fit-long s reason open_request ne h =
      query_too_long (decision_of u s reason open_request) (stripped u s) refl h

  -- For a request of more than 2000 characters that is not taken for direct chat: when the call of the
  -- model raises an exception, whatever it is, the decision that takes its place fails to validate,
  -- and generate_supervisor_decision ends with an exception itself.
  pub long_request_fails :
      (s : Asked) (exception : Text)
      → kind_of u s ≢ direct_chat
      → 2000 < length (stripped u s)
      → generate_supervisor_decision u s (inl exception) ≡ none
  unfolding generate_supervisor_decision
  long_request_fails s exception ne h =
      let reason = some (failed_call u exception) in
      let invalid : default_supervisor_decision u s reason ≡ none =
        (default_supervisor_decision_valid s reason).4
        ∙ ap (λ fit. if fit then some (fallback s reason) else none)
            (lengths_fit-long s reason (kind_of u s) ne h) in
      ap (sourced u (failed_call u exception)) invalid
