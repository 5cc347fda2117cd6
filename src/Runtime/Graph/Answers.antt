-- ===== src/Runtime/Graph/Answers.antt =====
-- What becomes of the answer agent's calls.
use agentic_learning_platfor.Base.{
  ◌≡◌, refl, String, Bool, true, false, List, [], ◌∷◌, All, arith, ◌==◌,
}
use agentic_learning_platfor.Runtime.Graph.{
  Node, State, by_tools, success_count, feedback_action_of, answer_agent_route, after_answer,
}

no_success : (oks : List Bool) → All (λ ok. ok ≡ false) oks → success_count oks ≡ 0
no_success [] h = refl
no_success (true ∷ oks) h = cc
no_success (false ∷ oks) h = no_success oks h.1

-- When the answer agent has made calls and all of them have failed, the task goes to the fallback, and
-- no draft is made of the results, whatever the model has decided to do next.
pub failed_calls_fall_back :
    (s : State) (decided draft : String) (ok : Bool) (oks : List Bool)
    → All (λ b. b ≡ false) (ok ∷ oks)
    → (answer_agent_route (after_answer (by_tools decided (ok ∷ oks) draft) s)
        ≡ Node.fallback_response)
      × ((after_answer (by_tools decided (ok ∷ oks) draft) s).answer_draft ≡ s.answer_draft)
unfolding answer_agent_route after_answer feedback_action_of
failed_calls_fall_back s decided draft ok oks h =
    let e : (success_count (ok ∷ oks) == 0) ≡ true = ground (arith, no_success (ok ∷ oks) h) in
    rw e (refl, refl)
