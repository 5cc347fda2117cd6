-- ===== src/Runtime/Graph/Published.antt =====
-- What the graph publishes.
use agentic_learning_platfor.Base.{
  ℕ, String, Text, Unicode, ◌≡◌, refl, sym, subst, some_inj, ◌≤◌, max, ◌∙◌, ◌⊎◌, inl, inr, Bool,
  true, ◌&&◌, none, some, str_eq, eq_iff, arith, Bool-cases,
}
use agentic_learning_platfor.Tools.Json.{Json}
use agentic_learning_platfor.Runtime.Research.{max_repair_count}
use agentic_learning_platfor.Runtime.Research.Loop.{NextAction, complete, ask_user, fallback}
use agentic_learning_platfor.Runtime.Research.Loop.Ends.{Ends, research_agent-Ends}
use agentic_learning_platfor.Runtime.Graph.{
  Node, State, Step, supervise, answer, plan, decide, research, review, publish, give_up, Reach,
  begin, step, has_deliverable, verification_status, review_of, feedback_action_of, after_final,
  after_fallback, before_research, supervisor_route, after_supervisor, answer_agent_route,
  after_answer, Answered, directly, by_tools, plan_route, after_planner, approval_gate_goto,
  after_approval, Approval, approve, edit, reject, research_agent_route, after_research,
  review_agent_route, after_review,
}

-- The route of the supervisor's decision is `answer`, or the verification has passed and there is
-- something to publish.
abbrev pub Publishable : State → Type 0
Publishable s =
    (s.route ≡ "answer")
    ⊎ ((verification_status s.verification ≡ "passed") × (has_deliverable s.proposal ≡ true))

-- What holds of the state at a node.
abbrev pub Inv : Node → State → Type 0
Inv Node.answer_agent s = s.route ≡ "answer"
Inv Node.final_response s = Publishable s
Inv _ s = Unit

supervisor_route-Inv : (s : State) (n : Node) → supervisor_route s ≡ some n → Inv n s
unfolding supervisor_route
supervisor_route-Inv s n h = elim (Bool-cases (str_eq s.route "answer")) [
  | inl a ↦
      let to : supervisor_route s ≡ some Node.answer_agent = rw (supervisor_route, a) refl in
      subst (λ m. Inv m s) (some_inj (sym to ∙ h)) ((eq_iff s.route "answer").0 a)
  | inr a ↦ elim (Bool-cases (str_eq s.route "research")) [
    | inl r ↦
        let to : supervisor_route s ≡ some Node.planner_agent = rw (supervisor_route, a, r) refl in
        subst (λ m. Inv m s) (some_inj (sym to ∙ h)) tt
    | inr r ↦ let to : supervisor_route s ≡ none = rw (supervisor_route, a, r) refl in cc (to, h)
  ]
]

answer-Inv :
    (s : State) (a : Answered)
    → s.route ≡ "answer"
    → Inv (answer_agent_route (after_answer a s)) (after_answer a s)
unfolding after_answer answer_agent_route
answer-Inv s (directly draft) h = inl h
answer-Inv s (by_tools decided oks draft) h =
    elim (Bool-cases (str_eq (feedback_action_of decided oks) "fallback")) [
      | inl e ↦ rw e tt
      | inr e ↦ rw e (inl h)
    ]

plan-Inv : (s : State) → Inv (plan_route s) s
unfolding plan_route
plan-Inv s = elim (Bool-cases s.approval_required) [
  | inl e ↦ rw (plan_route, e) tt
  | inr e ↦ rw (plan_route, e) tt
]

decide-Inv : (a : Approval) (s : State) → Inv (approval_gate_goto a) s
unfolding approval_gate_goto
decide-Inv approve s = tt
decide-Inv (edit user_input) s = tt
decide-Inv reject s = tt

research-Inv :
    (s : State) (a : NextAction) → s.next_action ≡ some a → Inv (research_agent_route s) s
unfolding research_agent_route
research-Inv s complete e = rw (research_agent_route, e) tt
research-Inv s ask_user e = rw (research_agent_route, e) tt
research-Inv s fallback e = rw (research_agent_route, e) tt

review-Inv : (s : State) → Inv (review_agent_route (after_review s)) (after_review s)
unfolding review_agent_route after_review review_of
review-Inv s = elim (Bool-cases (str_eq (verification_status s.verification) "needs_approval")) [
  | inl a ↦ rw a tt
  | inr a ↦
      elim (Bool-cases
        (str_eq (verification_status s.verification) "passed" && has_deliverable s.proposal)) [
          | inl p ↦
              rw (a, p)
                (inr (
                  (eq_iff (verification_status s.verification) "passed").0 (and_true p).0,
                  (and_true p).1,
                ))
          | inr p ↦ rw (a, p) tt
        ]
]
  where
    and_true : {a b : Bool} → (a && b) ≡ true → (a ≡ true) × (b ≡ true)
    and_true {a} {b} e = ground arith

module _ (u : Unicode) (of_codes : Text → String) (render : Json → Json → String) where
  Step-Inv :
      (n : Node) (s : State) (m : Node) (t : State)
      → Inv n s
      → Step u of_codes render n s m t
      → Inv m t
  unfolding after_research
  Step-Inv _ _ _ _ h (supervise s route n e) = supervisor_route-Inv (after_supervisor route s) n e
  Step-Inv _ _ _ _ h (answer s a) = answer-Inv s a h
  Step-Inv _ _ _ _ h (plan s approval_required task_count max_steps k) =
      plan-Inv (after_planner approval_required s)
  Step-Inv _ _ _ _ h (decide s a) = decide-Inv a (after_approval a s)
  Step-Inv _ _ _ _ h (research s env tasks f w e) =
      research-Inv (after_research f s) f.next_action refl
  Step-Inv _ _ _ _ h (review s) = review-Inv s
  Step-Inv _ _ _ _ h (publish s) = tt
  Step-Inv _ _ _ _ h (give_up s) = tt

  Reach-Inv : (s₀ : State) (n : Node) (s : State) → Reach u of_codes render s₀ n s → Inv n s
  Reach-Inv s₀ _ _ begin = tt
  Reach-Inv s₀ _ _ (step n s m t r st) = Step-Inv n s m t (Reach-Inv s₀ n s r) st

  -- However the models decide, the tools answer and the user approves: when a task comes to publish,
  -- the supervisor has routed it to a plain answer, or the verification has passed and the proposal
  -- has a summary or sections.
  pub published_is_verified :
      (s₀ s : State) → Reach u of_codes render s₀ Node.final_response s → Publishable s
  published_is_verified s₀ s r = Reach-Inv s₀ Node.final_response s r

  Step-repairs :
      (n : Node) (s : State) (m : Node) (t : State) (top : ℕ)
      → max_repair_count ≤ top
      → s.repair_count ≤ top
      → Step u of_codes render n s m t
      → t.repair_count ≤ top
  unfolding after_supervisor after_answer after_planner after_approval after_research after_review
      after_final after_fallback
  Step-repairs _ _ _ _ top m h (supervise s route n e) = h
  Step-repairs _ _ _ _ top m h (answer s (directly draft)) = h
  Step-repairs _ _ _ _ top m h (answer s (by_tools decided oks draft)) = h
  Step-repairs _ _ _ _ top m h (plan s approval_required task_count max_steps k) = h
  Step-repairs _ _ _ _ top m h (decide s approve) = h
  Step-repairs _ _ _ _ top m h (decide s (edit user_input)) = h
  Step-repairs _ _ _ _ top m h (decide s reject) = h
  Step-repairs _ _ _ _ top m h (research s env tasks f w e) =
      let found =
        subst (λ o. Ends (max s.repair_count max_repair_count) o) e
          (research_agent-Ends env (before_research s) tasks) in
      omega (arith, found.1, h, m)
  Step-repairs _ _ _ _ top m h (review s) = h
  Step-repairs _ _ _ _ top m h (publish s) = h
  Step-repairs _ _ _ _ top m h (give_up s) = h

  -- A task that begins without repairs never counts more than two, however often the user approves or
  -- edits and the research runs again.
  pub repairs_are_bounded :
      (s₀ s : State) (n : Node)
      → s₀.repair_count ≡ 0
      → Reach u of_codes render s₀ n s
      → s.repair_count ≤ max_repair_count
  repairs_are_bounded s₀ _ _ h begin = omega (arith, h)
  repairs_are_bounded s₀ _ _ h (step n s m t r st) =
      Step-repairs n s m t max_repair_count (omega arith) (repairs_are_bounded s₀ s n h r) st
