-- ===== src/Runtime/Research/Limits.antt =====
-- How many tool calls a run makes.
use agentic_learning_platfor.Base.{
  ℕ, suc, ◌≤◌, ◌<◌, ◌≡◌, refl, inl, inr, String, Bool, true, false, none, List, [], ◌∷◌, ◌++◌,
  length-append, All, All-append, arith, str_eq, Assoc, put, Bool-cases, Option-cases,
}
use agentic_learning_platfor.Tools.Registry.{ToolResult}
use agentic_learning_platfor.Runtime.Policy.{Stop, call_limit, policy_none}
use agentic_learning_platfor.Runtime.Research.{
  Task, Env, Work, Res, stopped, done, then', Request, artifact_count, perform, check,
  call_research_tool, call_with_result, gather, needs_repair, repair_retrieval, other_requests,
  web_requests, round, step_of, request_if, local_request, github_request, web_request,
}

module _ (env : Env) where
  abbrev limit : ℕ
  limit = call_limit env.budget

  -- At most s artifacts where a call has stopped, at most t where it is done.
  abbrev pub Within : {A : Type 0} → ℕ → ℕ → Res A → Type 0
  Within s t (stopped c w) = artifact_count env w ≤ s
  Within s t (done a w) = artifact_count env w ≤ t

  Within-then :
      {A B : Type 0} (s t u : ℕ) (r : Res A) (f : A → Work → Res B)
      → Within s t r
      → ((a : A) (w : Work) → artifact_count env w ≤ t → Within s u (f a w))
      → Within s u (then' r f)
  Within-then s t u (stopped c w) f h k = h
  Within-then s t u (done a w) f h k = k a w h

  perform_count :
      (tool_name step_id : String) (r : ToolResult) (w : Work)
      → artifact_count env (perform env tool_name step_id r w) ≡ suc (artifact_count env w)
  unfolding perform
  perform_count tool_name step_id r w = omega (arith, length-append w.artifacts _)

  check-none : (w : Work) → check env w ≡ none → artifact_count env w < limit
  check-none w h = policy_none env.budget (env.reading w.checks) (artifact_count env w) h

  pub call-Within :
      (tool_name step_id : String) (r : ToolResult) (w : Work) (top : ℕ)
      → str_eq tool_name "verification.verify_proposal" ≡ false
      → artifact_count env w ≤ top
      → Within top limit (call_research_tool env tool_name step_id r w)
  unfolding call_research_tool
  call-Within tool_name step_id r w top ne h = elim (Option-cases (check env w)) [
    | inl e ↦
        rw (call_research_tool, e)
          (omega (arith, check-none w e, perform_count tool_name step_id r w))
    | inr (Stop.max_tool_calls, e) ↦ rw (call_research_tool, e, ne) h
    | inr (Stop.cancelled, e) ↦ rw (call_research_tool, e) h
    | inr (Stop.deadline_exceeded, e) ↦ rw (call_research_tool, e) h
  ]

  verify-Within :
      (step_id : String) (r : ToolResult) (w : Work)
      → artifact_count env w ≤ limit
      → Within
          (suc limit)
          (suc limit)
          (call_research_tool env "verification.verify_proposal" step_id r w)
  unfolding call_research_tool
  verify-Within step_id r w h =
      let counted = perform_count "verification.verify_proposal" step_id r w in
      elim (Option-cases (check env w)) [
        | inl e ↦ rw (call_research_tool, e) (omega (arith, counted))
        | inr (Stop.max_tool_calls, e) ↦ rw (call_research_tool, e) (omega (arith, counted))
        | inr (Stop.cancelled, e) ↦ rw (call_research_tool, e) (omega arith)
        | inr (Stop.deadline_exceeded, e) ↦ rw (call_research_tool, e) (omega arith)
      ]

  abbrev IsEvidence : Request → Type 0
  IsEvidence r = str_eq r.tool_name "verification.verify_proposal" ≡ false

  request_if-All : (b : Bool) (r : Request) → IsEvidence r → All IsEvidence (request_if env b r)
  request_if-All true r h = (h, tt)
  request_if-All false r h = tt

  other_requests-All : (tasks : List Task) → All IsEvidence (other_requests env tasks)
  unfolding other_requests
  other_requests-All [] = tt
  other_requests-All (task ∷ tasks) =
      All-append IsEvidence (local_request env task) _ (request_if-All _ _ refl) (
        All-append IsEvidence (github_request env task) _ (request_if-All _ _ refl)
          (other_requests-All tasks))

  web_requests-All : (tasks : List Task) → All IsEvidence (web_requests env tasks)
  unfolding web_requests
  web_requests-All [] = tt
  web_requests-All (task ∷ tasks) =
      All-append IsEvidence (web_request env task) _ (request_if-All _ _ refl)
        (web_requests-All tasks)

  module _ (top : ℕ) (enough : limit ≤ top) where
    gather-Within :
        (requests : List Request) (results : Assoc ToolResult) (w : Work)
        → All IsEvidence requests
        → artifact_count env w ≤ top
        → Within top top (gather env requests results w)
    unfolding gather
    gather-Within [] results w a h = h
    gather-Within (r ∷ requests) results w (e, a) h =
        Within-then top limit top (call_with_result env r.tool_name r.step_id w) _
          (call-Within r.tool_name r.step_id _ w top e h)
          (λ result w' h'.
            gather-Within requests (put r.step_id result results) w' a (omega (arith, h', enough)))

    repair-Within :
        (results : Assoc ToolResult) (tasks : List Task) (w : Work)
        → artifact_count env w ≤ top
        → Within top top (repair_retrieval env results tasks w)
    unfolding repair_retrieval
    repair-Within results [] w h = h
    repair-Within results (task ∷ tasks) w h = elim (Bool-cases (needs_repair env results task)) [
      | inl e ↦ rw e (
          Within-then top limit top
            (call_with_result env "knowledge.repair_retrieval" (step_of env task "-rag-repair") w) _
            (call-Within "knowledge.repair_retrieval" _ _ w top refl h)
            (λ result w' h'. repair-Within results tasks w' (omega (arith, h', enough))))
      | inr e ↦ rw e (repair-Within results tasks w h)
    ]

  Within-weaken :
      {A : Type 0} (top : ℕ)
      → suc limit ≤ top
      → (r : Res A) → Within (suc limit) (suc limit) r
      → Within top top r
  Within-weaken top enough (stopped c w) h = omega (arith, h, enough)
  Within-weaken top enough (done a w) h = omega (arith, h, enough)

  -- A round that begins with at most one artifact over the limit ends so.
  pub round-Within :
      (top : ℕ)
      → suc limit ≤ top
      → (tasks : List Task) (w : Work) → artifact_count env w ≤ top
      → Within top top (round env tasks w)
  unfolding round
  round-Within top enough tasks w h =
      let fits : limit ≤ top = omega (arith, enough) in
      Within-then top top top (gather env (other_requests env tasks ++ web_requests env tasks) [] w)
        _
        (gather-Within top fits (other_requests env tasks ++ web_requests env tasks) [] w
          (All-append IsEvidence (other_requests env tasks) (web_requests env tasks)
            (other_requests-All tasks) (web_requests-All tasks))
          h)
        (λ results w1 h1.
          Within-then top top top (repair_retrieval env results tasks w1) _
            (repair-Within top fits results tasks w1 h1)
            (λ u w2 h2.
              Within-then top limit top
                (call_with_result env "architecture.generate_proposal" (env.fresh w2.checks) w2) _
                (call-Within "architecture.generate_proposal" _ _ w2 top refl h2)
                (λ p w3 h3.
                  Within-then top top top
                    (call_with_result env "verification.verify_proposal" "proposal-verification" w3)
                    _ (Within-weaken top enough _ (verify-Within "proposal-verification" _ w3 h3))
                    (λ v w4 h4. h4))))
