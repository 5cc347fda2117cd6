-- ===== src/Runtime/Research/Loop/Calls.antt =====
-- The tool calls of the whole loop.
use agentic_learning_platfor.Base.{
  ℕ, zero, suc, ◌+◌, ◌-◌, ◌≤◌, max, ◌≡◌, refl, subst, inl, inr, Option, none, some, List, arith,
  length, Bool-cases, Option-cases,
}
use agentic_learning_platfor.Runtime.Policy.{Stop, call_limit, enforce_policy}
use agentic_learning_platfor.Runtime.Research.{
  max_repair_count, Task, Env, Work, done, Draft, round, artifact_count, call_with_result,
  repair_research_tasks,
}
use agentic_learning_platfor.Runtime.Research.Limits.{Within, round-Within, call-Within}
use agentic_learning_platfor.Runtime.Research.Loop.{
  Findings, Ended, left, raised, Verdict, passed, needs_approval, repair, other, verdict, loop,
  is_no_task, research_agent,
}
use agentic_learning_platfor.Runtime.Research.Loop.Ends.{Res-cases}

module _ (env : Env) where
  -- At most this many artifacts are there in the end.
  abbrev pub Called : ℕ → Option Ended → Type 0
  Called top none = Unit
  Called top (some (left f w)) = artifact_count env w ≤ top
  Called top (some (raised s w)) = artifact_count env w ≤ top

  module _ (top : ℕ) (enough : suc (call_limit env.budget) ≤ top) where
    after_verdict :
        (fuel : ℕ) (tasks : List Task) (n : ℕ) (w : Work) (d : Draft) (w' : Work) (v : Verdict)
        → round env tasks w ≡ done d w'
        → verdict n d.verification ≡ v
        → artifact_count env w' ≤ top
        → ((next : List Task) (w'' : Work)
            → artifact_count env w'' ≤ top
            → Called top (loop env fuel next (n + 1) w''))
        → Called top (loop env (suc fuel) tasks n w)
    unfolding loop
    after_verdict fuel tasks n w d w' passed r v h next = rw (loop, r, v) h
    after_verdict fuel tasks n w d w' needs_approval r v h next = rw (loop, r, v) h
    after_verdict fuel tasks n w d w' other r v h next = rw (loop, r, v) h
    after_verdict fuel tasks n w d w' repair r v h next =
        let call = call-Within env "planning.repair_research_tasks" (env.fresh n) _ w' top refl h in
        elim (Res-cases (call_with_result env "planning.repair_research_tasks" (env.fresh n) w')) [
          | inl (Stop.cancelled, (w'', c)) ↦ rw (loop, r, v, c) (subst (Within env top _) c call)
          | inl (Stop.max_tool_calls, (w'', c)) ↦
              rw (loop, r, v, c) (subst (Within env top _) c call)
          | inl (Stop.deadline_exceeded, (w'', c)) ↦
              rw (loop, r, v, c) (subst (Within env top _) c call)
          | inr (result, (w'', c)) ↦
              let h' : artifact_count env w'' ≤ top =
                omega (arith, enough, subst (Within env top (call_limit env.budget)) c call) in
              elim (Bool-cases (is_no_task (repair_research_tasks env d.verification))) [
                | inl e ↦ rw (loop, r, v, c, e) h'
                | inr e ↦
                    rw (loop, r, v, c, e) (next (repair_research_tasks env d.verification) w'' h')
              ]
        ]

    loop-Called :
        (fuel : ℕ) (tasks : List Task) (n : ℕ) (w : Work)
        → artifact_count env w ≤ top
        → Called top (loop env fuel tasks n w)
    unfolding loop
    loop-Called zero tasks n w h = tt
    loop-Called (suc fuel) tasks n w h =
        let turn = round-Within env top enough tasks w h in
        elim (Res-cases (round env tasks w)) [
          | inl (s, (w', e)) ↦ rw (loop, e) (subst (Within env top top) e turn)
          | inr (d, (w', e)) ↦
              after_verdict fuel tasks n w d w' (verdict n d.verification) e refl
                (subst (Within env top top) e turn)
                (λ next w'' h'. loop-Called fuel next (n + 1) w'' h')
        ]

  -- However often the research is repaired, in the end the task has at most one artifact over its limit
  -- of tool calls, or as many as it began with where these were more.
  pub research_agent-Called :
      (before : Findings) (tasks : List Task)
      → Called
          (max (length env.prior) (suc (call_limit env.budget)))
          (research_agent env before tasks)
  unfolding research_agent
  research_agent-Called before tasks =
      let top = max (length env.prior) (suc (call_limit env.budget)) in
      elim (Option-cases (enforce_policy env.budget (env.reading 0) (length env.prior))) [
        | inl e ↦
            rw (research_agent, e)
              (loop-Called top (omega arith) (suc (max_repair_count - before.repair_count)) tasks
                before.repair_count _ (omega arith))
        | inr (Stop.cancelled, e) ↦ rw (research_agent, e) (omega arith)
        | inr (Stop.max_tool_calls, e) ↦ rw (research_agent, e) (omega arith)
        | inr (Stop.deadline_exceeded, e) ↦ rw (research_agent, e) (omega arith)
      ]
