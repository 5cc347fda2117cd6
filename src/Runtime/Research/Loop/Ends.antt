-- ===== src/Runtime/Research/Loop/Ends.antt =====
-- The loop ends, and what is true behind it.
use agentic_learning_platfor.Base.{
  ℕ, zero, suc, ◌+◌, ◌-◌, ◌≤◌, ◌<◌, max, ◌≡◌, refl, ◌⊎◌, inl, inr, true, Option, none, some, List,
  ltb, tests, arith, str_eq, Bool-cases, Option-cases, length,
}
use agentic_learning_platfor.Tools.Json.{Json}
use agentic_learning_platfor.Runtime.Policy.{Stop, enforce_policy}
use agentic_learning_platfor.Runtime.Research.{
  max_repair_count, Task, Env, Work, Res, stopped, done, Draft, round, call_with_result,
  repair_research_tasks,
}
use agentic_learning_platfor.Runtime.Research.Loop.{
  NextAction, complete, ask_user, fallback, Findings, Ended, left, raised, status_of, is_no_task,
  Verdict, passed, needs_approval, repair, other, verdict, loop, research_agent,
}

pub Res-cases :
    {A : Type 0} (r : Res A)
    → ((s : Stop) × ((w : Work) × (r ≡ stopped s w))) ⊎ ((a : A) × ((w : Work) × (r ≡ done a w)))
Res-cases (stopped s w) = inl (s, (w, refl))
Res-cases (done a w) = inr (a, (w, refl))

-- What a verdict says of the status and of the repairs so far.
abbrev Says : ℕ → Json → Verdict → Type 0
Says n v passed = str_eq (status_of v) "passed" ≡ true
Says n v needs_approval = str_eq (status_of v) "needs_approval" ≡ true
Says n v repair = n < max_repair_count
Says n v other = Unit

verdict-Says : (n : ℕ) (v : Json) → Says n v (verdict n v)
unfolding verdict
verdict-Says n v = elim (Bool-cases (str_eq (status_of v) "passed")) [
  | inl p ↦ rw p p
  | inr p ↦ elim (Bool-cases (str_eq (status_of v) "needs_approval")) [
    | inl a ↦ rw (p, a) a
    | inr a ↦ elim (Bool-cases (str_eq (status_of v) "repair")) [
      | inr r ↦ rw (p, a, r) tt
      | inl r ↦ elim (Bool-cases (ltb n max_repair_count)) [
        | inl l ↦ rw (p, a, r, l) (omega (tests, l))
        | inr l ↦ rw (p, a, r, l) tt
      ]
    ]
  ]
]

-- What the agent hands to the graph.
abbrev pub Sound : NextAction → Json → Type 0
Sound complete v = str_eq (status_of v) "passed" ≡ true
Sound ask_user v = str_eq (status_of v) "needs_approval" ≡ true
Sound fallback v = Unit

abbrev pub SoundEnd : ℕ → Ended → Type 0
SoundEnd n (left f w) = Sound f.next_action f.verification × (f.repair_count ≤ n)
SoundEnd n (raised s w) = Unit

abbrev pub Ends : ℕ → Option Ended → Type 0
Ends n none = ⊥
Ends n (some e) = SoundEnd n e

module _ (env : Env) where
  stopped_round :
      (fuel : ℕ) (tasks : List Task) (n : ℕ) (w : Work) (top : ℕ) (s : Stop) (w' : Work)
      → round env tasks w ≡ stopped s w'
      → Ends top (loop env (suc fuel) tasks n w)
  unfolding loop
  stopped_round fuel tasks n w top s w' e = rw (loop, e) tt

  -- The loop ends soundly from this round on, where it does so from the next one.
  after_round :
      (fuel : ℕ) (tasks : List Task) (n : ℕ) (w : Work) (top : ℕ) (d : Draft) (w' : Work)
      (v : Verdict)
      → n ≤ top
      → round env tasks w ≡ done d w'
      → verdict n d.verification ≡ v
      → Says n d.verification v
      → ((next : List Task) (w'' : Work)
          → n < max_repair_count
          → Ends top (loop env fuel next (n + 1) w''))
      → Ends top (loop env (suc fuel) tasks n w)
  unfolding loop
  after_round fuel tasks n w top d w' passed k r v says next = rw (loop, r, v) (says, omega arith)
  after_round fuel tasks n w top d w' needs_approval k r v says next =
      rw (loop, r, v) (says, omega arith)
  after_round fuel tasks n w top d w' other k r v says next = rw (loop, r, v) (tt, omega arith)
  after_round fuel tasks n w top d w' repair k r v says next =
      elim (Res-cases (call_with_result env "planning.repair_research_tasks" (env.fresh n) w')) [
        | inl (Stop.cancelled, (w'', c)) ↦ rw (loop, r, v, c) tt
        | inl (Stop.max_tool_calls, (w'', c)) ↦ rw (loop, r, v, c) (tt, omega arith)
        | inl (Stop.deadline_exceeded, (w'', c)) ↦ rw (loop, r, v, c) (tt, omega arith)
        | inr (result, (w'', c)) ↦
            elim (Bool-cases (is_no_task (repair_research_tasks env d.verification))) [
              | inl e ↦ rw (loop, r, v, c, e) (tt, omega arith)
              | inr e ↦
                  rw (loop, r, v, c, e) (next (repair_research_tasks env d.verification) w'' says)
            ]
      ]

  loop-Ends :
      (fuel : ℕ) (tasks : List Task) (n : ℕ) (w : Work) (top : ℕ)
      → max_repair_count < n + fuel
      → n ≤ top
      → max_repair_count ≤ top
      → 0 < fuel
      → Ends top (loop env fuel tasks n w)
  loop-Ends zero tasks n w top h k m p = absurd (omega arith)
  loop-Ends (suc fuel) tasks n w top h k m p = elim (Res-cases (round env tasks w)) [
    | inl (s, (w', e)) ↦ stopped_round fuel tasks n w top s w' e
    | inr (d, (w', e)) ↦
        after_round fuel tasks n w top d w' (verdict n d.verification) k e refl
          (verdict-Says n d.verification)
          (λ next w'' l.
            loop-Ends fuel next (n + 1) w'' top (omega arith) (omega arith) m (omega arith))
  ]

  -- The agent ends within its rounds of repair, whatever the tools return. It hands on a result as
  -- complete only with a verification that has passed, and asks the user only if the verification
  -- needs approval; and the count of repairs is not over its bound unless it was so before.
  pub research_agent-Ends :
      (before : Findings) (tasks : List Task)
      → Ends (max before.repair_count max_repair_count) (research_agent env before tasks)
  unfolding research_agent
  research_agent-Ends before tasks =
      elim (Option-cases (enforce_policy env.budget (env.reading 0) (length env.prior))) [
        | inl e ↦
            rw (research_agent, e)
              (loop-Ends (suc (max_repair_count - before.repair_count)) tasks before.repair_count _
                _ (omega arith) (omega arith) (omega arith) (omega arith))
        | inr (Stop.cancelled, e) ↦ rw (research_agent, e) tt
        | inr (Stop.max_tool_calls, e) ↦ rw (research_agent, e) (tt, omega arith)
        | inr (Stop.deadline_exceeded, e) ↦ rw (research_agent, e) (tt, omega arith)
      ]
