-- ===== src/Runtime/Research/Loop.antt =====
-- The `while` loop of `_research_agent` and what it returns.
pub mod Ends
pub mod Calls
use agentic_learning_platfor.Base.{
  ℕ, zero, suc, ◌+◌, ◌-◌, String, Bool, true, false, Option, none, some, List, [], ◌∷◌, length, ltb,
  str_eq, if◌then◌else◌,
}
use agentic_learning_platfor.Tools.Json.{Json, text_field}
use agentic_learning_platfor.Tools.Registry.{ToolError}
use agentic_learning_platfor.Runtime.Policy.{Stop, enforce_policy}
use agentic_learning_platfor.Runtime.Research.{
  max_repair_count, Task, Env, Work, Res, stopped, done, then', Draft, round, call_with_result,
  repair_research_tasks,
}

pub data NextAction : Type 0 where
  complete : NextAction
  ask_user : NextAction
  fallback : NextAction

-- The variables of the loop behind it, as far as the graph goes by them.
pub record Findings : Type 0 where
  pub next_action : NextAction
  pub proposal : Json
  pub verification : Json
  pub repair_count : ℕ
  -- The policy had stopped the agent before it began.
  pub is_over_budget : Bool

pub data Ended : Type 0 where
  left : Findings → Work → Ended
  -- An exception that leaves the agent.
  raised : Stop → Work → Ended

abbrev pub status_of : Json → String
status_of verification = text_field "" "status" verification

abbrev pub findings : NextAction → Draft → ℕ → Findings
findings action d repair_count = record {
  next_action = action;
  proposal = d.proposal;
  verification = d.verification;
  repair_count = repair_count;
  is_over_budget = false;
}

abbrev pub is_no_task : List Task → Bool
is_no_task [] = true
is_no_task (task ∷ tasks) = false

-- What a verdict asks for.
pub data Verdict : Type 0 where
  passed : Verdict
  needs_approval : Verdict
  repair : Verdict
  other : Verdict

unfoldable pub verdict : ℕ → Json → Verdict
verdict repair_count verification =
    if str_eq (status_of verification) "passed"
    then passed
    else if str_eq (status_of verification) "needs_approval"
    then needs_approval
    else if str_eq (status_of verification) "repair"
    then (if ltb repair_count max_repair_count then repair else other)
    else other

module _ (env : Env) where
  -- none: the fuel is used up.
  unfoldable pub loop : ℕ → List Task → ℕ → Work → Option Ended
  unfolding round verdict repair_research_tasks
  loop zero tasks repair_count w = none
  loop (suc fuel) tasks repair_count w = elim (round env tasks w) [
    | stopped s w' ↦ some (raised s w')
    | done d w' ↦
        let next = repair_research_tasks env d.verification in
        elim (verdict repair_count d.verification) [
          | passed ↦ some (left (findings complete d repair_count) w')
          | needs_approval ↦ some (left (findings ask_user d repair_count) w')
          | other ↦ some (left (findings fallback d repair_count) w')
          | repair ↦
              elim (call_with_result env "planning.repair_research_tasks" (env.fresh repair_count)
                w') [
                  | stopped Stop.cancelled w'' ↦ some (raised Stop.cancelled w'')
                  | stopped s w'' ↦ some (left (findings fallback d repair_count) w'')
                  | done r w'' ↦
                      if is_no_task next
                      then some (left (findings fallback d repair_count) w'')
                      else loop fuel next (repair_count + 1) w''
                ]
        ]
  ]

  abbrev pub fresh_work : Work
  fresh_work = record { checks = 1; artifacts = []; feedback = []; errors = [] }

  -- The agent, which checks the policy before all: over the budget it falls back at once.
  unfoldable pub research_agent : Findings → List Task → Option Ended
  unfolding loop
  research_agent before tasks =
      elim (enforce_policy env.budget (env.reading 0) (length env.prior)) [
        | none ↦
            loop (suc (max_repair_count - before.repair_count)) tasks before.repair_count fresh_work
        | some Stop.cancelled ↦ some (raised Stop.cancelled fresh_work)
        | some s ↦ some (
            left
              (record {
                next_action = fallback;
                proposal = before.proposal;
                verification = before.verification;
                repair_count = before.repair_count;
                is_over_budget = true;
              })
              fresh_work)
      ]
