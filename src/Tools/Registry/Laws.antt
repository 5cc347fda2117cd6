-- ===== src/Tools/Registry/Laws.antt =====
-- What a call of the registry runs.
use agentic_learning_platfor.Base.{
  ℕ, zero, suc, ◌+◌, ◌≤◌, ◌≡◌, refl, inl, inr, String, false, none, List, ◌∷◌, Assoc, arith,
  Bool-cases, Option-cases,
}
use agentic_learning_platfor.Tools.Json.{Json}
use agentic_learning_platfor.Tools.Permissions.{assert_tool_allowed}
use agentic_learning_platfor.Tools.Registry.{
  ToolResult, tool_error, Registry, Execution, may_retry, attempts, call, execute_with_timeout,
  max_retries, last_error,
}

-- Of the runs that a call made, all are of this tool with these arguments, and there are n of them.
abbrev pub Ran : String → Assoc Json → ℕ → List Execution → List Execution → Type 0
Ran name args zero before after = after ≡ before
Ran name args (suc n) before after =
    Ran name args n (record { tool = name; args = args } ∷ before) after

module _ (reg : Registry) (name : String) (args : Assoc Json) where
  abbrev result_of : List Execution → ToolResult
  result_of log = execute_with_timeout reg name args log

  attempts-Ran :
      (left : ℕ) (message : String) (log : List Execution)
      → (n : ℕ) × ((n ≤ left) × Ran name args n log (attempts reg left message name args log).1)
  unfolding attempts
  attempts-Ran zero message log = (0, (omega arith, refl))
  attempts-Ran (suc left) message log =
      let ih =
        attempts-Ran left (last_error (result_of log))
          (record { tool = name; args = args } ∷ log) in
      elim (Bool-cases (result_of log).ok) [
        | inl e ↦ rw e (1, (omega arith, refl))
        | inr e ↦ elim (Bool-cases (may_retry (result_of log))) [
          | inl r ↦ rw (e, r) (suc ih.0, (omega (arith, ih.1.0), ih.1.1))
          | inr r ↦ rw (e, r) (1, (omega arith, refl))
        ]
      ]

  -- A call runs nothing but the tool it names, with the arguments it was given, and at most once, or
  -- twice where the tool's descriptor allows a retry.
  pub call-Ran :
      (agent : String) (log : List Execution)
      → (n : ℕ) × ((n ≤ max_retries reg name + 1)
          × Ran name args n log (call reg agent name args log).1)
  unfolding call
  call-Ran agent log = elim (Option-cases (assert_tool_allowed agent name)) [
    | inl e ↦ rw (call, e) (0, (omega arith, refl))
    | inr (p, e) ↦ elim (Bool-cases (reg.handler name)) [
      | inl h ↦ rw (call, e, h) (attempts-Ran (max_retries reg name + 1) "" log)
      | inr h ↦ rw (call, e, h) (0, (omega arith, refl))
    ]
  ]

  -- A tool that the agent may not use is not run, whatever is registered, and the answer says that it
  -- failed and that a retry is of no use.
  call-denied :
      (agent : String) (log : List Execution)
      → assert_tool_allowed agent name ≡ none
      → ((call reg agent name args log).1 ≡ log)
        × (((call reg agent name args log).0.ok ≡ false)
            × (may_retry (call reg agent name args log).0 ≡ false))
  unfolding call tool_error
  call-denied agent log h = rw (call, h) (refl, (refl, refl))
