-- ===== src/Tools/Managed/Once.antt =====
-- A managed call is made once for its key.
use agentic_learning_platfor.Base.{
  String, ◌≡◌, refl, sym, ◌∙◌, subst, none, some, Option-cases, some_inj, inl, inr, Assoc, get,
  get-put_self,
}
use agentic_learning_platfor.Tools.Json.{Json}
use agentic_learning_platfor.Tools.Registry.{ToolResult, Registry}
use agentic_learning_platfor.Tools.Managed.{
  ManagedToolExecution, World, Request, trusted_args, execution_key, execution_of, run_keyed,
  execute_managed_tool,
}

module _ (reg : Registry) (sha256 : String → String) where
  run_keyed-known :
      (key : String) (request : Request) (args : Assoc Json) (w : World) (result : ToolResult)
      → get key w.completed ≡ some result
      → run_keyed reg sha256 key request args w ≡ (execution_of request result, w)
  unfolding run_keyed execution_of
  run_keyed-known key request args w result h = rw (run_keyed, h) refl

  -- Behind a call, the store has its result under its key.
  run_keyed-recorded :
      (key : String) (request : Request) (args : Assoc Json) (w : World)
      → get key (run_keyed reg sha256 key request args w).1.completed
        ≡ some (run_keyed reg sha256 key request args w).0.result
  unfolding run_keyed execution_of
  run_keyed-recorded key request args w = elim (Option-cases (get key w.completed)) [
    | inl e ↦ rw (run_keyed, e) (get-put_self key _ w.completed)
    | inr (r, e) ↦ rw (run_keyed, e) e
  ]

  executed :
      (state : Assoc Json) (task_id : String) (request : Request) (w : World) (args : Assoc Json)
      → trusted_args state request.tool_name request.arguments ≡ some args
      → execute_managed_tool reg sha256 state task_id request w
        ≡ some (run_keyed reg sha256 (execution_key sha256 task_id request.call_id) request args w)
  unfolding execute_managed_tool
  executed state task_id request w args h = rw (execute_managed_tool, h) refl

  unexecuted :
      (state : Assoc Json) (task_id : String) (request : Request) (w : World)
      → trusted_args state request.tool_name request.arguments ≡ none
      → execute_managed_tool reg sha256 state task_id request w ≡ none
  unfolding execute_managed_tool
  unexecuted state task_id request w h = rw (execute_managed_tool, h) refl

  -- What a call returns is in the store under its key.
  executed-recorded :
      (state : Assoc Json) (task_id : String) (request : Request) (w w' : World)
      (first : ManagedToolExecution)
      → execute_managed_tool reg sha256 state task_id request w ≡ some (first, w')
      → get (execution_key sha256 task_id request.call_id) w'.completed ≡ some first.result
  executed-recorded state task_id request w w' first h =
      let key = execution_key sha256 task_id request.call_id in
      elim (Option-cases (trusted_args state request.tool_name request.arguments)) [
        | inl e ↦ cc (h, unexecuted state task_id request w e)
        | inr (a, e) ↦
            let done = executed state task_id request w a e in
            let same = (some_inj (sym done ∙ h)) in
            subst (λ p. get key p.1.completed ≡ some p.0.result) same
              (run_keyed-recorded key request a w)
      ]

  -- A worker that makes a call again, with the same task and call identifier and whatever arguments,
  -- tool and agent, gets the result of the first call, and no tool is run.
  pub execute_managed_tool-once :
      (state state' : Assoc Json) (task_id : String) (request again : Request) (w w' : World)
      (args : Assoc Json) (first : ManagedToolExecution)
      → execute_managed_tool reg sha256 state task_id request w ≡ some (first, w')
      → trusted_args state' again.tool_name again.arguments ≡ some args
      → again.call_id ≡ request.call_id
      → execute_managed_tool reg sha256 state' task_id again w'
        ≡ some (execution_of again first.result, w')
  execute_managed_tool-once state state' task_id request again w w' args first h k same =
      rw
        (
          executed state' task_id again w' args k,
          run_keyed-known (execution_key sha256 task_id again.call_id) again args w' first.result
              (rw same (executed-recorded state task_id request w w' first h)),
        )
        refl
