-- ===== src/Tools/Managed/Trust.antt =====
-- Whose data a knowledge tool works on.
use agentic_learning_platfor.Base.{
  ℕ, String, Text, codes, starts_with, ◌==◌, [], ◌∷◌, arith, ◌≡◌, refl, true, false, some, Assoc,
  get, get-put, str_eq, Option-cases, inl, inr,
}
use agentic_learning_platfor.Tools.Json.{Json, null, get_or}
use agentic_learning_platfor.Tools.Managed.{
  has_prefix, set_default, knowledge_args, task_tool_args, trusted_args,
}

get-set_default :
    (key j : String) (v : Json) (args : Assoc Json)
    → (str_eq key j ≡ false)
    → get j (set_default key v args) ≡ get j args
get-set_default key j v args ne = elim (Option-cases (get key args)) [
  | inl e ↦ rw (set_default, e, get-put, ne) refl
  | inr (w, e) ↦ rw (set_default, e) refl
]

-- The scope of the data, as the state gives it.
pub record Scoped (state : Assoc Json) (username : Json) (args : Assoc Json) : Type 0 where
  pub by_name : get "username" args ≡ some username
  pub by_user : get "user_id" args ≡ some (get_or null "user_id" state)
  pub by_base : get "kb_id" args ≡ some (get_or null "kb_id" state)
  pub by_document : get "document_id" args ≡ some (get_or null "document_id" state)
  pub by_conversation : get "conversation_id" args ≡ some (get_or null "conversation_id" state)

knowledge_args-Scoped :
    (state : Assoc Json) (username : Json) (args : Assoc Json)
    → Scoped state username (knowledge_args state username args)
knowledge_args-Scoped state username args = record {
  by_name = rw (get-set_default, get-set_default) (simp get-put);
  by_user = rw (get-set_default, get-set_default) (simp get-put);
  by_base = rw (get-set_default, get-set_default) (simp get-put);
  by_document = rw (get-set_default, get-set_default) (simp get-put);
  by_conversation = rw (get-set_default, get-set_default) (simp get-put);
}

starts_with_one :
    (t : Text) (p q : ℕ) (ps qs : Text)
    → (p == q) ≡ false
    → starts_with t (p ∷ ps) ≡ true
    → starts_with t (q ∷ qs) ≡ false
unfolding starts_with
starts_with_one [] p q ps qs ne h = cc
starts_with_one (c ∷ t) p q ps qs ne h = ground arith

-- A knowledge tool's name begins none of the other kinds.
task_tool_args_knowledge :
    (state : Assoc Json) (name : String) (args : Assoc Json)
    → has_prefix "knowledge." name ≡ true
    → task_tool_args state name args ≡ args
unfolding task_tool_args
task_tool_args_knowledge state name args h =
    let a = starts_with_one (codes name) 107 97 (codes "nowledge.") (codes "rchitecture.") refl h in
    let v =
      starts_with_one (codes name) 107 118 (codes "nowledge.") (codes "erification.") refl h in
    let p = starts_with_one (codes name) 107 112 (codes "nowledge.") (codes "lanning.") refl h in
    rw (a, v, p) refl

-- A knowledge tool works on the data of the task's user, knowledge base, document and conversation,
-- whatever the model has put into the arguments.
pub trusted_args-Scoped :
    (state : Assoc Json) (name : String) (username : Json) (arguments : Assoc Json)
    → has_prefix "knowledge." name ≡ true
    → get "username" state ≡ some username
    → (args : Assoc Json) × ((trusted_args state name arguments ≡ some args)
        × Scoped state username args)
unfolding trusted_args
trusted_args-Scoped state name username arguments h u = (
  knowledge_args state username arguments,
  (
    rw (h, u, task_tool_args_knowledge state name (knowledge_args state username arguments) h) refl,
    knowledge_args-Scoped state username arguments,
  ),
)
