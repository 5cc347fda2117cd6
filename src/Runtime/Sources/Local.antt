-- ===== src/Runtime/Sources/Local.antt =====
-- A task that is restricted to the local knowledge base stays there.
use agentic_learning_platfor.Base.{
  String, Text, Unicode, ◌≡◌, refl, Bool, true, inl, inr, Option, none, some, List, [], ◌∷◌, All,
  any, select, str_eq, starts_with, Bool-cases,
}
use agentic_learning_platfor.Runtime.Sources.{
  local_only, resolve_source_policy, is_knowledge, default_research_source_decision, or_else,
  ToolCall, or_knowledge, generate_research_source_decision, allowed_calls,
}

select-All : {A : Type 0} (p : A → Bool) (xs : List A) → All (λ x. p x ≡ true) (select p xs)
select-All p [] = tt
select-All p (x ∷ xs) = elim (Bool-cases (p x)) [
  | inl e ↦ rw e (e, select-All p xs)
  | inr e ↦ rw e (select-All p xs)
]

-- At least one, and each of the knowledge base.
abbrev pub SomeLocal : List String → Type 0
SomeLocal [] = ⊥
SomeLocal (name ∷ names) = (is_knowledge name ≡ true) × All (λ n. is_knowledge n ≡ true) names

abbrev pub SomeLocalCall : List ToolCall → Type 0
SomeLocalCall [] = ⊥
SomeLocalCall (call ∷ calls) =
    (is_knowledge call.tool_name ≡ true) × All (λ c. is_knowledge c.tool_name ≡ true) calls

or_else-SomeLocal :
    (names default : List String)
    → All (λ n. is_knowledge n ≡ true) names
    → SomeLocal default
    → SomeLocal (or_else names default)
or_else-SomeLocal [] default h k = k
or_else-SomeLocal (name ∷ names) default h k = h

or_knowledge-SomeLocalCall :
    (fresh_id : String) (calls : List ToolCall)
    → All (λ c. is_knowledge c.tool_name ≡ true) calls
    → SomeLocalCall (or_knowledge fresh_id calls)
unfolding starts_with
or_knowledge-SomeLocalCall fresh_id [] h = (refl, tt)
or_knowledge-SomeLocalCall fresh_id (call ∷ calls) h = h

default-SomeLocal : SomeLocal (default_research_source_decision local_only)
unfolding default_research_source_decision starts_with
default-SomeLocal = (refl, tt)

-- Where the policy is `local_only`, the research agent searches and the answer agent calls with tools
-- of the knowledge base alone, and with one at least, whatever the models have decided or if they
-- have failed.
pub restricted_to_local :
    (u : Unicode) (policy : Option String) (user_input : Text) (available : List String)
    (decided : Option (List String)) (fresh_id : String) (calls : List ToolCall)
    → resolve_source_policy u policy user_input ≡ local_only
    → SomeLocal (
        generate_research_source_decision
          (resolve_source_policy u policy user_input)
          available
          decided)
      × SomeLocalCall (allowed_calls (resolve_source_policy u policy user_input) fresh_id calls)
unfolding generate_research_source_decision allowed_calls
restricted_to_local u policy user_input available none fresh_id calls h =
    rw h (default-SomeLocal, or_knowledge-SomeLocalCall fresh_id _ (select-All _ calls))
restricted_to_local u policy user_input available (some names) fresh_id calls h = rw h (
  or_else-SomeLocal (select is_knowledge (select (λ name. any (str_eq name) available) names))
      (default_research_source_decision local_only)
      (select-All is_knowledge (select (λ name. any (str_eq name) available) names))
      default-SomeLocal,
  or_knowledge-SomeLocalCall fresh_id _ (select-All _ calls),
)
