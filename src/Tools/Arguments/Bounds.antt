-- ===== src/Tools/Arguments/Bounds.antt =====
-- What the handlers of the knowledge base and of the searches may rely on.
use agentic_learning_platfor.Base.{
  ℕ, ◌≤◌, String, Bool, true, false, not, ◌≡◌, ◌⊎◌, inl, inr, refl, ap, sym, ◌∙◌, Option, none,
  some, arith, ltb, Assoc,
}
use agentic_learning_platfor.Tools.Json.{Json, null, number, get_or, get_true}
use agentic_learning_platfor.Tools.Registry.{ToolResult, Run, finished, raised}
use agentic_learning_platfor.Tools.Arguments.{
  Reader, or_next, fails, is_filled, length_of, int_of, within, text_error, number_error,
  knowledge_error, github_error, web_error, validate_tool_args, call_handler, unless_error,
}

pub record IsAsked (r : Reader) (args : Assoc Json) (characters : ℕ) (key : String)
    (default high : ℕ) : Type 0 where
  pub filled : is_filled r (get_or null "query" args) ≡ true
  pub short : length_of r (get_or null "query" args) ≤ characters
  pub count : ℕ
  pub is_count : int_of r (get_true (number default) key args) ≡ some count
  pub at_least_one : 1 ≤ count
  pub at_most : count ≤ high

module _ (r : Reader) where
  within-some :
      (high : ℕ) (o : Option ℕ) (error : String)
      → within r high o error ≡ none
      → (n : ℕ) × (o ≡ some n) × (1 ≤ n) × (n ≤ high)
  within-some high none error h = absurd (ground arith)
  within-some high (some n) error h = (n, refl, ground arith, ground arith)

  or_next-none : (a b : Option String) → or_next a b ≡ none → (a ≡ none) × (b ≡ none)
  or_next-none none b h = (refl, h)
  or_next-none (some e) b h = absurd (ground arith)

  fails-none : (b : Bool) (error : String) → fails b error ≡ none → b ≡ false
  fails-none true error h = absurd (ground arith)
  fails-none false error h = refl

  filled_of :
      (value : Json) (error : String)
      → fails (not (is_filled r value)) error ≡ none
      → is_filled r value ≡ true
  filled_of value error h = ground (arith, fails-none (not (is_filled r value)) error h)

  short_of : (high n : ℕ) (error : String) → fails (ltb high n) error ≡ none → n ≤ high
  short_of high n error h = ground (arith, fails-none (ltb high n) error h)

  asked :
      (args : Assoc Json) (characters : ℕ) (key : String) (default high : ℕ) (m l e : String)
      → or_next
          (text_error r (get_or null "query" args) characters m l)
          (number_error r key default high e args)
        ≡ none
      → IsAsked r args characters key default high
  unfolding text_error number_error
  asked args characters key default high m l e h =
      let query = get_or null "query" args in
      let both =
        or_next-none (text_error r query characters m l) (number_error r key default high e args)
          h in
      let texts =
        or_next-none (fails (not (is_filled r query)) m)
          (fails (ltb characters (length_of r query)) l) both.0 in
      let n = within-some high (int_of r (get_true (number default) key args)) e both.1 in
      record {
        filled = filled_of query m texts.0;
        short = short_of characters (length_of r query) l texts.1;
        count = n.0;
        is_count = n.1;
        at_least_one = n.2;
        at_most = n.3;
      }

  unless_error-none :
      (o : Option String) (run : Run) (result : ToolResult)
      → unless_error r o run ≡ finished result
      → o ≡ none
  unless_error-none none run result h = refl
  unless_error-none (some error) run result h = absurd (raised_not_finished h)
    where
      raised_not_finished : raised error ≡ finished result → ⊥
      raised_not_finished e = ground arith

  -- A call that gives a result had arguments within the bounds: the knowledge base is asked a question
  -- that is not blank and has at most 2000 characters, for 1 to 20 passages; a search of GitHub or of
  -- the web has at most 512 characters and asks for 1 to 10 results.
  pub call_handler-IsAsked :
      (handler : String → Assoc Json → Run) (name : String) (args : Assoc Json)
      (result : ToolResult)
      → call_handler r handler name args ≡ finished result
      → ((name ≡ "knowledge.answer") ⊎ (name ≡ "knowledge.repair_retrieval")
          → IsAsked r args 2000 "top_k" 5 20)
        × (name ≡ "github.search_repositories" → IsAsked r args 512 "limit" 3 10)
        × (name ≡ "web.search_duckduckgo" → IsAsked r args 512 "limit" 5 10)
  unfolding call_handler validate_tool_args knowledge_error github_error web_error
  call_handler-IsAsked handler name args result h =
      let passed =
        unless_error-none (validate_tool_args r name args) (handler name args) result h in
      let at =
        λ (n : String) (e : name ≡ n). ap (λ m. validate_tool_args r m args) (sym e) ∙ passed in
      (
        λ named. elim named [
          | inl e ↦ asked args 2000 "top_k" 5 20 _ _ _ (at "knowledge.answer" e)
          | inr e ↦ asked args 2000 "top_k" 5 20 _ _ _ (at "knowledge.repair_retrieval" e)
        ],
        λ e. asked args 512 "limit" 3 10 _ _ _ (at "github.search_repositories" e),
        λ e. asked args 512 "limit" 5 10 _ _ _ (at "web.search_duckduckgo" e),
      )
