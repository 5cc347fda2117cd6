-- ===== src/Runtime/Policy.antt =====
-- `_enforce_policy` (runtime.py).
use agentic_learning_platfor.Base.{
  ℕ, zero, suc, ◌<◌, ◌≡◌, arith, Bool, false, Option, none, some, ltb, leb, if◌then◌else◌,
}

-- Why a task stops: AgentTaskCancelled, and AgentBudgetExceeded with its two messages.
pub data Stop : Type 0 where
  cancelled : Stop
  max_tool_calls : Stop
  deadline_exceeded : Stop

pub record Budget : Type 0 where
  pub max_tool_calls : Option ℕ
  pub deadline_seconds : Option ℕ

-- What one check reads: the store's flag, and the seconds since the start; none where the start is
-- missing or is no date.
pub record Reading : Type 0 where
  pub cancel_requested : Bool
  pub elapsed : Option ℕ

-- int(value or default)
abbrev pub or_number : Option ℕ → ℕ → ℕ
or_number none default = default
or_number (some zero) default = default
or_number (some (suc n)) default = suc n

abbrev pub call_limit : Budget → ℕ
call_limit budget = or_number budget.max_tool_calls 12

abbrev pub is_late : Budget → Option ℕ → Bool
is_late budget none = false
is_late budget (some elapsed) = ltb (or_number budget.deadline_seconds 900) elapsed

-- none: the task may go on, with this number of artifacts.
unfoldable pub enforce_policy : Budget → Reading → ℕ → Option Stop
enforce_policy budget reading artifacts =
    if reading.cancel_requested
    then some Stop.cancelled
    else if leb (call_limit budget) artifacts
    then some Stop.max_tool_calls
    else if is_late budget reading.elapsed
    then some Stop.deadline_exceeded
    else none

-- A task that may go on has a tool call left.
pub policy_none :
    (budget : Budget) (reading : Reading) (artifacts : ℕ)
    → enforce_policy budget reading artifacts ≡ none
    → artifacts < call_limit budget
unfolding enforce_policy
policy_none budget reading artifacts h = ground arith
