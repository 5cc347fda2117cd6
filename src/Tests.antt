-- ===== src/Tests.antt =====
-- The development's definitions on concrete inputs. The names that the runs share.
pub mod GatewayRuns
pub mod CacheRuns
pub mod TextRuns
pub mod AgentRuns
pub mod PlannerRuns
pub mod JobRuns
pub mod ToolRuns
pub mod DocumentRuns
pub mod RetrievalRuns
pub mod MemoryRuns
pub mod ConversationRuns
use agentic_learning_platfor.Base.{
  ℕ, ◌+◌, Bool, true, false, ◌||◌, List, [], ◌∷◌, map, Text, Unicode, leb, ◌==◌, ◌&&◌,
  if◌then◌else◌,
}

-- Unicode's tables, for ASCII.
abbrev pub is_capital : ℕ → Bool
is_capital c = leb 65 c && leb c 90

abbrev pub ascii : Unicode
ascii = record {
  lower = map (λ c. if is_capital c then c + 32 else c);
  is_space = λ c. c == 32 || c == 10;
  is_word = λ c. is_capital c || (leb 97 c && leb c 122);
}
