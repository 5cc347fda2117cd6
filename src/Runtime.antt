-- ===== src/Runtime.antt =====
-- The agents' runtime, backend/packages/harness/deerflow/runtime.py: the policy that stops a task, the
-- research loop, and the graph of the agents. What the models decide and what the tools return is
-- given to it; events, messages and memory are only written and are left out.
pub mod Policy
pub mod Sources
pub mod Research
pub mod Graph
