-- ===== src/Tools.antt =====
-- The tools of the agents: who may call what (tool_permissions.py), the registry that runs a tool
-- (tools.py), and the managed call that fixes the arguments and records the result (tool_manager.py).
-- All are under backend/packages/harness/deerflow/. The tools themselves and the store's database are
-- outside of the model.
pub mod Json
pub mod Permissions
pub mod Registry
pub mod Arguments
pub mod Managed
