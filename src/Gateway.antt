-- ===== src/Gateway.antt =====
-- backend/packages/harness/deerflow/llm_gateway.py: the circuit breaker, the two-tier cache, the
-- classification of errors and the walk along the chain of providers.
pub mod Circuit
pub mod Cache
pub mod Errors
pub mod Invoke
