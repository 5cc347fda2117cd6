-- ===== src/Gateway/Circuit.antt =====
-- The circuit breaker of `LLMGateway` (llm_gateway.py, `_Circuit`, `_can_invoke`, `_report_success`,
-- `_report_failure`). Times are readings of the monotonic clock in ticks; each operation takes the
-- reading that it makes. The lock makes each operation one step.
pub mod Laws
pub mod Interleaving
use agentic_learning_platfor.Base.{
  ℕ, ◌+◌, ◌≤◌, ◌<◌, String, Bool, true, false, Option, none, some, List, [], ◌∷◌, ltb, leb, ◌==◌,
  if◌then◌else◌, Assoc, get, put,
}

pub record Circuit : Type 0 where
  pub failures : ℕ
  pub open_until : ℕ

abbrev pub fresh : Circuit
fresh = record { failures = 0; open_until = 0 }

abbrev pub Circuits : Type 0
Circuits = Assoc Circuit

-- AGENT_LLM_PROVIDER_FAILURE_THRESHOLD and AGENT_LLM_PROVIDER_COOLDOWN_SECONDS, of which config.py
-- makes sure that they are positive.
pub record Breaker : Type 0 where
  pub threshold : ℕ
  pub cooldown : ℕ
  pub threshold_pos : 0 < threshold
  pub cooldown_pos : 0 < cooldown

admit : ℕ → String → Circuits → Option Circuit → Circuits × Bool
admit now provider circuits none = (circuits, true)
admit now provider circuits (some circuit) =
    if ltb now circuit.open_until
    then (circuits, false)
    else if circuit.open_until == 0
    then (circuits, true)
    else (put provider fresh circuits, true)

unfoldable pub can_invoke : ℕ → String → Circuits → Circuits × Bool
unfolding admit
can_invoke now provider circuits = admit now provider circuits (get provider circuits)

unfoldable pub report_success : String → Circuits → Circuits
report_success provider circuits = put provider fresh circuits

-- circuits.setdefault(provider, _Circuit())
unfoldable pub circuit_of : String → Circuits → Circuit
circuit_of provider circuits = elim (get provider circuits) [
  | none ↦ fresh
  | some circuit ↦ circuit
]

module _ (breaker : Breaker) where
  unfoldable pub count_failure : ℕ → Circuit → Circuit
  count_failure now circuit =
      let failures = circuit.failures + 1 in
      if leb breaker.threshold failures
      then record { failures = failures; open_until = now + breaker.cooldown }
      else record { failures = failures; open_until = circuit.open_until }

  unfoldable pub report_failure : ℕ → String → Circuits → Circuits
  unfolding count_failure
  report_failure now provider circuits =
      put provider (count_failure now (circuit_of provider circuits)) circuits
