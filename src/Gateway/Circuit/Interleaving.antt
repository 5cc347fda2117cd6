-- ===== src/Gateway/Circuit/Interleaving.antt =====
-- The breaker under any interleaving of threads: the lock makes each operation one step, and the
-- clock moves on between steps.
use agentic_learning_platfor.Base.{
  ℕ, ◌+◌, ◌≤◌, ◌<◌, String, ◌≡◌, refl, true, false, [], arith, get, put, get-put, str_eq,
  if◌then◌else◌, Bool-cases, inl, inr,
}
use agentic_learning_platfor.Gateway.Circuit.{
  Circuit, Circuits, Breaker, fresh, can_invoke, report_success, report_failure, circuit_of,
  count_failure,
}
use agentic_learning_platfor.Gateway.Circuit.Laws.{can_invoke-answer}

pub record Shared : Type 0 where
  pub now : ℕ
  pub circuits : Circuits

circuit_of-put :
    (p q : String) (c : Circuit) (m : Circuits)
    → circuit_of q (put p c m) ≡ (if str_eq p q then c else circuit_of q m)
unfolding circuit_of
circuit_of-put p q c m = ground (arith, get-put p q c m)

abbrev pub start : ℕ → Shared
start t = record { now = t; circuits = [] }

module _ (b : Breaker) where
  pub data Step : Shared → Shared → Type 0 where
    tick : (s : Shared) (t : ℕ) → s.now ≤ t → Step s (record s { now = t })
    ask :
        (s : Shared) (p : String)
        → Step s (record s { circuits = (can_invoke s.now p s.circuits).0 })
    succeed :
        (s : Shared) (p : String) → Step s (record s { circuits = report_success p s.circuits })
    fail :
        (s : Shared) (p : String)
        → Step s (record s { circuits = report_failure b s.now p s.circuits })

  pub data Reach (s : Shared) : Shared → Type 0 where
    here : Reach s s
    next : {t u : Shared} → Reach s t → Step t u → Reach s u

  -- A wait ends within the cooldown, and there is one exactly from the threshold on.
  record IsSound (now : ℕ) (c : Circuit) : Type 0 where
    bounded : c.open_until ≤ now + b.cooldown
    tripped : c.failures < b.threshold → c.open_until ≡ 0
    waits : b.threshold ≤ c.failures → 0 < c.open_until

  fresh-IsSound : (now : ℕ) → IsSound now fresh
  fresh-IsSound now = record {
    bounded = omega arith;
    tripped = λ _. refl;
    waits = λ h. absurd (omega (arith, b.threshold_pos));
  }

  count_failure-IsSound :
      (now : ℕ) (c : Circuit) → IsSound now c → IsSound now (count_failure b now c)
  unfolding count_failure
  count_failure-IsSound now c s = record {
    bounded = ground (arith, s.bounded);
    tripped = ground (arith, s.tripped);
    waits = ground (arith, s.waits, b.cooldown_pos);
  }

  abbrev AllSound : ℕ → Circuits → Type 0
  AllSound now m = (p : String) → IsSound now (circuit_of p m)

  put-AllSound :
      (now : ℕ) (p : String) (c : Circuit) (m : Circuits)
      → IsSound now c
      → AllSound now m
      → AllSound now (put p c m)
  put-AllSound now p c m sc sm q =
      rw (circuit_of-put p q c m)
        (elim (Bool-cases (str_eq p q)) [ inl e ↦ rw e sc | inr e ↦ rw e (sm q) ])

  can_invoke-AllSound :
      (now : ℕ) (p : String) (m : Circuits) → AllSound now m → AllSound now (can_invoke now p m).0
  unfolding can_invoke
  can_invoke-AllSound now p m sm =
      ground (arith, sm, put-AllSound now p fresh m (fresh-IsSound now) sm)

  Step-AllSound : {s t : Shared} → Step s t → AllSound s.now s.circuits → AllSound t.now t.circuits
  unfolding report_success report_failure
  Step-AllSound (tick s t h) all = λ p. record {
    bounded = omega (arith, (all p).bounded);
    tripped = (all p).tripped;
    waits = (all p).waits;
  }
  Step-AllSound (ask s p) all = can_invoke-AllSound s.now p s.circuits all
  Step-AllSound (succeed s p) all = put-AllSound s.now p fresh s.circuits (fresh-IsSound s.now) all
  Step-AllSound (fail s p) all =
      put-AllSound s.now p _ s.circuits
        (count_failure-IsSound s.now (circuit_of p s.circuits) (all p)) all

  Reach-AllSound :
      {s t : Shared} → AllSound s.now s.circuits → Reach s t → AllSound t.now t.circuits
  Reach-AllSound h here = h
  Reach-AllSound h (next r st) = Step-AllSound st (Reach-AllSound h r)

  start-AllSound : (t : ℕ) → AllSound t []
  unfolding circuit_of get
  start-AllSound t p = fresh-IsSound t

  -- Whatever the threads did, a provider is blocked only with at least `threshold` failures counted
  -- against it.
  blocked_has_failures :
      (t : ℕ) (s : Shared) (p : String)
      → Reach (start t) s
      → (can_invoke s.now p s.circuits).1 ≡ false
      → b.threshold ≤ (circuit_of p s.circuits).failures
  blocked_has_failures t s p r h =
      ground (
        arith,
        (Reach-AllSound (start-AllSound t) r p).tripped,
        can_invoke-answer s.now p s.circuits,
      )

  -- Whatever the threads did, every provider is admitted at a clock reading that is at least the
  -- cooldown later, if nothing is reported in between.
  pub wait_ends :
      (t : ℕ) (s : Shared) (p : String) (later : ℕ)
      → Reach (start t) s
      → s.now + b.cooldown ≤ later
      → (can_invoke later p s.circuits).1 ≡ true
  wait_ends t s p later r h =
      ground (
        arith,
        (Reach-AllSound (start-AllSound t) r p).bounded,
        can_invoke-answer later p s.circuits,
      )

  -- Whatever the threads did, a provider with `threshold` failures counted against it has the end of
  -- its wait set.
  pub tripped_has_wait :
      (t : ℕ) (s : Shared) (p : String)
      → Reach (start t) s
      → b.threshold ≤ (circuit_of p s.circuits).failures
      → 0 < (circuit_of p s.circuits).open_until
  tripped_has_wait t s p r = (Reach-AllSound (start-AllSound t) r p).waits
