-- ===== src/Gateway/Circuit/Laws.antt =====
-- What the circuit breaker does to one provider and to the others.
use agentic_learning_platfor.Base.{
  ℕ, ◌+◌, ◌≤◌, ◌<◌, String, ◌≡◌, ◌≢◌, ◌↔◌, refl, ap, ◌∙◌, true, false, not, List, [], ◌∷◌, arith,
  ltb, leb, length, if◌then◌else◌, put, get-put_self, get-put_ne,
}
use agentic_learning_platfor.Gateway.Circuit.{
  Circuit, Circuits, Breaker, fresh, can_invoke, report_success, report_failure, circuit_of,
  count_failure,
}

pub circuit_of-put_self : (p : String) (c : Circuit) (m : Circuits) → circuit_of p (put p c m) ≡ c
unfolding circuit_of
circuit_of-put_self p c m = rw (get-put_self p c m, circuit_of)

circuit_of-put_ne :
    (p q : String) (c : Circuit) (m : Circuits) → p ≢ q → circuit_of q (put p c m) ≡ circuit_of q m
unfolding circuit_of
circuit_of-put_ne p q c m ne = rw (get-put_ne p q c m ne, circuit_of)

-- The breaker admits a call exactly when the clock has reached the provider's own `open_until`; a
-- provider that was never tried is admitted.
pub can_invoke-answer :
    (now : ℕ) (p : String) (m : Circuits)
    → (can_invoke now p m).1 ≡ not (ltb now (circuit_of p m).open_until)
unfolding can_invoke circuit_of
can_invoke-answer now p m = ground arith

-- Asking for a blocked provider changes nothing.
pub can_invoke-blocked :
    (now : ℕ) (p : String) (m : Circuits)
    → now < (circuit_of p m).open_until
    → can_invoke now p m ≡ (m, false)
unfolding can_invoke circuit_of
can_invoke-blocked now p m h = ground arith

-- Asking, succeeding and failing for one provider leave every other provider's circuit as it was.
pub circuits_are_separate :
    (b : Breaker) (now : ℕ) (p q : String) (m : Circuits)
    → p ≢ q
    → (circuit_of q (can_invoke now p m).0 ≡ circuit_of q m)
      × (circuit_of q (report_success p m) ≡ circuit_of q m)
      × (circuit_of q (report_failure b now p m) ≡ circuit_of q m)
unfolding can_invoke report_success report_failure
circuits_are_separate b now p q m ne = (
  ground (arith, circuit_of-put_ne p q fresh m ne),
  circuit_of-put_ne p q fresh m ne,
  circuit_of-put_ne p q _ m ne,
)

-- An admitted call finds its provider's circuit closed: the wait is over and forgotten, and where
-- there was a wait the failures are forgotten too.
pub can_invoke-closes :
    (now : ℕ) (p : String) (m : Circuits)
    → (can_invoke now p m).1 ≡ true
    → ((circuit_of p (can_invoke now p m).0).open_until ≡ 0)
      × ((circuit_of p (can_invoke now p m).0).failures ≤ (circuit_of p m).failures)
unfolding can_invoke circuit_of
can_invoke-closes now p m h = ground (arith, get-put_self p fresh m)

module _ (b : Breaker) where
  -- Failures of one provider, at the given clock readings, with no success between them.
  abbrev pub fail_all : String → List ℕ → Circuits → Circuits
  fail_all p [] m = m
  fail_all p (t ∷ ts) m = fail_all p ts (report_failure b t p m)

  abbrev fail_circuit : Circuit → List ℕ → Circuit
  fail_circuit c [] = c
  fail_circuit c (t ∷ ts) = fail_circuit (count_failure b t c) ts

abbrev pub last_time : ℕ → List ℕ → ℕ
last_time d [] = d
last_time d (t ∷ ts) = last_time t ts

module _ (b : Breaker) where
  circuit_of-report_failure :
      (t : ℕ) (p : String) (m : Circuits)
      → circuit_of p (report_failure b t p m) ≡ count_failure b t (circuit_of p m)
  unfolding report_failure
  circuit_of-report_failure t p m = circuit_of-put_self p _ m

  circuit_of-fail_all :
      (p : String) (ts : List ℕ) (m : Circuits)
      → circuit_of p (fail_all b p ts m) ≡ fail_circuit b (circuit_of p m) ts
  circuit_of-fail_all p [] m = refl
  circuit_of-fail_all p (t ∷ ts) m =
      circuit_of-fail_all p ts (report_failure b t p m)
      ∙ ap (λ c. fail_circuit b c ts) (circuit_of-report_failure t p m)

  -- The wait after some failures is set by the last of them, from the threshold on.
  open_until-fail_circuit :
      (c : Circuit) (t : ℕ) (ts : List ℕ)
      → (fail_circuit b c (t ∷ ts)).open_until ≡ (
          if leb b.threshold (c.failures + length (t ∷ ts))
          then last_time t ts + b.cooldown
          else c.open_until)
  unfolding count_failure
  open_until-fail_circuit c t [] = ground arith
  open_until-fail_circuit c t (t' ∷ ts) =
      ground (arith, open_until-fail_circuit (count_failure b t c) t' ts)

  -- After failures at the clock readings t, ts of a provider whose circuit is fresh (it was never
  -- tried, or it last succeeded), the breaker blocks it exactly if they are at least `threshold`
  -- many and the cooldown since the last of them is not over.
  pub blocked_iff :
      (p : String) (t : ℕ) (ts : List ℕ) (now : ℕ) (m : Circuits)
      → circuit_of p m ≡ fresh
      → ((can_invoke now p (fail_all b p (t ∷ ts) m)).1 ≡ false)
        ↔ ((b.threshold ≤ length (t ∷ ts)) × (now < last_time t ts + b.cooldown))
  blocked_iff p t ts now m e = ground (
    arith,
    can_invoke-answer now p (fail_all b p (t ∷ ts) m),
    circuit_of-fail_all p (t ∷ ts) m,
    open_until-fail_circuit (circuit_of p m) t ts,
  )
