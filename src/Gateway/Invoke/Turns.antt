-- ===== src/Gateway/Invoke/Turns.antt =====
-- When the turn of a provider goes on to the next one: what its tests and its call come to.
use agentic_learning_platfor.Base.{
  ℕ, ◌+◌, String, Text, strip, ◌≡◌, refl, sym, subst, ap, ◌∙◌, ◌⊎◌, inl, inr, Bool, true, false,
  arith, Bool-cases,
}
use agentic_learning_platfor.Gateway.Circuit.{Breaker, can_invoke}
use agentic_learning_platfor.Gateway.Cache.{LlmResponse, Role}
use agentic_learning_platfor.Gateway.Errors.{configuration_error, retryable}
use agentic_learning_platfor.Gateway.Invoke.{
  Usage, Attempt, Result, Turn, go_on, is_empty, is_supported, Outcome, replied, raised, World,
  Gateway, stop, recover, accept, settle, call_provider, attempt_text, empty_response, guarded,
}
use agentic_learning_platfor.Gateway.Invoke.Walk.{Usable}

module _ (b : Breaker) (ttl : ℕ) (w : World) (role : Role) (prompt : Text) (streaming : Bool) where
  abbrev pub asked_of : String → Gateway → Gateway
  asked_of p g = record g {
    circuits = (can_invoke (w.clock g.events) p g.circuits).0;
    events = g.events + 1;
  }

  -- What makes a call a failure: an exception, or a blank answer.
  abbrev pub Failed : Outcome → Text → Type 0
  Failed (raised e) message = e ≡ message
  Failed (replied content usage) message =
      (is_empty (strip w.unicode.is_space content) ≡ true) × (empty_response ≡ message)

  -- The call failed for a reason that may pass.
  abbrev pub Transient : Outcome → Type 0
  Transient o =
      (message : Text) × Failed o message
      × (configuration_error w.unicode message ≡ false)
      × (retryable w.unicode message ≡ true)

  abbrev pub GoesOn : Turn LlmResponse → Type 0
  GoesOn turn = (a : Attempt) × (turn ≡ go_on a)

  abbrev pub Ends : Turn LlmResponse → Type 0
  Ends turn = (r : Result LlmResponse) × (turn ≡ stop r)

  -- It is decided whether the walk goes on, as it does exactly under a condition.
  abbrev pub Decided : Type 0 → Turn LlmResponse → Type 0
  Decided C turn = (C × GoesOn turn) ⊎ ((C → ⊥) × Ends turn)

  recover-cases :
      (p : String) (message : Text) (g : Gateway)
      → Decided
          ((configuration_error w.unicode message ≡ false) × (retryable w.unicode message ≡ true))
          (recover b ttl w p message g).0
  unfolding recover
  recover-cases p message g = elim (Bool-cases (configuration_error w.unicode message)) [
    | inl c ↦ rw c (inr (λ h. cc, (_, refl)))
    | inr c ↦ elim (Bool-cases (retryable w.unicode message)) [
      | inl r ↦ rw (c, r) (inl ((refl, refl), (_, refl)))
      | inr r ↦ rw (c, r) (inr (λ h. cc, (_, refl)))
    ]
  ]

  -- A failure with this message goes on if it is transient, and else ends the walk.
  failure-cases :
      (o : Outcome) (p : String) (message : Text) (g : Gateway)
      → Failed o message
      → ((other : Text) → Failed o other → message ≡ other)
      → Decided (Transient o) (recover b ttl w p message g).0
  failure-cases o p message g fails only = elim (recover-cases p message g) [
    | inl (cr, on) ↦ inl ((message, fails, cr.0, cr.1), on)
    | inr (stays, off) ↦ inr (
      λ t. stays (
        ap (configuration_error w.unicode) (only t.0 t.1) ∙ t.2,
        ap (retryable w.unicode) (only t.0 t.1) ∙ t.3,
      ),
      off,
    )
  ]

  settle-blank :
      (p : String) (content : Text) (usage : Usage) (g : Gateway)
      → is_empty (strip w.unicode.is_space content) ≡ true
      → settle b ttl w role prompt streaming p (replied content usage) g
        ≡ recover b ttl w p empty_response g
  unfolding settle
  settle-blank p content usage g e = rw e refl

  settle-said :
      (p : String) (content : Text) (usage : Usage) (g : Gateway)
      → is_empty (strip w.unicode.is_space content) ≡ false
      → Ends (settle b ttl w role prompt streaming p (replied content usage) g).0
  unfolding settle accept
  settle-said p content usage g e = rw e (_, refl)

  settle-cases :
      (p : String) (o : Outcome) (g : Gateway)
      → Decided (Transient o) (settle b ttl w role prompt streaming p o g).0
  unfolding settle
  settle-cases p (raised message) g = failure-cases (raised message) p message g refl (λ other e. e)
  settle-cases p (replied content usage) g =
      elim (Bool-cases (is_empty (strip w.unicode.is_space content))) [
        | inl e ↦
            subst (λ q. Decided (Transient (replied content usage)) q.0)
              (sym (settle-blank p content usage g e))
              (failure-cases (replied content usage) p empty_response g (e, refl) (λ other f. f.1))
        | inr e ↦ inr (λ t. absurd (ground (arith, t.1.0)), settle-said p content usage g e)
      ]

  -- The provider is skipped, or its call fails for a reason that may pass.
  abbrev pub IsPassed : String → Gateway → Type 0
  IsPassed p g =
      (Usable w p × ((can_invoke (w.clock g.events) p g.circuits).1 ≡ true) → ⊥)
      ⊎ Transient (call_provider b ttl w role prompt streaming p (asked_of p g)).0

  guarded-admitted :
      (p : String) (g : Gateway)
      → is_supported p ≡ true
      → w.credentials p ≡ true
      → (can_invoke (w.clock g.events) p g.circuits).1 ≡ true
      → guarded b ttl w (attempt_text b ttl w role prompt streaming) p g
        ≡ attempt_text b ttl w role prompt streaming p (asked_of p g)
  unfolding guarded
  guarded-admitted p g s c i = rw (s, c, i) refl

  attempt-cases :
      (p : String) (g : Gateway)
      → Decided
          (Transient (call_provider b ttl w role prompt streaming p g).0)
          (attempt_text b ttl w role prompt streaming p g).0
  unfolding attempt_text
  attempt-cases p g =
      let (o, g') = call_provider b ttl w role prompt streaming p g in settle-cases p o g'

  pub guarded-cases :
      (p : String) (g : Gateway)
      → Decided (IsPassed p g) (guarded b ttl w (attempt_text b ttl w role prompt streaming) p g).0
  unfolding guarded
  guarded-cases p g = elim (Bool-cases (is_supported p)) [
    | inr s ↦ rw s (inl (inl (λ u. absurd (ground (arith, u.0.0))), (_, refl)))
    | inl s ↦ elim (Bool-cases (w.credentials p)) [
      | inr c ↦ rw (s, c) (inl (inl (λ u. absurd (ground (arith, u.0.1))), (_, refl)))
      | inl c ↦ elim (Bool-cases (can_invoke (w.clock g.events) p g.circuits).1) [
        | inr i ↦ rw (s, c, i) (inl (inl (λ u. absurd (ground (arith, u.1))), (_, refl)))
        | inl i ↦
            subst (λ q. Decided (IsPassed p g) q.0) (sym (guarded-admitted p g s c i))
              (elim (attempt-cases p (asked_of p g)) [
                | inl (transient, on) ↦ inl (inr transient, on)
                | inr (stays, off) ↦ inr (
                  λ passed. elim passed [
                    | inl skipped ↦ absurd (skipped ((s, c), i))
                    | inr transient ↦ stays transient
                  ],
                  off,
                )
              ])
      ]
    ]
  ]
