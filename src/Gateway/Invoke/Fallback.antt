-- ===== src/Gateway/Invoke/Fallback.antt =====
-- Which providers an invocation calls, and when it turns to the next one.
use agentic_learning_platfor.Base.{
  ℕ, suc, ◌+◌, ◌<◌, String, Text, contains, codes, ◌≡◌, ◌≢◌, refl, ap, ◌∙◌, inl, inr, Bool, true,
  false, List, [], ◌∷◌, ◌++◌, arith, str_eq, eq_iff, if◌then◌else◌,
}
use agentic_learning_platfor.Gateway.Circuit.{Breaker, circuit_of, can_invoke}
use agentic_learning_platfor.Gateway.Circuit.Laws.{circuits_are_separate}
use agentic_learning_platfor.Gateway.Cache.{LlmResponse, Role}
use agentic_learning_platfor.Gateway.Errors.{configuration_error}
use agentic_learning_platfor.Gateway.Invoke.{
  Attempt, err, Result, rejected, Outcome, replied, raised, World, Gateway, stop, recover, store,
  accept, settle, call_provider, attempt_text, invoke_inner, empty_response, guarded, walk,
}
use agentic_learning_platfor.Gateway.Invoke.Walk.{Usable, walk-called, walk-stop, walk-go_on}
use agentic_learning_platfor.Gateway.Invoke.Turns.{asked_of, IsPassed, guarded-cases}

abbrev pub count_of : String → List String → ℕ
count_of q [] = 0
count_of q (p ∷ ps) = if str_eq p q then suc (count_of q ps) else count_of q ps

count_of-snoc :
    (q p : String) (ps : List String) → p ≢ q → count_of q (ps ++ p ∷ []) ≡ count_of q ps
count_of-snoc q p [] ne = ground (arith, eq_iff p q)
count_of-snoc q p (p' ∷ ps) ne = ground (arith, count_of-snoc q p ps ne)

module _ (b : Breaker) (ttl : ℕ) (w : World) (role : Role) (prompt : Text) (streaming : Bool) where
  called-recover :
      (p : String) (message : Text) (g : Gateway)
      → (recover b ttl w {A = LlmResponse} p message g).1.called ≡ g.called
  unfolding recover
  called-recover p message g = ground arith

  called-settle :
      (p : String) (o : Outcome) (g : Gateway)
      → (settle b ttl w role prompt streaming p o g).1.called ≡ g.called
  unfolding settle accept store
  called-settle p (raised message) g = called-recover p message g
  called-settle p (replied content usage) g = ground (arith, called-recover p empty_response g)

  called-call_provider :
      (p : String) (g : Gateway)
      → (call_provider b ttl w role prompt streaming p g).1.called ≡ g.called ++ p ∷ []
  unfolding call_provider
  called-call_provider p g = ground arith

  called-attempt :
      (p : String) (g : Gateway)
      → (attempt_text b ttl w role prompt streaming p g).1.called ≡ g.called ++ p ∷ []
  unfolding attempt_text
  called-attempt p g =
      let (o, g') = call_provider b ttl w role prompt streaming p g in
      called-settle p o g' ∙ called-call_provider p g

  recover_apart :
      (p q : String) (message : Text) (g : Gateway)
      → p ≢ q
      → circuit_of q (recover b ttl w {A = LlmResponse} p message g).1.circuits
        ≡ circuit_of q g.circuits
  unfolding recover
  recover_apart p q message g ne =
      ground (arith, (circuits_are_separate b (w.clock g.events) p q g.circuits ne).2)

  settle_apart :
      (p q : String) (o : Outcome) (g : Gateway)
      → p ≢ q
      → circuit_of q (settle b ttl w role prompt streaming p o g).1.circuits
        ≡ circuit_of q g.circuits
  unfolding settle accept store
  settle_apart p q (raised message) g ne = recover_apart p q message g ne
  settle_apart p q (replied content usage) g ne = ground (
    arith,
    recover_apart p q empty_response g ne,
    (circuits_are_separate b 0 p q g.circuits ne).1,
  )

  circuits-call_provider :
      (p : String) (g : Gateway)
      → (call_provider b ttl w role prompt streaming p g).1.circuits ≡ g.circuits
  unfolding call_provider
  circuits-call_provider p g = ground arith

  attempt_apart :
      (p q : String) (g : Gateway)
      → p ≢ q
      → circuit_of q (attempt_text b ttl w role prompt streaming p g).1.circuits
        ≡ circuit_of q g.circuits
  unfolding attempt_text
  attempt_apart p q g ne =
      let (o, g') = call_provider b ttl w role prompt streaming p g in
      settle_apart p q o g' ne ∙ ap (circuit_of q) (circuits-call_provider p g)

  -- A provider whose circuit stays open at every reading of the clock is not called, whatever the
  -- other providers of the chain answer.
  pub open_is_never_called :
      (q : String) (g : Gateway)
      → ((n : ℕ) → w.clock n < (circuit_of q g.circuits).open_until)
      → count_of q (invoke_inner b ttl w role prompt streaming g).1.called ≡ count_of q g.called
  unfolding invoke_inner
  open_is_never_called q g blocked =
      walk-called b ttl w (attempt_text b ttl w role prompt streaming) (count_of q) q
        (λ p g' ne. ap (count_of q) (called-attempt p g') ∙ count_of-snoc q p g'.called ne)
        (λ p g' ne. attempt_apart p q g' ne) (w.chain role) [] g blocked

  -- The walk goes on to the next provider exactly when this one is skipped, for it is not usable or its
  -- circuit is open, or when its call, streamed or not, raises an error or gives a blank answer that is
  -- retryable and does not look like a configuration error. Else it ends here, with a result.
  pub falls_back :
      (p : String) (rest : List String) (attempted : List Attempt) (g : Gateway)
      → (IsPassed b ttl w role prompt streaming p g
          → (a : Attempt) × (walk b ttl w
                (attempt_text b ttl w role prompt streaming)
                (p ∷ rest)
                attempted
                g
              ≡ walk b ttl w
                  (attempt_text b ttl w role prompt streaming)
                  rest
                  (attempted ++ a ∷ [])
                  (guarded b ttl w (attempt_text b ttl w role prompt streaming) p g).1))
        × ((IsPassed b ttl w role prompt streaming p g → ⊥)
            → (r : Result LlmResponse) × (walk b ttl w
                  (attempt_text b ttl w role prompt streaming)
                  (p ∷ rest)
                  attempted
                  g
                ≡ (r, (guarded b ttl w (attempt_text b ttl w role prompt streaming) p g).1)))
  falls_back p rest attempted g = elim (guarded-cases b ttl w role prompt streaming p g) [
    | inl (passed, (a, e)) ↦
        (λ h. (a, walk-go_on b ttl w _ p rest attempted g a e), λ h. absurd (h passed))
    | inr (stays, (r, e)) ↦
        (λ h. absurd (stays h), λ h. (r, walk-stop b ttl w _ p rest attempted g r e))
  ]

  called_state : String → Gateway → Gateway
  called_state p g = record g { events = g.events + 1; called = g.called ++ p ∷ [] }

  attempt_text-raised :
      (p : String) (g : Gateway) (message : Text)
      → streaming ≡ false
      → w.invoke g.events p role prompt ≡ raised message
      → attempt_text b ttl w role prompt streaming p g
        ≡ recover b ttl w p message (called_state p g)
  unfolding attempt_text call_provider settle called_state
  attempt_text-raised p g message s e = rw (s, e) refl

  guarded-raised :
      (p : String) (g : Gateway) (message : Text)
      → streaming ≡ false
      → Usable w p
      → (can_invoke (w.clock g.events) p g.circuits).1 ≡ true
      → w.invoke (g.events + 1) p role prompt ≡ raised message
      → guarded b ttl w (attempt_text b ttl w role prompt streaming) p g
        ≡ recover b ttl w p message (called_state p (asked_of b ttl w role prompt streaming p g))
  unfolding guarded
  guarded-raised p g message s (supported, configured) admitted e =
      rw (supported, configured, admitted)
        (attempt_text-raised p (asked_of b ttl w role prompt streaming p g) message s e)

  recover-rejected :
      (p : String) (message : Text) (g : Gateway)
      → configuration_error w.unicode message ≡ true
      → recover b ttl w {A = LlmResponse} p message g ≡ (stop (err (rejected message)), g)
  unfolding recover
  recover-rejected p message g h = rw h refl

  -- A provider whose error message has 400 anywhere in it, be it in a duration or an identifier, ends
  -- the invocation with a configuration error and without a call of another provider, also where the
  -- message tells of a timeout.
  pub stops_at_400 :
      (p : String) (rest : List String) (g : Gateway) (message : Text)
      → w.chain role ≡ p ∷ rest
      → streaming ≡ false
      → Usable w p
      → (can_invoke (w.clock g.events) p g.circuits).1 ≡ true
      → w.invoke (g.events + 1) p role prompt ≡ raised message
      → contains (w.unicode.lower message) (codes "400") ≡ true
      → ((invoke_inner b ttl w role prompt streaming g).0 ≡ err (rejected message))
        × ((invoke_inner b ttl w role prompt streaming g).1.called ≡ g.called ++ p ∷ [])
  unfolding configuration_error invoke_inner recover called_state
  stops_at_400 p rest g message chain s usable admitted e h =
      let config : configuration_error w.unicode message ≡ true = ground arith in
      let fails =
        guarded-raised p g message s usable admitted e
        ∙ recover-rejected p message (called_state p (asked_of b ttl w role prompt streaming p g))
            config in
      let stops =
        walk-stop b ttl w (attempt_text b ttl w role prompt streaming) p rest [] g
          (err (rejected message)) (ap (λ x. x.0) fails) in
      rw (chain, stops) (refl, ap (λ x. x.1.called) fails)
