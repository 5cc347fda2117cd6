-- ===== src/Gateway/Invoke/Answers.antt =====
-- What `invoke_inner` returns, and what it leaves behind.
use agentic_learning_platfor.Base.{
  ℕ, String, Text, strip, ◌≡◌, ◌≢◌, refl, subst, Bool, false, List, [], map, arith, inl, inr,
  Bool-cases,
}
use agentic_learning_platfor.Gateway.Circuit.{Breaker, fresh, circuit_of, report_success}
use agentic_learning_platfor.Gateway.Circuit.Laws.{circuit_of-put_self}
use agentic_learning_platfor.Gateway.Cache.{LlmResponse, Role}
use agentic_learning_platfor.Gateway.Invoke.{
  Attempt, provider_of, no_provider, ok, err, Usage, Outcome, replied, raised, World, Gateway,
  go_on, stop, recover, store, accept, settle, call_provider, attempt_text, invoke_inner,
  empty_response, is_empty,
}
use agentic_learning_platfor.Gateway.Invoke.Walk.{Some, Usable, walk-ok, walk-attempted}

module _ (b : Breaker) (ttl : ℕ) (w : World) (role : Role) (prompt : Text) (streaming : Bool) where
  abbrev pub Good : String → LlmResponse → Gateway → Type 0
  Good p r g =
      (r.provider ≡ p)
      × (is_empty (strip w.unicode.is_space r.content) ≡ false)
      × (circuit_of p g.circuits ≡ fresh)

  recover-ne-ok :
      {A : Type 0} (p : String) (message : Text) (g : Gateway) (a : A)
      → (recover b ttl w {A = A} p message g).0 ≢ stop (ok a)
  unfolding recover
  recover-ne-ok p message g a h = ground arith

  circuits-store :
      (r : LlmResponse) (g : Gateway)
      → (store b ttl w role prompt streaming r g).circuits ≡ g.circuits
  unfolding store
  circuits-store r g = ground arith

  accept-ok :
      (p : String) (content : Text) (usage : Usage) (g : Gateway) (r : LlmResponse)
      → is_empty (strip w.unicode.is_space content) ≡ false
      → (accept b ttl w role prompt streaming p content usage g).0 ≡ stop (ok r)
      → Good p r (accept b ttl w role prompt streaming p content usage g).1
  unfolding accept report_success
  accept-ok p content usage g r e h =
      let same : answer ≡ r = cc in
      (
        subst (λ (x : LlmResponse). x.provider ≡ p) same refl,
        subst (λ (x : LlmResponse). is_empty (strip w.unicode.is_space x.content) ≡ false) same e,
        rw circuits-store (circuit_of-put_self p fresh g.circuits),
      )
    where
      answer : LlmResponse
      answer = record {
        content = content;
        provider = p;
        model = w.model_name p;
        prompt_tokens = usage.prompt;
        completion_tokens = usage.completion;
        total_tokens = usage.total;
      }

  settle-ok :
      (p : String) (o : Outcome) (g : Gateway) (r : LlmResponse)
      → (settle b ttl w role prompt streaming p o g).0 ≡ stop (ok r)
      → Good p r (settle b ttl w role prompt streaming p o g).1
  unfolding settle
  settle-ok p (raised message) g r h = absurd (recover-ne-ok p message g r h)
  settle-ok p (replied content usage) g r h =
      elim (Bool-cases (is_empty (strip w.unicode.is_space content))) [
        | inl e ↦ absurd (recover-ne-ok p empty_response g r (rw e at h))
        | inr e ↦ rw e (accept-ok p content usage g r e (rw e at h))
      ]

  attempt_text-ok :
      (p : String) (g : Gateway) (r : LlmResponse)
      → (attempt_text b ttl w role prompt streaming p g).0 ≡ stop (ok r)
      → Good p r (attempt_text b ttl w role prompt streaming p g).1
  unfolding attempt_text
  attempt_text-ok p g r h =
      let (o, g') = call_provider b ttl w role prompt streaming p g in settle-ok p o g' r h

  -- An answer carries the name of a provider of the role's chain that is supported and has its
  -- credentials; its content is not blank, and the circuit of that provider is closed and fresh
  -- afterwards.
  pub invoke_inner-answer :
      (g : Gateway) (r : LlmResponse)
      → (invoke_inner b ttl w role prompt streaming g).0 ≡ ok r
      → Some
          (λ p. Usable w p × Good p r (invoke_inner b ttl w role prompt streaming g).1)
          (w.chain role)
  unfolding invoke_inner
  invoke_inner-answer g r h =
      walk-ok b ttl w (attempt_text b ttl w role prompt streaming) Good attempt_text-ok
        (w.chain role) [] g r h

  recover_names :
      (p : String) (message : Text) (g : Gateway) (a : Attempt)
      → (recover b ttl w {A = LlmResponse} p message g).0 ≡ go_on a
      → provider_of a ≡ p
  unfolding recover
  recover_names p message g a h = ground arith

  recover-ne-no_provider :
      (p : String) (message : Text) (g : Gateway) (l : List Attempt)
      → (recover b ttl w {A = LlmResponse} p message g).0 ≢ stop (err (no_provider l))
  unfolding recover
  recover-ne-no_provider p message g l h = ground arith

  settle_names :
      (p : String) (o : Outcome) (g : Gateway) (a : Attempt)
      → (settle b ttl w role prompt streaming p o g).0 ≡ go_on a
      → provider_of a ≡ p
  unfolding settle accept
  settle_names p (raised message) g a h = recover_names p message g a h
  settle_names p (replied content usage) g a h = ground (arith, recover_names p empty_response g a)

  settle-ne-no_provider :
      (p : String) (o : Outcome) (g : Gateway) (l : List Attempt)
      → (settle b ttl w role prompt streaming p o g).0 ≢ stop (err (no_provider l))
  unfolding settle accept
  settle-ne-no_provider p (raised message) g l h = recover-ne-no_provider p message g l h
  settle-ne-no_provider p (replied content usage) g l h =
      ground (arith, recover-ne-no_provider p empty_response g l)

  -- When no provider was available, the error tells of every provider of the chain, in order, and of
  -- nothing else.
  invoke_inner-report :
      (g : Gateway) (report : List Attempt)
      → (invoke_inner b ttl w role prompt streaming g).0 ≡ err (no_provider report)
      → map provider_of report ≡ w.chain role
  unfolding invoke_inner attempt_text
  invoke_inner-report g report h =
      walk-attempted b ttl w (attempt_text b ttl w role prompt streaming)
        (λ p g a.
          let (o, g') = call_provider b ttl w role prompt streaming p g in settle_names p o g' a)
        (λ p g l.
          let (o, g') = call_provider b ttl w role prompt streaming p g in
          settle-ne-no_provider p o g' l)
        (w.chain role) [] report g h
