-- ===== src/Gateway/Invoke/Walk.antt =====
-- Rules for the walk along the chain of providers, whatever an attempt does.
use agentic_learning_platfor.Base.{
  ℕ, ◌+◌, ◌<◌, String, ◌≡◌, ◌≢◌, refl, sym, subst, ◌∙◌, ap, Bool-cases, ◌⊎◌, inl, inr, true, List,
  [], ◌∷◌, ◌++◌, map, map-append, str_eq, eq_iff, append_assoc, append-nil,
}
use agentic_learning_platfor.Gateway.Circuit.{Breaker, can_invoke, circuit_of}
use agentic_learning_platfor.Gateway.Circuit.Laws.{circuits_are_separate, can_invoke-blocked}
use agentic_learning_platfor.Gateway.Invoke.{
  Attempt, unsupported, not_configured, circuit_open, provider_of, no_provider, Result, ok, err,
  World, Gateway, Turn, go_on, stop, is_supported, guarded, walk,
}

-- Some item of the list has the property.
abbrev pub Some {ℓ} : {A : Type ℓ} → (A → Type 0) → List A → Type 0
Some P [] = ⊥
Some P (x ∷ xs) = P x ⊎ Some P xs

abbrev pub Usable : World → String → Type 0
Usable w p = (is_supported p ≡ true) × (w.credentials p ≡ true)

module _ (b : Breaker) (ttl : ℕ) (w : World) {A : Type 0}
    (attempt : String → Gateway → Turn A × Gateway) where
  -- The state in which the attempt is made.
  abbrev asked : String → Gateway → Gateway
  asked p g = record g {
    circuits = (can_invoke (w.clock g.events) p g.circuits).0;
    events = g.events + 1;
  }

  abbrev Skipped : String → Gateway → Type 0
  Skipped p g =
      (a : Attempt) × ((guarded b ttl w attempt p g).0 ≡ go_on a)
      × (provider_of a ≡ p)
      × ((guarded b ttl w attempt p g).1.called ≡ g.called)
      × ((q : String)
          → p ≢ q
          → circuit_of q (guarded b ttl w attempt p g).1.circuits ≡ circuit_of q g.circuits)

  abbrev Ran : String → Gateway → Type 0
  Ran p g =
      Usable w p
      × ((can_invoke (w.clock g.events) p g.circuits).1 ≡ true)
      × (guarded b ttl w attempt p g ≡ attempt p (asked p g))

  pub guarded_cases : (p : String) (g : Gateway) → Skipped p g ⊎ Ran p g
  unfolding guarded
  guarded_cases p g = elim (Bool-cases (is_supported p)) [
    | inr s ↦ inl (unsupported p, rw s refl, refl, rw s refl, λ q ne. rw s refl)
    | inl s ↦ elim (Bool-cases (w.credentials p)) [
      | inr c ↦ inl (not_configured p, rw (s, c) refl, refl, rw (s, c) refl, λ q ne. rw (s, c) refl)
      | inl c ↦ elim (Bool-cases (can_invoke (w.clock g.events) p g.circuits).1) [
        | inr i ↦ inl (
          circuit_open p,
          rw (s, c, i) refl,
          refl,
          rw (s, c, i) refl,
          λ q ne. rw (s, c, i) (circuits_are_separate b (w.clock g.events) p q g.circuits ne).0,
        )
        | inl i ↦ inr ((s, c), i, rw (s, c, i) refl)
      ]
    ]
  ]

  turn_cases : (t : Turn A) → ((a : Attempt) × (t ≡ go_on a)) ⊎ ((r : Result A) × (t ≡ stop r))
  turn_cases (go_on a) = inl (a, refl)
  turn_cases (stop r) = inr (r, refl)

  pub walk-go_on :
      (p : String) (chain : List String) (attempted : List Attempt) (g : Gateway) (a : Attempt)
      → (guarded b ttl w attempt p g).0 ≡ go_on a
      → walk b ttl w attempt (p ∷ chain) attempted g
        ≡ walk b ttl w attempt chain (attempted ++ a ∷ []) (guarded b ttl w attempt p g).1
  unfolding walk
  walk-go_on p chain attempted g a h = rw (h, walk) refl

  pub walk-stop :
      (p : String) (chain : List String) (attempted : List Attempt) (g : Gateway) (r : Result A)
      → (guarded b ttl w attempt p g).0 ≡ stop r
      → walk b ttl w attempt (p ∷ chain) attempted g ≡ (r, (guarded b ttl w attempt p g).1)
  unfolding walk
  walk-stop p chain attempted g r h = rw (h, walk) refl

  walk-nil :
      (attempted : List Attempt) (g : Gateway)
      → walk b ttl w attempt [] attempted g ≡ (err (no_provider attempted), g)
  unfolding walk
  walk-nil attempted g = refl

  abbrev GoesOn : String → Gateway → Type 0
  GoesOn p g = (a : Attempt) × ((guarded b ttl w attempt p g).0 ≡ go_on a)

  abbrev Stops : String → Gateway → Type 0
  Stops p g =
      (r : Result A) × Usable w p
      × ((attempt p (asked p g)).0 ≡ stop r)
      × (guarded b ttl w attempt p g ≡ attempt p (asked p g))

  GoesOn-or_Stops : (p : String) (g : Gateway) → GoesOn p g ⊎ Stops p g
  GoesOn-or_Stops p g = elim (guarded_cases p g) [
    | inl (a, e, _, _, _) ↦ inl (a, e)
    | inr (u, i, e) ↦ elim (turn_cases (attempt p (asked p g)).0) [
      | inl (a, et) ↦ inl (a, ap (λ x. x.0) e ∙ et)
      | inr (r, et) ↦ inr (r, u, et, e)
    ]
  ]

  -- What every answering attempt leaves behind holds of the answer of the walk, with the provider.
  pub walk-ok :
      (P : String → A → Gateway → Type 0)
      → ((p : String) (g : Gateway) (a : A) → (attempt p g).0 ≡ stop (ok a) → P p a (attempt p g).1)
      → (chain : List String) (attempted : List Attempt) (g : Gateway) (a : A)
      → (walk b ttl w attempt chain attempted g).0 ≡ ok a
      → Some (λ p. Usable w p × P p a (walk b ttl w attempt chain attempted g).1) chain
  walk-ok P rule [] attempted g a h = cc (ap (λ x. x.0) (walk-nil attempted g))
  walk-ok P rule (p ∷ chain) attempted g a h = elim (GoesOn-or_Stops p g) [
    | inl (t, e) ↦
        let on = walk-go_on p chain attempted g t e in
        let g' = (guarded b ttl w attempt p g).1 in
        subst (λ x. Some (λ q. Usable w q × P q a x.1) (p ∷ chain)) (sym on)
          (inr (walk-ok P rule chain (attempted ++ t ∷ []) g' a (sym (ap (λ x. x.0) on) ∙ h)))
    | inr (r, u, et, e) ↦
        let off = walk-stop p chain attempted g r (ap (λ x. x.0) e ∙ et) in
        let answered : r ≡ ok a = sym (ap (λ x. x.0) off) ∙ h in
        subst (λ x. Some (λ q. Usable w q × P q a x.1) (p ∷ chain)) (sym off)
          (inl (u, rw e (rule p (asked p g) a (et ∙ ap stop answered))))
  ]

  provider_of-guarded :
      ((p : String) (g : Gateway) (a : Attempt) → (attempt p g).0 ≡ go_on a → provider_of a ≡ p)
      → (p : String) (g : Gateway) (a : Attempt) → (guarded b ttl w attempt p g).0 ≡ go_on a
      → provider_of a ≡ p
  provider_of-guarded names p g a h = elim (guarded_cases p g) [
    | inl (a', e, n, _, _) ↦ cc (sym e ∙ h)
    | inr (u, i, e) ↦ names p (asked p g) a (sym (ap (λ x. x.0) e) ∙ h)
  ]

  -- If an attempt that goes on names its own provider, and none says that there is no provider, then
  -- the report of a walk that ends without a provider has an entry for each of the chain, in order.
  pub walk-attempted :
      ((p : String) (g : Gateway) (a : Attempt) → (attempt p g).0 ≡ go_on a → provider_of a ≡ p)
      → ((p : String) (g : Gateway) (l : List Attempt)
          → (attempt p g).0 ≢ stop (err (no_provider l)))
      → (chain : List String) (attempted report : List Attempt) (g : Gateway)
      → (walk b ttl w attempt chain attempted g).0 ≡ err (no_provider report)
      → map provider_of report ≡ map provider_of attempted ++ chain
  walk-attempted names none_stops [] attempted report g h =
      let same : attempted ≡ report = cc (ap (λ x. x.0) (walk-nil attempted g)) in
      ap (map provider_of) (sym same) ∙ sym (append-nil (map provider_of attempted))
  walk-attempted names none_stops (p ∷ chain) attempted report g h = elim (GoesOn-or_Stops p g) [
    | inl (t, e) ↦
        let on = walk-go_on p chain attempted g t e in
        let g' = (guarded b ttl w attempt p g).1 in
        let named : provider_of t ≡ p = provider_of-guarded names p g t e in
        walk-attempted names none_stops chain (attempted ++ t ∷ []) report g'
          (sym (ap (λ x. x.0) on) ∙ h)
        ∙ simp (map-append, append_assoc, named)
    | inr (r, u, et, e) ↦
        let off = walk-stop p chain attempted g r (ap (λ x. x.0) e ∙ et) in
        absurd (none_stops p (asked p g) report (et ∙ ap stop (sym (ap (λ x. x.0) off) ∙ h)))
  ]

  guarded-blocked :
      (p : String) (g : Gateway)
      → w.clock g.events < (circuit_of p g.circuits).open_until
      → ((guarded b ttl w attempt p g).1.called ≡ g.called)
        × ((guarded b ttl w attempt p g).1.circuits ≡ g.circuits)
  unfolding guarded
  guarded-blocked p g h =
      let asks = can_invoke-blocked (w.clock g.events) p g.circuits h in
      elim (Bool-cases (is_supported p)) [
        | inr s ↦ (rw s refl, rw s refl)
        | inl s ↦ elim (Bool-cases (w.credentials p)) [
          | inr c ↦ (rw (s, c) refl, rw (s, c) refl)
          | inl c ↦ (rw (s, c, asks) refl, rw (s, c, asks) refl)
        ]
      ]

  module _ (count : List String → ℕ) (q : String)
      (quiet : (p : String) (g : Gateway) → p ≢ q → count (attempt p g).1.called ≡ count g.called)
      (apart : (p : String) (g : Gateway)
        → p ≢ q
        → circuit_of q (attempt p g).1.circuits ≡ circuit_of q g.circuits) where
    guarded-apart :
        (p : String) (g : Gateway)
        → w.clock g.events < (circuit_of q g.circuits).open_until
        → (count (guarded b ttl w attempt p g).1.called ≡ count g.called)
          × (circuit_of q (guarded b ttl w attempt p g).1.circuits ≡ circuit_of q g.circuits)
    guarded-apart p g h = elim (Bool-cases (str_eq p q)) [
      | inl same ↦
          let e : p ≡ q = (eq_iff p q).0 same in
          let (called, kept) = guarded-blocked p g (rw e h) in
          (ap count called, ap (circuit_of q) kept)
      | inr differ ↦
          let ne : p ≢ q = λ e. cc ((eq_iff p q).1 e) in
          elim (guarded_cases p g) [
            | inl (a, e, n, called, kept) ↦ (ap count called, kept q ne)
            | inr (u, i, e) ↦ (
              ap (λ x. count x.1.called) e ∙ quiet p (asked p g) ne,
              ap (λ x. circuit_of q x.1.circuits) e
                  ∙ apart p (asked p g) ne
                  ∙ (circuits_are_separate b (w.clock g.events) p q g.circuits ne).0,
            )
          ]
    ]

    -- A provider whose circuit stays open at every reading of the clock is never called, if the
    -- attempts with others call only them.
    pub walk-called :
        (chain : List String) (attempted : List Attempt) (g : Gateway)
        → ((n : ℕ) → w.clock n < (circuit_of q g.circuits).open_until)
        → count (walk b ttl w attempt chain attempted g).1.called ≡ count g.called
    walk-called [] attempted g blocked = ap (λ x. count x.1.called) (walk-nil attempted g)
    walk-called (p ∷ chain) attempted g blocked =
        let (called, kept) = guarded-apart p g (blocked g.events) in
        elim (GoesOn-or_Stops p g) [
          | inl (t, e) ↦
              ap (λ x. count x.1.called) (walk-go_on p chain attempted g t e)
              ∙ walk-called chain (attempted ++ t ∷ []) (guarded b ttl w attempt p g).1
                  (λ n. rw kept (blocked n))
              ∙ called
          | inr (r, u, et, e) ↦
              ap (λ x. count x.1.called) (walk-stop p chain attempted g r (ap (λ x. x.0) e ∙ et))
              ∙ called
        ]
