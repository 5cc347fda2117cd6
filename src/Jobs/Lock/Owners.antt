-- ===== src/Jobs/Lock/Owners.antt =====
-- The workers that hold the lock of one document: what each of them may rely on after its requests.
-- A worker's `lock_acquired` without `lock_lost` stands for until the end of the time to live that
-- Redis gave at its last request.
use agentic_learning_platfor.Base.{
  ℕ, ◌+◌, ◌≤◌, ◌<◌, String, ◌≡◌, ◌⊎◌, sym, subst, ◌∙◌, true, none, some, [], arith, Assoc, get, put,
  remove, get-put, get-remove, Bool-cases, Option-cases, inl, inr, some_inj, eq_iff,
}
use agentic_learning_platfor.Jobs.Lock.{Redis, is_value}
use agentic_learning_platfor.Jobs.Lock.Lease.{
  Lease, holder, Request, acquire, release, refresh, Answer, acquired, refreshed, lease_step,
  redis_step, Holds, StepHolds, step-Holds, held_of_is_value,
}

-- What a worker concludes from an answer.
abbrev pub conclude : ℕ → Request → Answer → Assoc ℕ → Assoc ℕ
conclude end (acquire task) (acquired (some true)) held = put task end held
conclude end (acquire task) answer held = held
conclude end (release task) answer held = remove task held
conclude end (refresh task) (refreshed true) held = put task end held
conclude end (refresh task) answer held = remove task held

-- The lease names every worker that still relies on the lock, for as long as it does.
abbrev pub Agrees : ℕ → Assoc ℕ → Lease → Type 0
Agrees now held lease =
    (task : String) (end : ℕ)
    → get task held ≡ some end
    → (t : ℕ) → now ≤ t
    → t < end
    → holder lease t ≡ some task

Agrees-renew :
    (now ttl : ℕ) (task : String) (held : Assoc ℕ)
    → ((other : String) (end : ℕ) → get other held ≡ some end → now < end → other ≡ task)
    → Agrees now (put task (now + ttl) held) (some (task, now + ttl))
Agrees-renew now ttl task held alone other end e t le lt =
    ground (arith, get-put task other (now + ttl) held, eq_iff task other, alone other end)

Agrees-remove :
    (now : ℕ) (task : String) (held : Assoc ℕ) (lease : Lease)
    → Agrees now held lease
    → Agrees now (remove task held) lease
Agrees-remove now task held lease h other end e t le lt =
    ground (arith, get-remove task other held, h other end _ t le lt)

-- A worker that relies on the lock at a moment is the one that the lease names then.
alone :
    (now : ℕ) (task : String) (held : Assoc ℕ) (lease : Lease)
    → Agrees now held lease
    → (holder lease now ≡ none) ⊎ (holder lease now ≡ some task)
    → (other : String) (end : ℕ) → get other held ≡ some end
    → now < end
    → other ≡ task
alone now task held lease h (inl e) other end g lt =
    absurd (ground (arith, h other end g now (omega arith) lt))
alone now task held lease h (inr e) other end g lt =
    some_inj (sym (h other end g now (omega arith) lt) ∙ e)

module _ (ttl : ℕ) where
  StepAgrees : ℕ → Request → Assoc ℕ → Lease → Type 0
  StepAgrees now request held lease =
      let r = lease_step ttl now request lease in
      Agrees now (conclude (now + ttl) request r.1 held) r.0

  step-Agrees :
      (now : ℕ) (request : Request) (held : Assoc ℕ) (lease : Lease)
      → Agrees now held lease
      → StepAgrees now request held lease
  unfolding StepAgrees
  step-Agrees now (acquire task) held lease h = elim (Option-cases (holder lease now)) [
    | inl e ↦ rw e (Agrees-renew now ttl task held (alone now task held lease h (inl e)))
    | inr (other, e) ↦ rw e h
  ]
  step-Agrees now (release task) held lease h =
      elim (Bool-cases (is_value task (holder lease now))) [
        | inl e ↦ rw e (λ other end g t le lt. absurd (
            ground (
              arith,
              get-remove task other held,
              eq_iff task other,
              alone now task held lease h (inr (held_of_is_value task (holder lease now) e)) other
                  end,
            )))
        | inr e ↦ rw e (Agrees-remove now task held lease h)
      ]
  step-Agrees now (refresh task) held lease h =
      elim (Bool-cases (is_value task (holder lease now))) [
        | inl e ↦ rw e (
            Agrees-renew now ttl task held
              (alone now task held lease h (inr (held_of_is_value task (holder lease now) e))))
        | inr e ↦ rw e (Agrees-remove now task held lease h)
      ]

-- The clock, Redis, and what the workers rely on.
pub record System (Store : Type 0) : Type 0 where
  pub now : ℕ
  pub store : Store
  pub held : Assoc ℕ

module _ (redis : Redis) (ttl document_id : ℕ) where
  abbrev pub ask : Request → System redis.Store → System redis.Store
  ask request s =
      let r = redis_step redis ttl document_id s.now request s.store in
      record { now = s.now; store = r.0; held = conclude (s.now + ttl) request r.1 s.held }

  pub data Step : System redis.Store → System redis.Store → Type 0 where
    tick : (s : System redis.Store) (wait : ℕ) → Step s (record s { now = s.now + wait })
    request : (s : System redis.Store) (request : Request) → Step s (ask request s)

  pub data Reach (s : System redis.Store) : System redis.Store → Type 0 where
    here : Reach s s
    next : {t u : System redis.Store} → Reach s t → Step t u → Reach s u

  -- Redis holds the lease, which agrees with the workers.
  record Leased (s : System redis.Store) : Type 0 where
    lease : Lease
    holds : Holds redis ttl document_id s.now s.store lease
    agrees : Agrees s.now s.held lease

  Step-Leased : {s t : System redis.Store} → Step s t → Leased s → Leased t
  unfolding StepHolds StepAgrees
  Step-Leased (tick s wait) l = record {
    lease = l.lease;
    holds = λ t le. l.holds t (omega arith);
    agrees = λ task end e t le lt. l.agrees task end e t (omega arith) lt;
  }
  Step-Leased (request s request') l =
      let r = step-Holds redis ttl document_id s.now request' s.store l.lease l.holds in
      record {
        lease = (lease_step ttl s.now request' l.lease).0;
        holds = r.1;
        agrees =
            subst
              (λ answer.
                Agrees s.now (conclude (s.now + ttl) request' answer s.held)
                  (lease_step ttl s.now request' l.lease).0)
              (sym r.0) (step-Agrees ttl s.now request' s.held l.lease l.agrees);
      }

  Reach-Leased : {s t : System redis.Store} → Leased s → Reach s t → Leased t
  Reach-Leased l here = l
  Reach-Leased l (next r step) = Step-Leased step (Reach-Leased l r)

  start-Leased :
      (s : System redis.Store)
      → s.held ≡ []
      → ((at : ℕ) → s.now ≤ at → redis.read at document_id s.store ≡ none)
      → Leased s
  unfolding get
  start-Leased s none_held free = record {
    lease = none;
    holds = free;
    agrees = rw none_held (λ task end h. absurd (ground arith));
  }

  -- Whatever requests reach Redis in whatever order from a free lock on, two workers that both rely
  -- on the lock, within the time to live since their last granted request, are the same task.
  pub one_owner :
      (s : System redis.Store) (t : System redis.Store) (task other : String) (end last : ℕ)
      → s.held ≡ []
      → ((at : ℕ) → s.now ≤ at → redis.read at document_id s.store ≡ none)
      → Reach s t
      → get task t.held ≡ some end
      → t.now < end
      → get other t.held ≡ some last
      → t.now < last
      → task ≡ other
  unfolding get
  one_owner s t task other end last none_held free r e lt e' lt' =
      let l = Reach-Leased (start-Leased s none_held free) r in
      some_inj (
        sym (l.agrees task end e t.now (omega arith) lt)
        ∙ l.agrees other last e' t.now (omega arith) lt')
