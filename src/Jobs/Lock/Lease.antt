-- ===== src/Jobs/Lock/Lease.antt =====
-- The lock as a lease: who holds it, and until when. The scripts on Redis implement it.
use agentic_learning_platfor.Base.{
  ℕ, ◌+◌, ◌≤◌, String, ◌≡◌, refl, ap, ◌∙◌, Bool, true, false, Option, none, some, List, [], ◌∷◌,
  if◌then◌else◌, arith, Option-cases, Bool-cases, inl, inr, eq_iff,
}
use agentic_learning_platfor.Jobs.Lock.{
  Redis, until, is_value, acquire_doc_index_lock, release_doc_index_lock, refresh_doc_index_lock,
}

abbrev pub Lease : Type 0
Lease = Option (String × ℕ)

abbrev pub holder : Lease → ℕ → Option String
holder none t = none
holder (some (task, end)) t = until end task t

pub data Request : Type 0 where
  acquire : String → Request
  release : String → Request
  refresh : String → Request

pub data Answer : Type 0 where
  acquired : Option Bool → Answer
  released : Answer
  refreshed : Bool → Answer

abbrev pub give : ℕ → String → Lease → Option String → Lease × Answer
give end task lease none = (some (task, end), acquired (some true))
give end task lease (some other) = (lease, acquired (some false))

module _ (ttl : ℕ) where
  -- A task gets the lease when nobody holds it, and ends or renews it when it holds it itself.
  abbrev pub lease_step : ℕ → Request → Lease → Lease × Answer
  lease_step now (acquire task) lease = give (now + ttl) task lease (holder lease now)
  lease_step now (release task) lease =
      if is_value task (holder lease now) then (none, released) else (lease, released)
  lease_step now (refresh task) lease =
      if is_value task (holder lease now)
      then (some (task, now + ttl), refreshed true)
      else (lease, refreshed false)

pub held_of_is_value :
    (value : String) (o : Option String) → is_value value o ≡ true → o ≡ some value
held_of_is_value value none h = absurd (ground arith)
held_of_is_value value (some held) h = ap some ((eq_iff held value).0 h)

module _ (redis : Redis) (ttl document_id : ℕ) where
  abbrev pub redis_step : ℕ → Request → redis.Store → redis.Store × Answer
  redis_step now (acquire task) s =
      let r = acquire_doc_index_lock redis ttl true now document_id task s in (r.0, acquired r.1)
  redis_step now (release task) s =
      (release_doc_index_lock redis ttl true now document_id task s, released)
  redis_step now (refresh task) s =
      let r = refresh_doc_index_lock redis ttl true now document_id task s in (r.0, refreshed r.1)

  -- The requests of all workers in the order in which Redis takes them, each with the time that has
  -- passed since the one before.
  abbrev pub redis_run : ℕ → List (ℕ × Request) → redis.Store → List Answer
  redis_run now [] s = []
  redis_run now ((wait, request) ∷ requests) s =
      let r = redis_step (now + wait) request s in r.1 ∷ redis_run (now + wait) requests r.0

  abbrev pub lease_run : ℕ → List (ℕ × Request) → Lease → List Answer
  lease_run now [] lease = []
  lease_run now ((wait, request) ∷ requests) lease =
      let r = lease_step ttl (now + wait) request lease in r.1 ∷ lease_run (now + wait) requests r.0

  abbrev pub Holds : ℕ → redis.Store → Lease → Type 0
  Holds now s lease = (t : ℕ) → now ≤ t → redis.read t document_id s ≡ holder lease t

  unfoldable pub StepHolds : ℕ → Request → redis.Store → Lease → Type 0
  StepHolds now request s lease =
      ((redis_step now request s).1 ≡ (lease_step ttl now request lease).1)
      × Holds now (redis_step now request s).0 (lease_step ttl now request lease).0

  pub step-Holds :
      (now : ℕ) (request : Request) (s : redis.Store) (lease : Lease)
      → Holds now s lease
      → StepHolds now request s lease
  unfolding StepHolds acquire_doc_index_lock release_doc_index_lock refresh_doc_index_lock
  step-Holds now (acquire task) s lease h = elim (Option-cases (holder lease now)) [
    | inl e ↦
        let r = redis.set_nx_free now document_id task ttl s (h now (omega arith) ∙ e) in
        rw e (ap (λ b. acquired (some b)) r.0, r.1)
    | inr (other, e) ↦
        rw (redis.set_nx_taken now document_id task ttl s other (h now (omega arith) ∙ e), e)
          (refl, h)
  ]
  step-Holds now (release task) s lease h =
      rw (h now (omega arith)) (elim (Bool-cases (is_value task (holder lease now))) [
        | inl e ↦ rw e (refl, λ t le. redis.read_del t document_id s)
        | inr e ↦ rw e (refl, h)
      ])
  step-Holds now (refresh task) s lease h =
      rw (h now (omega arith)) (elim (Bool-cases (is_value task (holder lease now))) [
        | inl e ↦ rw e (
          refl,
          redis.read_expire now document_id ttl s task
              (h now (omega arith) ∙ held_of_is_value task (holder lease now) e),
        )
        | inr e ↦ rw e (refl, h)
      ])

  later-Holds :
      (now wait : ℕ) (s : redis.Store) (lease : Lease)
      → Holds now s lease
      → Holds (now + wait) s lease
  later-Holds now wait s lease h t le = h t (omega arith)

  -- Whatever the workers ask for, in whatever order and at whatever times, the scripts on Redis give
  -- the answers of the lease, if the key holds the lease at the start.
  pub redis_run-lease :
      (requests : List (ℕ × Request)) (now : ℕ) (s : redis.Store) (lease : Lease)
      → Holds now s lease
      → redis_run now requests s ≡ lease_run now requests lease
  unfolding StepHolds
  redis_run-lease [] now s lease h = refl
  redis_run-lease ((wait, request) ∷ requests) now s lease h =
      let r = step-Holds (now + wait) request s lease (later-Holds now wait s lease h) in
      cc (r.0, redis_run-lease requests (now + wait) _ _ r.1)
