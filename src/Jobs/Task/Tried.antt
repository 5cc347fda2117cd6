-- ===== src/Jobs/Task/Tried.antt =====
-- How one run of the task ends, and when it asks for a retry.
use agentic_learning_platfor.Base.{
  ℕ, ◌≤◌, Text, ◌≡◌, refl, ap, sym, subst, Bool, true, false, Option, none, some, List, [], ◌∷◌,
  ◌++◌, take, arith, ltb, Bool-cases, inl, inr,
}
use agentic_learning_platfor.Jobs.Lock.Lease.{Request}
use agentic_learning_platfor.Jobs.Index.{
  Status, indexed, failed, Document, Failure, lock_busy, not_found, other, Outcome, raised,
  returned, answered, owned, Attempt, Messages, Job, Indexed,
}
use agentic_learning_platfor.Jobs.Index.Laws.{Ran, done, broken}
use agentic_learning_platfor.Jobs.Index.Missing.{IsNotFound}
use agentic_learning_platfor.Jobs.Task.{
  Verdict, indexed_result, failed_result, retry, raises, saved, update_failed_document,
  record_dead_document_task, handle,
}

-- The document, if there is one, stands at a status.
abbrev pub Stands : Status → Option Document → Type 0
Stands status none = Unit
Stands status (some d) = d.status ≡ status

-- The ends of the task, from the dead letters `dead`, where `last` is its last attempt, `attempt` its
-- number, `before` the document that is committed when it starts, and `outcome` what it comes to.
pub data Ended (max_retries user_id attempt : ℕ) (last : Attempt) (before : Option Document)
    (dead : List (ℕ × Text)) (outcome : Outcome Indexed) : Job × Verdict → Type 0 where
  is_indexed :
      (k : Job) (d : Document) (r : Indexed)
      → outcome ≡ returned r
      → k.committed ≡ some d
      → d.status ≡ indexed
      → d.pipeline_version ≡ some r.pipeline_version
      → k.dead ≡ dead
      → Ended max_retries user_id attempt last before dead outcome (k, indexed_result r)
  is_missing :
      (k : Job) (message : Text)
      → outcome ≡ raised (not_found message)
      → owned user_id before ≡ none
      → (last.saves ≡ true → Stands failed k.committed)
      → k.dead ≡ dead
      → Ended max_retries user_id attempt last before dead outcome (k, failed_result message)
  is_dead :
      (k : Job) (message : Text)
      → outcome ≡ raised (other message)
      → attempt ≡ max_retries
      → (last.saves ≡ true → Stands failed k.committed)
      → (last.side_channel ≡ true → k.dead ≡ dead ++ (attempt, take 1000 message) ∷ [])
      → Ended max_retries user_id attempt last before dead outcome (k, raises (other message))
  is_busy :
      (k : Job) (message : Text)
      → outcome ≡ raised (lock_busy message)
      → attempt ≡ max_retries
      → last.locking ≡ answered (some false)
      → k.dead ≡ dead
      → Ended max_retries user_id attempt last before dead outcome (k, raises (lock_busy message))

abbrev pub Final : Verdict → Type 0
Final (retry e countdown) = ⊥
Final (indexed_result r) = Unit
Final (failed_result message) = Unit
Final (raises e) = Unit

saved-Stands :
    (saves : Bool) (status : Status) (message : Text) (o : Option Document)
    → saves ≡ true
    → Stands status (saved saves status message o)
saved-Stands true status message none h = tt
saved-Stands true status message (some d) h = refl
saved-Stands false status message o h = absurd (ground arith)

-- One run of the task: it ends, or it asks for a retry, which it does after the last one only for a
-- busy lock.
pub data Tried (max_retries user_id attempt : ℕ) (a : Attempt) (before : Option Document)
    (dead : List (ℕ × Text)) (outcome : Outcome Indexed) : Job × Verdict → Type 0 where
  ends :
      (k : Job) (v : Verdict)
      → Final v
      → (attempt ≤ max_retries → Ended max_retries user_id attempt a before dead outcome (k, v))
      → Tried max_retries user_id attempt a before dead outcome (k, v)
  retries :
      (k : Job) (e : Failure) (countdown : ℕ)
      → k.dead ≡ dead
      → (attempt ≡ max_retries
          → Ended max_retries user_id attempt a before dead outcome (k, raises e))
      → Tried max_retries user_id attempt a before dead outcome (k, retry e countdown)

record_dead-one :
    (reached : Bool) (attempt : ℕ) (message : Text) (j : Job) (dead : List (ℕ × Text))
    → j.dead ≡ dead
    → reached ≡ true
    → (record_dead_document_task reached attempt message j).dead
      ≡ dead ++ (attempt, take 1000 message) ∷ []
record_dead-one true attempt message j dead h r = ap (λ l. l ++ (attempt, take 1000 message) ∷ []) h
record_dead-one false attempt message j dead h r = absurd (ground arith)

record_dead-committed :
    (reached : Bool) (attempt : ℕ) (message : Text) (j : Job)
    → (record_dead_document_task reached attempt message j).committed ≡ j.committed
record_dead-committed true attempt message j = refl
record_dead-committed false attempt message j = refl

module _ (m : Messages) (user_id max_retries : ℕ) where
  pub handle-Tried :
      (a : Attempt) (attempt : ℕ) (before : Option Document) (requests : List Request)
      (dead : List (ℕ × Text)) (q : Job × Outcome Indexed)
      → (IsNotFound q.1 → owned user_id before ≡ none)
      → Ran a.locking a before requests dead q
      → Tried max_retries user_id attempt a before dead q.1
          (handle m user_id max_retries a attempt q)
  unfolding handle update_failed_document
  handle-Tried a attempt before requests dead q f (done k d r g c s v h p e) =
      ends k (indexed_result r) tt (λ le. is_indexed k d r refl c s v e)
  handle-Tried a attempt before requests dead q f (broken k (lock_busy message) b c p e) =
      retries _ _ _ e (λ last. is_busy _ message refl last (b tt) e)
  handle-Tried a attempt before requests dead q f (broken k (not_found message) b c p e) =
      ends _ _ tt
        (λ le. is_missing _ message refl (f tt) (saved-Stands a.saves failed message k.committed) e)
  handle-Tried a attempt before requests dead q f (broken k (other message) b c p e) =
      elim (Bool-cases (ltb attempt max_retries)) [
        | inl lt ↦ rw lt (retries _ _ _ e (λ last. absurd (ground arith)))
        | inr ge ↦ rw ge (
            ends _ _ tt (λ le.
              is_dead _ message refl (ground arith)
                (λ saves.
                  subst (Stands failed)
                    (sym (record_dead-committed a.side_channel attempt message _))
                    (saved-Stands a.saves failed message k.committed saves))
                (record_dead-one a.side_channel attempt message _ dead e)))
      ]
