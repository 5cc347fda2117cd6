-- ===== src/Jobs/Index/Laws.antt =====
-- What an attempt leaves behind: of the document, of the lock, and of the sizes of its chunks.
use agentic_learning_platfor.Base.{
  ℕ, ◌≤◌, ◌<◌, String, Text, ◌≡◌, ◌⊎◌, inl, inr, refl, ap, sym, append_assoc, true, false, Option,
  none, some, List, [], ◌∷◌, ◌++◌, arith, Bool-cases, in_either_branch,
}
use agentic_learning_platfor.Jobs.Lock.Lease.{Request, acquire, release}
use agentic_learning_platfor.Jobs.Index.{
  indexed, indexing, Document, Failure, lock_busy, not_found, other, Outcome, raised, returned,
  ChunkConfig, sizes, Locking, answered, lock_error, Attempt, Messages, Job, Indexed, heartbeat,
  run_document_index, run_locked, settle, index_document, embed, finish, owned,
}

-- Whatever a knowledge base is configured with, a chunk has from 100 to 2000 tokens, and the overlap
-- is smaller than the chunk.
pub sizes_bounded :
    (config : Option ChunkConfig)
    → (100 ≤ (sizes config).0) × ((sizes config).0 ≤ 2000) × ((sizes config).1 < (sizes config).0)
unfolding sizes
sizes_bounded none = (omega arith, omega arith, omega arith)
sizes_bounded (some config) = ground arith

abbrev pub IsBusy : Failure → Type 0
IsBusy (lock_busy e) = Unit
IsBusy (not_found e) = ⊥
IsBusy (other e) = ⊥

-- An attempt from the committed document `before`. One that returns has committed
-- the document as indexed with the version that it returns, and the lock was renewed each time; one
-- that raises has committed nothing, or the document as one that is being indexed, and works on
-- nothing else. It is only the lock that is busy.
pub data Ran (l : Locking) (a : Attempt) (before : Option Document) (requests : List Request)
    (dead : List (ℕ × Text)) : Job × Outcome Indexed → Type 0 where
  done :
      (k : Job) (d : Document) (r : Indexed)
      → l ≡ answered (some true)
      → k.committed ≡ some d
      → d.status ≡ indexed
      → d.pipeline_version ≡ some r.pipeline_version
      → heartbeat (a.beats_parsing ++ a.beats_embedding) ≡ false
      → k.requests ≡ requests
      → k.dead ≡ dead
      → Ran l a before requests dead (k, returned r)
  broken :
      (k : Job) (e : Failure)
      → (IsBusy e → l ≡ answered (some false))
      → (k.committed ≡ before) ⊎ ((d : Document) × (k.committed ≡ some d) × (d.status ≡ indexing))
      → k.requests ≡ requests
      → k.dead ≡ dead
      → Ran l a before requests dead (k, raised e)

-- The document is committed as one that is being indexed.
record IsOpen (requests : List Request) (dead : List (ℕ × Text)) (d : Document) (j : Job)
    : Type 0 where
  committed : j.committed ≡ some d
  is_indexing : d.status ≡ indexing
  same_requests : j.requests ≡ requests
  same_dead : j.dead ≡ dead

module _ (m : Messages) (user_id : ℕ) (l : Locking) (a : Attempt) (before : Option Document)
    (locked : l ≡ answered (some true)) (requests : List Request) (dead : List (ℕ × Text)) where
  broken_open :
      (d : Document) (j : Job) (e : Text)
      → IsOpen requests dead d j
      → Ran l a before requests dead (j, raised (other e))
  broken_open d j e o =
      broken j _ (λ b. absurd b) (inr (d, o.committed, o.is_indexing)) o.same_requests o.same_dead

  finish-Ran :
      (d : Document) (chunks : ℕ) (o : Text ⊎ ℕ) (j : Job)
      → IsOpen requests dead d j
      → Ran l a before requests dead (finish m user_id a d chunks o j)
  unfolding finish
  finish-Ran d chunks (inl e) j o = broken_open d j e o
  finish-Ran d chunks (inr n) j o =
      elim (Bool-cases (heartbeat (a.beats_parsing ++ a.beats_embedding))) [
        | inl e ↦ rw e (broken_open d j _ o)
        | inr e ↦ rw e (done _ _ _ locked refl refl refl e o.same_requests o.same_dead)
      ]

  embed-Ran :
      (d : Document) (o : Text ⊎ ℕ) (j : Job)
      → IsOpen requests dead d j
      → Ran l a before requests dead (embed m user_id a d o j)
  unfolding embed
  embed-Ran d (inl e) j o = broken_open d j e o
  embed-Ran d (inr chunks) j o = elim (Bool-cases (heartbeat a.beats_parsing)) [
    | inl e ↦ rw e (broken_open d j _ o)
    | inr e ↦ rw e (
        finish-Ran _ chunks (a.embeddings chunks) _ (record {
          committed = refl;
          is_indexing = o.is_indexing;
          same_requests = o.same_requests;
          same_dead = o.same_dead;
        }))
  ]

  index_document-Ran :
      (found : Option Document) (j : Job)
      → j.committed ≡ before
      → j.requests ≡ requests
      → j.dead ≡ dead
      → Ran l a before requests dead (index_document m user_id a found j)
  unfolding index_document
  index_document-Ran none j c r q = broken j _ (λ b. absurd b) (inl c) r q
  index_document-Ran (some document) j c r q =
      in_either_branch (Ran l a before requests dead)
        (embed-Ran _ _ _
          (record { committed = refl; is_indexing = refl; same_requests = r; same_dead = q }))
        (broken _ _ (λ b. absurd b) (inr (_, refl, refl)) r q) a.file_exists

  settle-Ran :
      (q : Job × Outcome Indexed)
      → Ran l a before requests dead q
      → Ran l a before requests dead (settle m user_id q)
  unfolding settle
  settle-Ran q (done k d r g c s v h p e) = done k d r g c s v h p e
  settle-Ran q (broken k f b c p e) = broken _ f b c p e

-- The requests of an attempt on the lock.
abbrev pub requests_of : String → Locking → List Request
requests_of task_id (lock_error e) = acquire task_id ∷ []
requests_of task_id (answered none) = acquire task_id ∷ []
requests_of task_id (answered (some false)) = acquire task_id ∷ []
requests_of task_id (answered (some true)) = acquire task_id ∷ release task_id ∷ []

release-Ran :
    (l : Locking) (a : Attempt) (before : Option Document) (requests : List Request)
    (dead : List (ℕ × Text)) (request : Request) (q : Job × Outcome Indexed)
    → Ran l a before requests dead q
    → Ran l a before
        (requests ++ request ∷ [])
        dead
        (record q.0 { requests = q.0.requests ++ request ∷ [] }, q.1)
release-Ran l a before requests dead request q (done k d r g c s v h p e) =
    done _ d r g c s v h (ap (λ rs. rs ++ request ∷ []) p) e
release-Ran l a before requests dead request q (broken k f b c p e) =
    broken _ f b c (ap (λ rs. rs ++ request ∷ []) p) e

run_locked-Ran :
    (m : Messages) (user_id : ℕ) (a : Attempt) (task_id : String) (l : Locking) (j : Job)
    → Ran l a j.committed (j.requests ++ requests_of task_id l) j.dead (
        run_locked m user_id a task_id l
          (record j { working = j.committed; requests = j.requests ++ acquire task_id ∷ [] }))
unfolding run_locked
run_locked-Ran m user_id a task_id (lock_error e) j =
    broken _ _ (λ b. absurd b) (inl refl) refl refl
run_locked-Ran m user_id a task_id (answered none) j =
    broken _ _ (λ b. absurd b) (inl refl) refl refl
run_locked-Ran m user_id a task_id (answered (some false)) j =
    broken _ _ (λ b. refl) (inl refl) refl refl
run_locked-Ran m user_id a task_id (answered (some true)) j =
    rw (sym (append_assoc j.requests (acquire task_id ∷ []) (release task_id ∷ []))) (
      release-Ran _ a j.committed _ j.dead (release task_id) _ (
        settle-Ran m user_id _ a j.committed refl _ j.dead _ (
          index_document-Ran m user_id _ a j.committed refl _ j.dead (owned user_id j.committed) _
            refl refl refl)))

-- Whatever an attempt meets, it asks for the lock once and gives it back once if it was granted, it
-- records no dead letter, and it leaves the document as `Ran` says.
pub run_document_index-Ran :
    (m : Messages) (user_id : ℕ) (a : Attempt) (task_id : String) (j : Job)
    → Ran a.locking a j.committed
        (j.requests ++ requests_of task_id a.locking)
        j.dead
        (run_document_index m user_id a task_id j)
unfolding run_document_index
run_document_index-Ran m user_id a task_id j = run_locked-Ran m user_id a task_id a.locking j
