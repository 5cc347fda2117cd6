-- ===== src/Jobs/Index.antt =====
-- One attempt at the index of a document (services/document_index_service.py, `run_document_index`).
-- The session holds the committed document and the one that is being worked on. What other parts
-- come to is given by the record `Attempt`: Redis, the heartbeat's refreshes, files, chunks,
-- embeddings. The requests on the lock and the stages of the progress are kept in order.
pub mod Laws
pub mod Missing
use agentic_learning_platfor.Base.{
  ℕ, ◌-◌, ◌≤◌, min, max, ◌⊎◌, inl, inr, String, Text, Bool, true, false, ◌&&◌, Option, none, some,
  List, [], ◌∷◌, ◌++◌, if◌then◌else◌, ◌==◌,
}
use agentic_learning_platfor.Jobs.Lock.Lease.{Request, acquire, release}

pub data Status : Type 0 where
  uploaded : Status
  indexing : Status
  indexed : Status
  failed : Status

-- The columns that the job reads and writes.
pub record Document : Type 0 where
  pub user_id : ℕ
  pub kb_id : Option ℕ
  pub status : Status
  pub error_message : Option Text
  pub source_retained : Bool
  pub pipeline_version : Option String
  pub quality : Option ℕ

pub data Failure : Type 0 where
  lock_busy : Text → Failure
  not_found : Text → Failure
  other : Text → Failure

pub data Outcome {ℓ} (A : Type ℓ) : Type ℓ where
  raised : Failure → Outcome A
  returned : A → Outcome A

-- int(…) of a value of the configuration; a whole number below 0 is `negative`, a value that is no
-- number is `invalid`, and `missing` is the default of `config.get`.
pub data Setting : Type 0 where
  missing : Setting
  whole : ℕ → Setting
  negative : Setting
  invalid : Setting

pub record ChunkConfig : Type 0 where
  pub chunk_size : Setting
  pub chunk_overlap : Setting

abbrev pub chunk_tokens : ℕ
chunk_tokens = 420

abbrev pub overlap_tokens : ℕ
overlap_tokens = 60

-- max(low, min(high, int(…)))
abbrev pub clamped : ℕ → ℕ → ℕ → Setting → Option ℕ
clamped low high default missing = some (max low (min high default))
clamped low high default (whole n) = some (max low (min high n))
clamped low high default negative = some low
clamped low high default invalid = none

abbrev pub overlap_of_size : ℕ → Option ℕ → ℕ × ℕ
overlap_of_size size none = (size, overlap_tokens)
overlap_of_size size (some overlap) = (size, overlap)

abbrev pub sizes_of_config : ChunkConfig → Option ℕ → ℕ × ℕ
sizes_of_config config none = (chunk_tokens, overlap_tokens)
sizes_of_config config (some size) =
    overlap_of_size size (clamped 0 (size - 1) overlap_tokens config.chunk_overlap)

-- The sizes that the knowledge base of the document asks for; none where the document has no
-- knowledge base, or its configuration is empty or no JSON.
unfoldable pub sizes : Option ChunkConfig → ℕ × ℕ
sizes none = (chunk_tokens, overlap_tokens)
sizes (some config) = sizes_of_config config (clamped 100 2000 chunk_tokens config.chunk_size)

-- What acquire_doc_index_lock comes to.
pub data Locking : Type 0 where
  answered : Option Bool → Locking
  lock_error : Text → Locking

pub record Attempt : Type 0 where
  pub locking : Locking
  -- The results of the heartbeat's refreshes, none for an exception: while the document is parsed,
  -- and from then on until the embeddings are there.
  pub beats_parsing : List (Option Bool)
  pub beats_embedding : List (Option Bool)
  pub file_exists : Bool
  pub config : Option ChunkConfig
  pub config_hash : ℕ × ℕ → String
  pub chunks : ℕ × ℕ → Text ⊎ ℕ
  pub quality : ℕ
  pub embeddings : ℕ → Text ⊎ ℕ
  -- Whether Redis takes what is written at the side.
  pub side_channel : Bool
  -- Whether the database takes the status of a failed attempt.
  pub saves : Bool

-- The messages of the exceptions, which hold the document's id or its path.
pub record Messages : Type 0 where
  pub unavailable : Text
  pub locked : Text
  pub missing_document : Text
  pub missing_file : Text
  pub lost : Text

-- doc_progress:{document_id}, and a dead letter.
pub data Progress : Type 0 where
  stage : String → Progress
  stage_with_error : String → Text → ℕ → Progress

pub record Job : Type 0 where
  pub committed : Option Document
  pub working : Option Document
  pub progress : List Progress
  pub requests : List Request
  pub dead : List (ℕ × Text)

pub record Indexed : Type 0 where
  pub chunks : ℕ
  pub embeddings : ℕ
  pub pipeline_version : String

abbrev pub noted : Bool → Progress → List Progress → List Progress
noted false entry progress = progress
noted true entry progress = progress ++ entry ∷ []

abbrev pub store_doc_index_progress : Bool → Progress → Job → Job
store_doc_index_progress reached entry j = record j { progress = noted reached entry j.progress }

abbrev pub commit : Job → Job
commit j = record j { committed = j.working }

abbrev pub rollback : Job → Job
rollback j = record j { working = j.committed }

abbrev pub write : Document → Job → Job
write d j = record j { working = some d }

-- heartbeat(): whether it sets lock_lost.
unfoldable pub heartbeat : List (Option Bool) → Bool
heartbeat [] = false
heartbeat (some true ∷ beats) = heartbeat beats
heartbeat (some false ∷ beats) = true
heartbeat (none ∷ beats) = true

abbrev pub owned : ℕ → Option Document → Option Document
owned user_id none = none
owned user_id (some d) = if d.user_id == user_id then some d else none

module _ (m : Messages) (user_id : ℕ) where
  -- From the second ensure_lock() on.
  unfoldable pub finish : Attempt → Document → ℕ → Text ⊎ ℕ → Job → Job × Outcome Indexed
  finish a d chunks (inl e) j = (j, raised (other e))
  finish a d chunks (inr embeddings) j =
      let hash = a.config_hash (sizes a.config) in
      let saved = commit (
        write
          (record d {
            status = indexed;
            source_retained = true;
            error_message = none;
            pipeline_version = some hash;
          })
          j) in
      if heartbeat (a.beats_parsing ++ a.beats_embedding) then (j, raised (other m.lost)) else (
        store_doc_index_progress a.side_channel (stage "indexed") saved,
        returned (record { chunks = chunks; embeddings = embeddings; pipeline_version = hash }),
      )

  -- From the first ensure_lock() on.
  unfoldable pub embed : Attempt → Document → Text ⊎ ℕ → Job → Job × Outcome Indexed
  embed a d (inl e) j = (j, raised (other e))
  embed a d (inr chunks) j =
      let checked = record d { quality = some a.quality } in
      let rest =
        finish a checked chunks (a.embeddings chunks) (
          store_doc_index_progress a.side_channel (stage "embedding") (commit (write checked j))) in
      if heartbeat a.beats_parsing then (j, raised (other m.lost)) else rest

  unfoldable pub index_document : Attempt → Option Document → Job → Job × Outcome Indexed
  index_document a none j = (j, raised (not_found m.missing_document))
  index_document a (some document) j =
      let d = record document { status = indexing; error_message = none } in
      let started =
        store_doc_index_progress a.side_channel (stage "indexing") (commit (write d j)) in
      if a.file_exists
      then embed a d (a.chunks (sizes a.config))
          (store_doc_index_progress a.side_channel (stage "parsing") started)
      else (started, raised (other m.missing_file))

  -- `except Exception: db.rollback()`
  unfoldable pub settle : Job × Outcome Indexed → Job × Outcome Indexed
  settle (j, raised e) = (rollback j, raised e)
  settle (j, returned r) = (j, returned r)

  unfoldable pub run_locked : Attempt → String → Locking → Job → Job × Outcome Indexed
  run_locked a task_id (lock_error e) j = (j, raised (other e))
  run_locked a task_id (answered none) j = (j, raised (other m.unavailable))
  run_locked a task_id (answered (some false)) j = (j, raised (lock_busy m.locked))
  run_locked a task_id (answered (some true)) j =
      let r = settle (index_document a (owned user_id j.working) j) in
      (record r.0 { requests = r.0.requests ++ release task_id ∷ [] }, r.1)

  -- A new session starts from what is committed.
  unfoldable pub run_document_index : Attempt → String → Job → Job × Outcome Indexed
  run_document_index a task_id j =
      run_locked a task_id a.locking
        (record j { working = j.committed; requests = j.requests ++ acquire task_id ∷ [] })
