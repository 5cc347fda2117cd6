-- ===== src/Jobs/Task.antt =====
-- The Celery task (tasks/document_index.py, `index_document_task`) and its retries. Celery runs the
-- task again for `self.retry` while `retries` is below `max_retries`, and raises the exception that
-- it was given from then on.
pub mod Tried
pub mod Ends
use agentic_learning_platfor.Base.{
  ℕ, zero, suc, ◌+◌, ◌^◌, min, max, String, Text, Bool, true, false, Option, none, some, [], ◌∷◌,
  ◌++◌, take, ltb, if◌then◌else◌,
}
use agentic_learning_platfor.Jobs.Index.{
  Status, uploaded, failed, Document, Failure, lock_busy, not_found, other, Outcome, raised,
  returned, Attempt, Messages, Progress, stage_with_error, Job, Indexed, run_document_index,
  store_doc_index_progress,
}

pub data Verdict : Type 0 where
  indexed_result : Indexed → Verdict
  failed_result : Text → Verdict
  retry : Failure → ℕ → Verdict
  raises : Failure → Verdict

abbrev pub with_status : Status → Text → Option Document → Option Document
with_status status message none = none
with_status status message (some d) =
    some (record d { status = status; error_message = some (take 2000 message) })

abbrev pub saved : Bool → Status → Text → Option Document → Option Document
saved false status message document = document
saved true status message document = with_status status message document

unfoldable pub update_failed_document : Bool → Status → Text → Job → Job
update_failed_document saves status message j = record j {
  committed = saved saves status message j.committed;
}

abbrev pub record_dead_document_task : Bool → ℕ → Text → Job → Job
record_dead_document_task false attempt message j = j
record_dead_document_task true attempt message j = record j {
  dead = j.dead ++ (attempt, take 1000 message) ∷ [];
}

-- What Celery does with a retry when there is none left, and when there is.
abbrev pub give_up : Job × Verdict → Job × Verdict
give_up (j, retry e countdown) = (j, raises e)
give_up (j, indexed_result r) = (j, indexed_result r)
give_up (j, failed_result message) = (j, failed_result message)
give_up (j, raises e) = (j, raises e)

abbrev pub retried : (Job → Job × Verdict) → Job × Verdict → Job × Verdict
retried next (j, retry e countdown) = next j
retried next (j, indexed_result r) = (j, indexed_result r)
retried next (j, failed_result message) = (j, failed_result message)
retried next (j, raises e) = (j, raises e)

-- The message of an entry is cut to 1000 characters.
abbrev pub error_stage : String → Text → ℕ → Progress
error_stage name message attempt = stage_with_error name (take 1000 message) attempt

module _ (m : Messages) (user_id max_retries : ℕ) where
  unfoldable pub handle : Attempt → ℕ → Job × Outcome Indexed → Job × Verdict
  unfolding update_failed_document
  handle a attempt (j, returned r) = (j, indexed_result r)
  handle a attempt (j, raised (lock_busy message)) = (
    store_doc_index_progress a.side_channel (error_stage "waiting_lock" message (attempt + 1)) j,
    retry (lock_busy message) (min 60 (max 5 (2 ^ attempt))),
  )
  handle a attempt (j, raised (not_found message)) = (
    store_doc_index_progress a.side_channel (error_stage "failed" message attempt)
        (update_failed_document a.saves failed message j),
    failed_result message,
  )
  handle a attempt (j, raised (other message)) =
      if ltb attempt max_retries
      then (
        store_doc_index_progress a.side_channel (error_stage "retrying" message (attempt + 1))
            (update_failed_document a.saves uploaded message j),
        retry (other message) (min 60 (2 ^ attempt)),
      )
      else (
        store_doc_index_progress a.side_channel (error_stage "failed" message attempt) (
            record_dead_document_task a.side_channel attempt message
              (update_failed_document a.saves failed message j)),
        raises (other message),
      )

  unfoldable pub index_document_task : Attempt → ℕ → String → Job → Job × Verdict
  unfolding handle
  index_document_task a attempt task_id j =
      handle a attempt (run_document_index m user_id a task_id j)

  -- The task from its retry `attempt` on, with `left` retries left; what the retries meet is `tries`.
  module _ (tries : ℕ → Attempt) (task_id : String) where
    unfoldable pub deliver : ℕ → ℕ → Job → Job × Verdict
    deliver zero attempt j = give_up (index_document_task (tries attempt) attempt task_id j)
    deliver (suc left) attempt j =
        retried (λ k. deliver left (attempt + 1) k)
          (index_document_task (tries attempt) attempt task_id j)
