-- ===== src/Jobs/Index/Missing.antt =====
-- When an attempt finds no document: the errors of its stages are other ones.
use agentic_learning_platfor.Base.{
  ℕ, String, Text, ◌≡◌, ◌⊎◌, inl, inr, refl, true, false, Option, none, some, ◌++◌, Bool-cases,
  in_either_branch,
}
use agentic_learning_platfor.Jobs.Index.{
  Document, lock_busy, not_found, other, Outcome, raised, returned, Locking, answered, lock_error,
  Attempt, Messages, Job, Indexed, heartbeat, run_document_index, run_locked, settle,
  index_document, embed, finish, owned,
}

-- The attempt ends with DocumentIndexNotFound.
abbrev pub IsNotFound : Outcome Indexed → Type 0
IsNotFound (returned r) = ⊥
IsNotFound (raised (lock_busy e)) = ⊥
IsNotFound (raised (not_found e)) = Unit
IsNotFound (raised (other e)) = ⊥

module _ (m : Messages) (user_id : ℕ) (a : Attempt) where
  finish-IsFound :
      (d : Document) (chunks : ℕ) (o : Text ⊎ ℕ) (j : Job)
      → IsNotFound (finish m user_id a d chunks o j).1
      → ⊥
  unfolding finish
  finish-IsFound d chunks (inl e) j h = h
  finish-IsFound d chunks (inr n) j h =
      elim (Bool-cases (heartbeat (a.beats_parsing ++ a.beats_embedding))) [
        | inl e ↦ rw e at h
        | inr e ↦ rw e at h
      ]

  embed-IsFound :
      (d : Document) (o : Text ⊎ ℕ) (j : Job) → IsNotFound (embed m user_id a d o j).1 → ⊥
  unfolding embed
  embed-IsFound d (inl e) j h = h
  embed-IsFound d (inr chunks) j h = elim (Bool-cases (heartbeat a.beats_parsing)) [
    | inl e ↦ rw e at h
    | inr e ↦ finish-IsFound _ chunks (a.embeddings chunks) _ (rw e at h)
  ]

  index_document-missing :
      (found : Option Document) (j : Job)
      → IsNotFound (index_document m user_id a found j).1
      → found ≡ none
  unfolding index_document
  index_document-missing none j h = refl
  index_document-missing (some document) j h = absurd (
      in_either_branch (λ (q : Job × Outcome Indexed). IsNotFound q.1 → ⊥)
        (λ f. embed-IsFound _ _ _ f) (λ f. f) a.file_exists h)

  settle-IsNotFound :
      (q : Job × Outcome Indexed) → IsNotFound (settle m user_id q).1 → IsNotFound q.1
  unfolding settle
  settle-IsNotFound (j, raised e) h = h
  settle-IsNotFound (j, returned r) h = h

  run_locked-missing :
      (task_id : String) (l : Locking) (j : Job)
      → IsNotFound (run_locked m user_id a task_id l j).1
      → owned user_id j.working ≡ none
  unfolding run_locked
  run_locked-missing task_id (lock_error e) j h = absurd h
  run_locked-missing task_id (answered none) j h = absurd h
  run_locked-missing task_id (answered (some false)) j h = absurd h
  run_locked-missing task_id (answered (some true)) j h =
      index_document-missing (owned user_id j.working) j (settle-IsNotFound _ h)

  -- An attempt that ends with DocumentIndexNotFound found no committed document of the user.
  pub run_document_index-missing :
      (task_id : String) (j : Job)
      → IsNotFound (run_document_index m user_id a task_id j).1
      → owned user_id j.committed ≡ none
  unfolding run_document_index
  run_document_index-missing task_id j h = run_locked-missing task_id a.locking _ h
