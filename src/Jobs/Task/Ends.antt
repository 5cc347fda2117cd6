-- ===== src/Jobs/Task/Ends.antt =====
-- How the task ends, after all its retries.
use agentic_learning_platfor.Base.{
  ℕ, zero, suc, ◌+◌, ◌≤◌, ◌<◌, ◌∙◌, String, Text, ◌≡◌, refl, ap, sym, subst, List, arith,
}
use agentic_learning_platfor.Jobs.Index.{
  Failure, Outcome, run_document_index, Attempt, Messages, Job, Indexed,
}
use agentic_learning_platfor.Jobs.Index.Laws.{run_document_index-Ran}
use agentic_learning_platfor.Jobs.Index.Missing.{run_document_index-missing}
use agentic_learning_platfor.Jobs.Task.{
  Verdict, indexed_result, failed_result, retry, raises, give_up, retried, index_document_task,
  deliver,
}
use agentic_learning_platfor.Jobs.Task.Tried.{Ended, Final, Tried, ends, retries, handle-Tried}

give_up-Final : (k : Job) (v : Verdict) → Final v → give_up (k, v) ≡ (k, v)
give_up-Final k (retry e countdown) f = absurd f
give_up-Final k (indexed_result r) f = refl
give_up-Final k (failed_result message) f = refl
give_up-Final k (raises e) f = refl

retried-Final :
    (next : Job → Job × Verdict) (k : Job) (v : Verdict) → Final v → retried next (k, v) ≡ (k, v)
retried-Final next k (retry e countdown) f = absurd f
retried-Final next k (indexed_result r) f = refl
retried-Final next k (failed_result message) f = refl
retried-Final next k (raises e) f = refl

module _ (m : Messages) (user_id max_retries : ℕ) (tries : ℕ → Attempt) (task_id : String) where
  abbrev pub task_of : ℕ → Job → Job × Verdict
  task_of n k = index_document_task m user_id max_retries (tries n) n task_id k

  abbrev pub outcome_of : ℕ → Job → Outcome Indexed
  outcome_of n k = (run_document_index m user_id (tries n) task_id k).1

  -- The attempts that are made from j on: the first one, and after each one that asks for a retry, while
  -- there is one left, the next one from where it stopped.
  pub data Reached (j : Job) : ℕ → Job → Type 0 where
    first : Reached j 0 j
    again :
        (n : ℕ) (k next : Job) (e : Failure) (countdown : ℕ)
        → n < max_retries
        → Reached j n k
        → task_of n k ≡ (next, retry e countdown)
        → Reached j (n + 1) next

  -- The task ends with what its last attempt comes to, the number of which is `max_retries` at most.
  pub record Ends (j : Job) (q : Job × Verdict) : Type 0 where
    pub last : ℕ
    pub start : Job
    pub bounded : last ≤ max_retries
    pub reached : Reached j last start
    pub is_result : q ≡ give_up (task_of last start)
    pub ended :
        Ended max_retries user_id last (tries last) start.committed j.dead (outcome_of last start) q

  abbrev TriedAt : ℕ → Job → List (ℕ × Text) → Job × Verdict → Type 0
  TriedAt n k dead q = Tried max_retries user_id n (tries n) k.committed dead (outcome_of n k) q

  give_up-Ends :
      (j k : Job) (attempt : ℕ) (q : Job × Verdict)
      → attempt ≡ max_retries
      → Reached j attempt k
      → task_of attempt k ≡ q
      → TriedAt attempt k j.dead q
      → Ends j (give_up q)
  give_up-Ends j k attempt q last reached same (ends k' v final end) = record {
    last = attempt;
    start = k;
    bounded = omega arith;
    reached = reached;
    is_result = ap give_up (sym same);
    ended = rw (give_up-Final k' v final) (end (omega arith));
  }
  give_up-Ends j k attempt q last reached same (retries k' e countdown letters end) = record {
    last = attempt;
    start = k;
    bounded = omega arith;
    reached = reached;
    is_result = ap give_up (sym same);
    ended = end last;
  }

  retried-Ends :
      (j k : Job) (attempt : ℕ) (next : Job → Job × Verdict) (q : Job × Verdict)
      → attempt < max_retries
      → Reached j attempt k
      → task_of attempt k ≡ q
      → ((k' : Job) → Reached j (attempt + 1) k' → k'.dead ≡ j.dead → Ends j (next k'))
      → TriedAt attempt k j.dead q
      → Ends j (retried next q)
  retried-Ends j k attempt next q lt reached same rest (ends k' v final end) = record {
    last = attempt;
    start = k;
    bounded = omega arith;
    reached = reached;
    is_result =
        retried-Final next k' v final ∙ sym (give_up-Final k' v final) ∙ ap give_up (sym same);
    ended = rw (retried-Final next k' v final) (end (omega arith));
  }
  retried-Ends j k attempt next q lt reached same rest (retries k' e countdown letters end) =
      rest k' (again attempt k k' e countdown lt reached same) letters

  task-TriedAt :
      (attempt : ℕ) (k : Job) (dead : List (ℕ × Text))
      → k.dead ≡ dead
      → TriedAt attempt k dead (task_of attempt k)
  unfolding index_document_task
  task-TriedAt attempt k dead same =
      subst (λ letters. TriedAt attempt k letters (task_of attempt k)) same
        (handle-Tried m user_id max_retries (tries attempt) attempt k.committed _ k.dead
          (run_document_index m user_id (tries attempt) task_id k)
          (run_document_index-missing m user_id (tries attempt) task_id k)
          (run_document_index-Ran m user_id (tries attempt) task_id k))

  deliver-Ends :
      (left attempt : ℕ) (j k : Job)
      → attempt + left ≡ max_retries
      → Reached j attempt k
      → k.dead ≡ j.dead
      → Ends j (deliver m user_id max_retries tries task_id left attempt k)
  unfolding deliver
  deliver-Ends zero attempt j k h reached same =
      give_up-Ends j k attempt (task_of attempt k) (omega arith) reached refl
        (task-TriedAt attempt k j.dead same)
  deliver-Ends (suc left) attempt j k h reached same =
      retried-Ends j k attempt _ (task_of attempt k) (omega arith) reached refl
        (λ k' r eq. deliver-Ends left (attempt + 1) j k' (omega arith) r eq)
        (task-TriedAt attempt k j.dead same)

  -- Whatever its attempts meet, the task with all its retries ends, with what its last attempt comes to,
  -- every attempt before which asked for a retry. The attempt returned, with the document committed as
  -- indexed at the version that it returned; or it found no document of the user, which is not retried
  -- and ends with a failed result; or it raised another exception and is the last retry, no earlier
  -- one. Such a task then has a dead letter, and the document is failed, where Redis and the database
  -- take them, unless the last attempt found the lock busy, which leaves no dead letter.
  pub index_document_task-Ended :
      (j : Job) → Ends j (deliver m user_id max_retries tries task_id max_retries 0 j)
  index_document_task-Ended j = deliver-Ends max_retries 0 j j (omega arith) first refl
