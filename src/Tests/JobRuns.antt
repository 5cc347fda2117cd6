-- ===== src/Tests/JobRuns.antt =====
-- The index jobs on concrete inputs: a Redis that is a function of the key, and short runs.
use agentic_learning_platfor.Base.{
  ℕ, zero, suc, ◌+◌, String, codes, ◌≡◌, refl, Bool, true, false, Option, none, some, List, [], ◌∷◌,
  inr, arith, ◌==◌, if◌then◌else◌, get, put,
}
use agentic_learning_platfor.Jobs.Lock.{
  Redis, until, acquire_doc_index_lock, release_doc_index_lock, refresh_doc_index_lock,
}
use agentic_learning_platfor.Jobs.Lock.Lease.{
  Request, acquire, release, refresh, Answer, acquired, released, refreshed, redis_run, lease_run,
  redis_run-lease,
}
use agentic_learning_platfor.Jobs.Lock.Owners.{System, request, here, next, ask, one_owner}
use agentic_learning_platfor.Jobs.Index.{
  uploaded, Document, Locking, answered, Attempt, Messages, Job, run_document_index,
}
use agentic_learning_platfor.Jobs.Index.Laws.{Ran, run_document_index-Ran}
use agentic_learning_platfor.Jobs.Task.{deliver}
use agentic_learning_platfor.Jobs.Task.Ends.{Ends, index_document_task-Ended}

abbrev Entries : Type 0
Entries = ℕ → Option (String × ℕ)

abbrev live : ℕ → Option (String × ℕ) → Option String
live t none = none
live t (some (value, end)) = until end value t

abbrev set_entry : ℕ → Option (String × ℕ) → Entries → Entries
set_entry key entry s j = if j == key then entry else s j

abbrev set_if_free : ℕ → ℕ → String → ℕ → Entries → Option String → Entries × Bool
set_if_free now key value ttl s none = (set_entry key (some (value, now + ttl)) s, true)
set_if_free now key value ttl s (some other) = (s, false)

set_entry_self :
    (key : ℕ) (entry : Option (String × ℕ)) (s : Entries) → set_entry key entry s key ≡ entry
set_entry_self key entry s = ground arith

abbrev entries : Redis
entries = record {
  Store = Entries;
  read = λ t key s. live t (s key);
  set_nx = λ now key value ttl s. set_if_free now key value ttl s (live now (s key));
  del = λ key s. set_entry key none s;
  expire = λ now key ttl s.
      set_entry key (elim (live now (s key)) [ none ↦ none | some value ↦ some (value, now + ttl) ])
        s;
  set_nx_free = λ now key value ttl s free.
      rw free (refl, λ t le. rw (set_entry_self key (some (value, now + ttl)) s) refl);
  set_nx_taken = λ now key value ttl s other held. rw held refl;
  read_del = λ t key s. rw (set_entry_self key none s) refl;
  read_expire = λ now key ttl s value held t le.
      rw (held, set_entry_self key (some (value, now + ttl)) s) refl;
}

abbrev requests : List (ℕ × Request)
requests =
    (1, acquire "a")
    ∷ (10, acquire "b")
    ∷ (40, refresh "a")
    ∷ (60, acquire "b")
    ∷ (300, acquire "b")
    ∷ (1, release "a")
    ∷ (1, refresh "b")
    ∷ []

abbrev answers : List Answer
answers =
    acquired (some true)
    ∷ acquired (some false)
    ∷ refreshed true
    ∷ acquired (some false)
    ∷ acquired (some true)
    ∷ released
    ∷ refreshed true
    ∷ []

abbrev nobody : Entries
nobody key = none

answers_of_requests : redis_run entries 300 7 0 requests nobody ≡ answers
unfolding acquire_doc_index_lock release_doc_index_lock refresh_doc_index_lock
answers_of_requests = refl

redis_run-lease_example :
    redis_run entries 300 7 0 requests nobody ≡ lease_run entries 300 7 0 requests none
redis_run-lease_example = redis_run-lease entries 300 7 requests 0 nobody none (λ t le. refl)

abbrev nobody_yet : System Entries
nobody_yet = record { now = 5; store = nobody; held = [] }

abbrev taken : System Entries
taken = ask entries 300 7 (refresh "a") (ask entries 300 7 (acquire "a") nobody_yet)

abbrev owner : String
owner = "a"

one_owner_example : owner ≡ owner
unfolding acquire_doc_index_lock refresh_doc_index_lock get put
one_owner_example =
    one_owner entries 300 7 nobody_yet taken owner owner 305 305 refl (λ t le. refl)
      (next (next here (request _ (acquire "a"))) (request _ (refresh "a"))) refl (omega arith) refl
      (omega arith)

abbrev messages : Messages
messages = record {
  unavailable = codes "Redis";
  locked = codes "locked";
  missing_document = codes "missing";
  missing_file = codes "file";
  lost = codes "lost";
}

abbrev attempt_with : Locking → List (Option Bool) → Attempt
attempt_with locking beats = record {
  locking = locking;
  beats_parsing = beats;
  beats_embedding = [];
  file_exists = true;
  config = none;
  config_hash = λ sizes. "v1";
  chunks = λ sizes. inr 4;
  quality = 80;
  embeddings = λ n. inr n;
  side_channel = true;
  saves = true;
}

abbrev document : Document
document = record {
  user_id = 3;
  kb_id = none;
  status = uploaded;
  error_message = none;
  source_retained = false;
  pipeline_version = none;
  quality = none;
}

abbrev job : Job
job = record { committed = some document; working = none; progress = []; requests = []; dead = [] }

abbrev granted : Attempt
granted = attempt_with (answered (some true)) (some true ∷ [])

run_document_index-Ran_example :
    Ran
      (answered (some true))
      granted
      (some document)
      (acquire "t" ∷ release "t" ∷ [])
      []
      (run_document_index messages 3 granted "t" job)
run_document_index-Ran_example = run_document_index-Ran messages 3 granted "t" job

-- The lock is busy at the first attempt and lost at the second, which the last one is not.
abbrev tries : ℕ → Attempt
tries zero = attempt_with (answered (some false)) []
tries (suc zero) = attempt_with (answered (some true)) (some false ∷ [])
tries (suc (suc n)) = granted

index_document_task-Ended_example :
    Ends messages 3 2 tries "t" job (deliver messages 3 2 tries "t" 2 0 job)
index_document_task-Ended_example = index_document_task-Ended messages 3 2 tries "t" job
