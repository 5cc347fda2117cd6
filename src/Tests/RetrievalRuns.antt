-- ===== src/Tests/RetrievalRuns.antt =====
-- Retrieval on concrete inputs: a sorted set that is an association list, and short runs.
use agentic_learning_platfor.Base.{
  ℕ, suc, ◌+◌, ◌≤◌, String, Text, codes, ◌≡◌, ◌≢◌, refl, false, none, some, List, [], ◌∷◌, ◌++◌,
  any, All, length, arith, leb, str_eq, eq_iff, if◌then◌else◌, inl, Assoc, get, put, remove,
  get-put, get-remove,
}
use agentic_learning_platfor.Chunker.Clean.{approx_token_len}
use agentic_learning_platfor.Retrieval.Parents.{
  Chunk, by_index, joined_with_budget, expanded, expand, with_chunk, chunk_at, lowest, highest,
  Search,
}
use agentic_learning_platfor.TokenBudget.{
  estimate, count_cjk, other_tokens, run_tokens, is_word, is_space,
}
use agentic_learning_platfor.Retrieval.Parents.Ends.{joined_with_budget-some}
use agentic_learning_platfor.Retrieval.Parents.Budget.{IsWithin, expanded-IsWithin}
use agentic_learning_platfor.Retrieval.Attach.{Found, rows_of, hits_of}
use agentic_learning_platfor.Retrieval.Attach.Laws.{rows_of-Names}
use agentic_learning_platfor.Retrieval.Slots.{SortedSets, Different, unless_up_to, try_acquire}
use agentic_learning_platfor.Retrieval.Slots.Limit.{
  Shared, acquire, here, next, acquire_step, live_tokens_limited,
}
use agentic_learning_platfor.Tests.{ascii}

live_after : ℕ → Assoc ℕ → Assoc ℕ
live_after now [] = []
live_after now ((token, end) ∷ s) =
    let rest = live_after now s in if leb end now then remove token rest else (token, end) ∷ rest

get-live_after :
    (now : ℕ) (m : String) (s : Assoc ℕ) → get m (live_after now s) ≡ unless_up_to now (get m s)
unfolding live_after get
get-live_after now m [] = refl
get-live_after now m ((token, end) ∷ s) =
    ground (arith, eq_iff token m, get-remove token m (live_after now s), get-live_after now m s)

length-remove_le : (m : String) (s : Assoc ℕ) → length (remove m s) ≤ length s
unfolding remove
length-remove_le m [] = omega arith
length-remove_le m ((token, end) ∷ s) = ground (arith, length-remove_le m s)

length-put_le : (m : String) (end : ℕ) (s : Assoc ℕ) → length (put m end s) ≤ length s + 1
unfolding put
length-put_le m end [] = omega arith
length-put_le m end ((token, e) ∷ s) = ground (arith, length-put_le m end s)

length-live_after : (now : ℕ) (s : Assoc ℕ) → length (live_after now s) ≤ length s
unfolding live_after
length-live_after now [] = omega arith
length-live_after now ((token, end) ∷ s) =
    ground (arith, length-live_after now s, length-remove_le token (live_after now s))

length-remove_lt :
    (m : String) (s : Assoc ℕ) → get m s ≢ none → suc (length (remove m s)) ≤ length s
unfolding remove get
length-remove_lt m [] h = absurd (h refl)
length-remove_lt m ((token, end) ∷ s) h =
    ground (arith, h, length-remove_le m s, length-remove_lt m s)

All-remove :
    (x : String) (ms : List String) (s : Assoc ℕ)
    → any (str_eq x) ms ≡ false
    → All (λ m. get m s ≢ none) ms
    → All (λ m. get m (remove x s) ≢ none) ms
All-remove x [] s h all = tt
All-remove x (m ∷ ms) s h (one, all) =
    (λ e. one (ground (arith, get-remove x m s, e)), All-remove x ms s (ground arith) all)

length-counts :
    (ms : List String) (s : Assoc ℕ)
    → Different ms
    → All (λ m. get m s ≢ none) ms
    → length ms ≤ length s
length-counts [] s d all = omega arith
length-counts (m ∷ ms) s (fresh, d) (one, all) =
    omega (
      arith,
      length-counts ms (remove m s) d (All-remove m ms s fresh all),
      length-remove_lt m s one,
    )

abbrev token_sets : SortedSets
token_sets = record {
  Store = Assoc ℕ;
  score = get;
  zcard = length;
  zremrangebyscore = live_after;
  zadd = λ end token s. put token end s;
  zrem = remove;
  score_zremrangebyscore = get-live_after;
  score_zadd = λ end m token s. get-put token m end s;
  score_zrem = λ m token s. get-remove token m s;
  zcard_zremrangebyscore = length-live_after;
  zcard_zadd = λ end token s. length-put_le token end s;
  zcard_zrem = length-remove_le;
  zcard_counts = length-counts;
}

abbrev idle : Shared (Assoc ℕ)
idle = record { now = 0; store = []; held = [] }

abbrev after_two : Shared (Assoc ℕ)
after_two = acquire_step token_sets 1 45000 "b" (acquire_step token_sets 1 45000 "a" idle)

-- With one slot the second worker gets none.
held_after_two : after_two.held ≡ ("a", 45000) ∷ []
unfolding try_acquire live_after put get
held_after_two = refl

live_tokens_limited_example : 1 ≤ 1
unfolding try_acquire live_after put get
live_tokens_limited_example =
    live_tokens_limited token_sets 1 45000 idle after_two ("a" ∷ []) refl refl
      (next (next here (acquire _ "a")) (acquire _ "b")) (refl, tt) ((45000, refl, omega arith), tt)

abbrev chunk : ℕ → String → Chunk
chunk index content = record { document_id = 5; chunk_index = index; content = codes content }

abbrev stored : List Chunk
stored = chunk 0 "intro" ∷ chunk 1 "body" ∷ chunk 2 "more" ∷ chunk 4 "end" ∷ []

joined_with_budget-some_example : (text : Text) × (joined_with_budget ascii 1 stored 3 ≡ some text)
joined_with_budget-some_example = joined_with_budget-some ascii 1 3 stored

-- The chunk to the left fits the budget of 3, the one to the right does not.
abbrev searched : Search
searched = record {
  leftward = 1;
  rightward = 0;
  take_left = false;
  selected = 1 ∷ 0 ∷ [];
  used = 3;
}

expanded-IsWithin_example : IsWithin ascii stored 1 3 searched
unfolding by_index expanded expand with_chunk chunk_at lowest highest approx_token_len estimate
    count_cjk other_tokens run_tokens is_word is_space
expanded-IsWithin_example = expanded-IsWithin ascii stored 1 3 (codes "body") searched refl refl

abbrev result_at : ℕ → Found
result_at index = record { document_id = some 5; chunk_index = some index; parent_content = none }

abbrev results : List Found
results = result_at 1 ∷ result_at 4 ∷ []

rows_of-Names_example :
    (b a : List Chunk) × (rows_of 1
        (hits_of results [])
        ((chunk 0 "intro" ∷ chunk 1 "body" ∷ []) ++ chunk 2 "more" ∷ chunk 4 "end" ∷ [])
      ≡ b ++ chunk 2 "more" ∷ a)
rows_of-Names_example =
    rows_of-Names 1 1 results (chunk 0 "intro" ∷ chunk 1 "body" ∷ []) (chunk 4 "end" ∷ [])
      (chunk 2 "more") (inl (refl, refl)) (omega arith) (omega arith)
