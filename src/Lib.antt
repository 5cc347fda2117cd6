-- ===== src/Lib.antt =====
-- The agentic learning platform: agents that answer questions and plan research with language
-- models, over documents that are cut into chunks and retrieved. Paths below are from the
-- repository's root.
--
-- Base -- names of the libraries, Boolean tests on numbers, lists, Python's dict as an
--   association list (Base/Dict), and text as code points (Base/Chars), where Python's Unicode
--   tables are a parameter.
-- Gateway -- backend/packages/harness/deerflow/llm_gateway.py. Gateway/Circuit has the circuit
--   breaker (_can_invoke, _report_success, _report_failure) and Circuit/Interleaving its use by
--   threads, each operation one step because of the lock; Gateway/Cache the cache of a process
--   over Redis (_cache_get, _cache_set); Gateway/Errors the reading of error messages;
--   Gateway/Invoke the walk along the chain of providers (invoke, _invoke_inner,
--   invoke_structured). The state is the record `Gateway`; clock, providers and Redis are the
--   record `World`, which is asked with the number of requests so far.
-- TokenBudget -- backend/app/services/token_budget.py. The tokenizer is a parameter. The loop of
--   truncate_tokens has the text's length as fuel, which is enough since each round takes a
--   character.
-- Chunker -- backend/app/rag/chunker.py. Chunker/Clean has the cleaning of text and markdown and
--   the sentences, Chunker/Windows _hard_split, Chunker/Pack the loop that fills chunks, which
--   chunk_text and _chunk_markdown_blocks share, Chunker/Sentences chunk_text, Chunker/Markdown
--   _split_oversized_markdown_block, Chunker/Blocks _chunk_markdown_blocks, Chunker/Sections
--   _split_markdown_sections. Sizes are natural numbers; a size of 0 is the ValueError. The loop
--   of _hard_split has the text's length as fuel: a window starts at least one character behind
--   the one before.
-- Tools -- tool_permissions.py, the registry of tools.py with its check of the arguments
--   (Tools/Arguments) and tool_manager.py, beside the gateway.
--   JSON values are Tools/Json; scores between 0 and 1 are whole numbers in a fixed unit. The
--   handlers and the hash are parameters, the store's completed calls an association list.
-- Runtime -- runtime.py, beside the gateway. Runtime/Policy has _enforce_policy, Runtime/Research
--   the calls and rounds of _research_agent, Runtime/Sources the source policy of
--   source_policy.py and what planner.py and the answer agent make of it, Research/Loop its loop,
--   whose fuel is the number of repairs that are left and one, Runtime/Graph the nodes, the
--   routes and the steps of the graph. The research loop calls the tools in an order that is the
--   one in which the results are used; the searches of the web that a thread pool runs ahead are
--   results that it is given.
-- Planner -- planner.py, beside the gateway: the supervisor's decision, its validation, the one that
--   is made without a model and the call whose exception leads to it. Planner/Terms has its words.
-- Jobs -- backend/app: Jobs/Lock has the lock of a document's index job in queue.py, whose scripts
--   run on Redis, a parameter with the documented laws of its commands; Lock/Lease states it as a
--   lease and Lock/Owners has the workers that rely on it. Jobs/Index is run_document_index of
--   services/document_index_service.py, whose heartbeat is the list of its refreshes' results, and
--   Jobs/Task the Celery task of tasks/document_index.py, whose fuel is the number of retries left.
-- Conversation -- backend/app/services/conversation_context.py. Conversation/Notes has what is taken
--   from the messages (Notes/Extract) and its text (Notes/Render); the matches of the regular
--   expressions are a parameter. Conversation/Context has the parts of the context, and
--   Context/Compaction build_conversation_context over the list of a conversation's messages.
-- Memory -- backend/app/memory/consolidator.py: Memory/Upsert has the merge of one memory into the
--   table, by the statement for PostgreSQL and by the session, which has autoflush off and keeps
--   what it adds until the flush, and Memory/Consolidator the merge of the events. The table and
--   the events are lists.
-- Retrieval -- backend/app/rag: Retrieval/Parents has the search for a chunk's neighbours in
--   parent_context.py, whose fuel is twice the number of indexes around the center and two more,
--   Retrieval/Attach the batched query and the contexts of all results, Retrieval/Slots the scripts
--   of distributed_limit.py on Redis, a parameter with laws.
-- Documents -- backend/app/services/document_quality.py: Documents/Specs and Documents/Keywords have
--   its tables, Documents/Quality the type and the fields of a text, Quality/Report the report. The
--   matches of the regular expressions are a parameter, and the score counts parts of 240, where the
--   source has floats.
-- Tests -- runs on concrete inputs.
--
-- Not modelled: what goes to the database, the event bus and the memory service; the models' own
-- answers, the embeddings and the conversion of files, which are inputs here; the HTTP interface
-- and the frontend; the plans of planner.py, the search and its grading, the loading of
-- memories and the skills, which nothing here needs but by their results.
pub mod Base
pub mod Gateway
pub mod TokenBudget
pub mod Chunker
pub mod Tools
pub mod Planner
pub mod Runtime
pub mod Tests
pub mod Jobs
pub mod Conversation
pub mod Memory
pub mod Retrieval
pub mod Documents
