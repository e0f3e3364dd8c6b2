-- ===== src/Lib.antt =====
-- poorguy-mem: a memory service whose engine keeps records resident under a byte limit, writes them
-- to a key-value store with an event log, finds them again through a retriever, and compacts them.
-- JSON-RPC calls reach the engine through HTTP routes and a dispatcher.
--
-- The parts and their files (paths from the root of the repository):
--
-- - Common and its children: lists, byte texts, association maps, 64-bit words, and the parameters
--   for floating point that all the other files use.
-- - Types: include/pgmem/types.h.
-- - Tokens, Tokens/Utf8: src/util/text.cpp (`Trim`, `ToLower`, `Tokenize`, `DecodeUtf8At`,
--   `EstimateTokenCount`). Tokens/Terms are the counts of terms that the engine and the retriever
--   make; Tokens/Utf8Canonical and Tokens/Runs hold the proofs.
-- - Json: src/util/json.cpp over Boost's property trees, which are an interface (`Ptree`). Json/Laws is
--   what their users rely on.
-- - Store: the interface of include/pgmem/store/store_adapter.h and the abstract content of a store;
--   Store/InMemory is src/store/in_memory_store_adapter.cpp, and its children hold the proofs.
-- - Embedding: src/core/hash_embedding_provider.cpp and the vector functions of
--   src/core/memory_engine.cpp. Metrics: src/core/metrics.cpp.
-- - Retriever: the interface of include/pgmem/core/retriever.h. Retriever/Vectors is
--   src/core/lsh_vector_index.cpp; Retriever/Index (`Index`, `Remove`, the estimates) and
--   Retriever/Scores and Retriever/Search (`Query`) are src/core/retriever.cpp; Retriever/Docs sees
--   the index as an abstract catalog, and Retriever/Counted, Retriever/Candidates and Retriever/Hits
--   hold the other proofs.
-- - Engine: src/core/memory_engine.cpp. Engine/Keys are the key builders and parsers, Engine/State
--   the state and small functions, Engine/Codec `SerializeRecord` and `DeserializeRecord`
--   (Engine/Codec/Fields and Engine/Codec/Metadata have the proofs),
--   Engine/Persist the entries of a batch, Engine/Memory the resident state and its eviction,
--   Engine/Write, Engine/Query, Engine/Pin, Engine/Compact, Engine/Warmup and Engine/Stats the
--   public operations, Engine/Gc the background thread. Engine/Accounting says what all of them
--   preserve, and Engine/Hybrid joins the engine with the hybrid retriever.
-- - Mcp: `Handle` and `Error` of src/mcp/mcp_dispatcher.cpp. Mcp/Inputs reads the parameters of a
--   call, Mcp/Handlers are the handlers and their results, Mcp/Describe the contract with its parts in
--   Mcp/Schema, Mcp/Examples and the files of the methods; Mcp/Branches and
--   Mcp/Replies hold the proofs.
-- - Net: the requests and responses of include/pgmem/net/http_common.h. Net/Server is
--   src/net/http_server.cpp and Net/Routes says which registration answers; Net/Parse is
--   src/net/http_common.cpp and Net/Framing says what a parse consumes.
-- - Programs/Args is `ParseArgs` of src/apps/pgmemd_main.cpp, Programs/Unit the unit file of
--   src/install/workspace_config.cpp. Summary is src/core/summary.cpp.
-- - Samples and Examples: an engine over the in-memory store, and each property at a concrete input;
--   Samples also has small trees that do what is asked of the JSON library.
--
-- State and operations. The engine is a record with the fields of `MemoryEngine`; an operation is a
-- function from the engine to its output and the next engine. The store, the retriever, the JSON
-- library, the floating-point units, the hash of the standard library and the clock are the fields
-- of `Env`. The dispatcher returns the response with the engine, and a route its response with the
-- state of the handlers. The clock is a sequence of readings and the engine counts them. An operation is one step:
-- the locks make each of its critical sections one, and two operations, or an operation and a
-- round of the background thread, are interleaved as wholes only. `std::unordered_map` is an association list, so where the order of an iteration shows
-- (which of two candidates of equal rank is evicted) the order of insertion stands for it.
-- `std::sort` is an insertion sort by the same comparator.
--
-- Bounds and fuel. Counters of 64 bits wrap where the source's do (`add64`, `sub64`, `mul64`); sizes
-- of strings in memory are plain numbers. `Tokenize` runs on as much fuel as the input has bytes and
-- each round moves on by one at least. The eviction loop runs on one round more than there are
-- records, and each round evicts one. Twenty digits hold any 64-bit number. The loop of a summary runs
-- on as much fuel as the text has bytes, and each round drops a line.
--
-- Not modelled: the moments at which the background thread wakes up; the durable backend
-- (src/store/eloqstore_adapter.cpp), which calls a third-party store; the start and the end of brpc's
-- server; in src/apps the start-up, the signals and the JSON-RPC envelope, which reads
-- JSON by RapidJSON; in src/install what the file system and systemd do. Of the exceptions, those are
-- modelled that `get_child`, the JSON reader and a handler of a route throw, and that of `write_json`
-- in `Write`, for a record whose metadata makes a tree with a text and children in one node. `Pin` and
-- a compaction write trees of records that `Write` has serialized before, or that were read from such a
-- text and have no dots in their keys; a store that another program has filled is not considered. All
-- other trees have fixed names for paths, and `write_json` returns.
pub mod Common
pub mod Tokens
pub mod Types
pub mod Store
pub mod Json
pub mod Embedding
pub mod Mcp
pub mod Metrics
pub mod Net
pub mod Retriever
pub mod Engine
pub mod Programs
pub mod Summary
pub mod Samples
pub mod Examples
