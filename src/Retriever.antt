-- ===== src/Retriever.antt =====
-- include/pgmem/core/retriever.h: the interface of the retrievers, as a record of operations on a
-- state. A query reads the clock once, and measures its phases.
pub mod Vectors
pub mod Index
pub mod Scores
pub mod Search
pub mod Docs
pub mod Counted
pub mod Candidates
pub mod Hits
use poorguy_mem.Common.{ℕ, Text, Double}
use poorguy_mem.Types.{MemoryRecord, QueryInput, QueryOutput}

-- What a query takes from the clocks: `NowMs`, and the durations that the debug statistics report.
pub record QueryClock : Type 0 where
  pub now_ms : ℕ
  pub sparse_ms : Double
  pub dense_ms : Double
  pub rerank_ms : Double
  pub total_ms : Double

pub record Retriever : Type 1 where
  pub State : Type 0
  pub index : State → MemoryRecord → State
  pub remove : State → Text → Text → State
  pub query : State → QueryClock → QueryInput → QueryOutput
  pub estimate_doc_bytes : MemoryRecord → ℕ
