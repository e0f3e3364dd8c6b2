-- ===== src/Retriever/Search.antt =====
-- `HybridRetriever::Query` of src/core/retriever.cpp: the two lists of
-- candidates, their union and the reranking. Where the source goes through an unordered map, the
-- order of insertion stands for its order.
use poorguy_mem.Common.{
  ℕ, max, Bool, ◌||◌, not, none, some, List, [], ◌∷◌, Text, text_lt, if◌then◌else◌, ltb, ◌==◌, Map,
  find, insert, length, is_empty, take, insert_by, mul64, Double, Fpu,
}
use poorguy_mem.Types.{MemoryRecord, QueryInput, QueryOutput, QueryHit, QueryFilter, ScoreBreakdown}
use poorguy_mem.Tokens.{tokenize}
use poorguy_mem.Tokens.Terms.{term_frequencies}
use poorguy_mem.Embedding.{embed}
use poorguy_mem.Retriever.{Retriever, QueryClock}
use poorguy_mem.Retriever.Vectors.{VectorSearchResult, search_vectors}
use poorguy_mem.Retriever.Index.{
  IndexedDoc, WorkspaceSnapshot, HybridRetriever, index, remove, estimate_doc_bytes,
}
use poorguy_mem.Retriever.Scores.{passes_filter, zero_d, one_d, lexical_score, final_scores}

abbrev pub top_k_of : QueryInput → ℕ
top_k_of input = if input.top_k == 0 then 8 else input.top_k

unfoldable pub sparse_limit : QueryInput → ℕ
sparse_limit input =
    max input.recall.sparse_k (mul64 (top_k_of input) (max 1 input.recall.oversample))

unfoldable pub dense_limit : QueryInput → ℕ
dense_limit input =
    max input.recall.dense_k (mul64 (top_k_of input) (max 1 input.recall.oversample))

-- `resize` to a smaller size
unfoldable pub truncate {ℓ} : {A : Type ℓ} → ℕ → List A → List A
truncate n xs = if ltb n (length xs) then take n xs else xs

-- The results of the vector index whose document is there and passes the filter.
unfoldable pub dense_candidates :
    Map IndexedDoc → QueryFilter → List VectorSearchResult → List VectorSearchResult
dense_candidates docs filters [] = []
dense_candidates docs filters (item ∷ items) =
    let rest = dense_candidates docs filters items in
    elim (find item.memory_id docs) [
      | none ↦ rest
      | some doc ↦ if not (passes_filter doc.memory filters) then rest else item ∷ rest
    ]

unfoldable pub hit_of : MemoryRecord → ScoreBreakdown → QueryHit
hit_of r scores = record {
  memory_id = r.id;
  source = r.source;
  content = r.content;
  tags = r.tags;
  metadata = r.metadata;
  scores = scores;
  updated_at_ms = r.updated_at_ms;
  pinned = r.pinned;
}

module _ (hash : Text → ℕ) (fpu float : Fpu) (widen : Double → Double) where
  -- The loop over the documents: a filtered or unmatched one is passed over.
  unfoldable pub sparse_scores :
      QueryFilter → Map ℕ → ℕ → Double → Map ℕ → Map IndexedDoc → Map Double
  sparse_scores filters query_tf total_docs avgdl df [] = []
  sparse_scores filters query_tf total_docs avgdl df ((id, doc) ∷ docs) =
      let rest = sparse_scores filters query_tf total_docs avgdl df docs in
      let score = lexical_score fpu doc query_tf total_docs avgdl df in
      if not (passes_filter doc.memory filters) || fpu.le score (zero_d fpu)
      then rest
      else (id, score) ∷ rest

  unfoldable pub candidate_before : Text × Double → Text × Double → Bool
  candidate_before lhs rhs = if fpu.eq lhs.1 rhs.1 then text_lt lhs.0 rhs.0 else fpu.lt rhs.1 lhs.1

  unfoldable pub sort_candidates : Map Double → Map Double
  sort_candidates [] = []
  sort_candidates (c ∷ cs) = insert_by candidate_before c (sort_candidates cs)

  abbrev pub no_scores : ScoreBreakdown
  no_scores = record {
    sparse = (zero_d fpu);
    dense = (zero_d fpu);
    freshness = (zero_d fpu);
    pin = (zero_d fpu);
    final = (zero_d fpu);
  }

  abbrev pub scores_of : Text → Map ScoreBreakdown → ScoreBreakdown
  scores_of id merged = elim (find id merged) [ none ↦ no_scores | some scores ↦ scores ]

  unfoldable pub merge_sparse : Map ScoreBreakdown → Map Double → Map ScoreBreakdown
  merge_sparse merged [] = merged
  merge_sparse merged ((id, score) ∷ items) =
      merge_sparse (insert id (record (scores_of id merged) { sparse = score }) merged) items

  unfoldable pub merge_dense : Map ScoreBreakdown → List VectorSearchResult → Map ScoreBreakdown
  merge_dense merged [] = merged
  merge_dense merged (item ∷ items) =
      merge_dense
        (insert item.memory_id (record (scores_of item.memory_id merged) { dense = item.score })
          merged)
        items

  -- std::max
  abbrev max_d : Double → Double → Double
  max_d x y = if fpu.lt x y then y else x

  unfoldable pub maxima : Double → Double → Map ScoreBreakdown → Double × Double
  maxima sparse_max dense_max [] = (sparse_max, dense_max)
  maxima sparse_max dense_max ((id, scores) ∷ merged) =
      maxima (max_d sparse_max scores.sparse) (max_d dense_max scores.dense) merged

  unfoldable pub rerank :
      QueryInput → ℕ → Double → Double → Map IndexedDoc → Map ScoreBreakdown → List QueryHit
  rerank input now_ms sparse_max dense_max docs [] = []
  rerank input now_ms sparse_max dense_max docs ((id, scores) ∷ merged) =
      let rest = rerank input now_ms sparse_max dense_max docs merged in
      elim (find id docs) [
        | none ↦ rest
        | some doc ↦
            hit_of doc.memory (final_scores fpu input now_ms sparse_max dense_max doc.memory scores)
            ∷ rest
      ]

  -- The comparator: the highest final score first, and among equal ones the newest.
  unfoldable pub hit_before : QueryHit → QueryHit → Bool
  hit_before lhs rhs =
      if fpu.eq lhs.scores.final rhs.scores.final
      then ltb rhs.updated_at_ms lhs.updated_at_ms
      else fpu.lt rhs.scores.final lhs.scores.final

  unfoldable pub sort_hits : List QueryHit → List QueryHit
  sort_hits [] = []
  sort_hits (h ∷ hs) = insert_by hit_before h (sort_hits hs)

  unfoldable pub sparse_candidates : WorkspaceSnapshot → QueryInput → Map Double
  sparse_candidates snapshot input =
      let total_docs = length snapshot.docs in
      let avgdl =
        if ltb 0 total_docs
        then fpu.div (fpu.of_ℕ snapshot.total_doc_len) (fpu.of_ℕ total_docs)
        else (one_d fpu) in
      truncate (sparse_limit input) (
        sort_candidates (
          sparse_scores input.filters (term_frequencies [] (tokenize input.query)) total_docs avgdl
            snapshot.df snapshot.docs))

  unfoldable pub dense_of :
      HybridRetriever → WorkspaceSnapshot → QueryInput → List VectorSearchResult
  dense_of s snapshot input = dense_candidates snapshot.docs input.filters (
      search_vectors hash fpu float widen s.vector_index (record {
        workspace_id = input.workspace_id;
        query = embed hash float input.query s.embedding_dim;
        top_k = dense_limit input;
      }))

  -- The query once the snapshot of the workspace is at hand.
  unfoldable pub query_snapshot :
      HybridRetriever → WorkspaceSnapshot → QueryClock → QueryInput → QueryOutput
  query_snapshot s snapshot phases input =
      let sparse = sparse_candidates snapshot input in
      let dense = dense_of s snapshot input in
      let merged = merge_dense (merge_sparse [] sparse) dense in
      let (sparse_max, dense_max) = maxima (zero_d fpu) (zero_d fpu) merged in
      record {
        hits =
            truncate (top_k_of input)
              (sort_hits (rerank input phases.now_ms sparse_max dense_max snapshot.docs merged));
        debug_stats = record {
          sparse_candidates = length sparse;
          dense_candidates = length dense;
          merged_candidates = length merged;
          sparse_ms = phases.sparse_ms;
          dense_ms = phases.dense_ms;
          rerank_ms = phases.rerank_ms;
          total_ms = phases.total_ms;
        };
      }

  abbrev pub no_hits : QueryOutput
  no_hits = record {
    hits = [];
    debug_stats = record {
      sparse_candidates = 0;
      dense_candidates = 0;
      merged_candidates = 0;
      sparse_ms = (zero_d fpu);
      dense_ms = (zero_d fpu);
      rerank_ms = (zero_d fpu);
      total_ms = (zero_d fpu);
    };
  }

  -- `HybridRetriever::Query`
  unfoldable pub query : HybridRetriever → QueryClock → QueryInput → QueryOutput
  query s phases input = elim (find input.workspace_id s.snapshots) [
    | none ↦ no_hits
    | some snapshot ↦
        if is_empty snapshot.docs then no_hits else query_snapshot s snapshot phases input
  ]

  -- The retriever behind the interface.
  abbrev pub hybrid : ℕ → Retriever
  hybrid embedding_dim = record {
    State = HybridRetriever;
    index = index hash fpu float widen;
    remove = remove;
    query = query;
    estimate_doc_bytes = estimate_doc_bytes embedding_dim;
  }
