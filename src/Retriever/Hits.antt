-- ===== src/Retriever/Hits.antt =====
-- `HybridRetriever::Query` of src/core/retriever.cpp: what the hits of a query are.
use poorguy_mem.Common.{
  ℕ, ◌≤◌, ◌≡◌, ◌≢◌, refl, sym, ◌∙◌, true, some, List, [], ◌∷◌, Text, Map, find, is_empty, length,
  arith, Option-cases, Bool-cases, inl, inr, Double, Fpu, IsUnique, All, All-insert_by, All-find,
  All-absent, Pairwise, Pairwise-insert_by_symmetric,
}
use mathlib.Core.Path.{subst}
use poorguy_mem.Types.{QueryInput, QueryHit, QueryFilter, ScoreBreakdown}
use poorguy_mem.Retriever.{QueryClock}
use poorguy_mem.Retriever.Vectors.{VectorSearchResult}
use poorguy_mem.Retriever.Index.{IndexedDoc, WorkspaceSnapshot, HybridRetriever, snapshot_of}
use poorguy_mem.Retriever.Scores.{passes_filter}
use poorguy_mem.Retriever.Search.{
  top_k_of, hit_of, merge_sparse, merge_dense, rerank, hit_before, sort_hits, sparse_candidates,
  dense_of, query_snapshot, query,
}
use poorguy_mem.Retriever.Counted.{IsDoc, IsCounted, IsIndexed}
use poorguy_mem.Retriever.Candidates.{
  Candidate, All-truncate, Pairwise-truncate, length-truncate, dense_candidates-Candidate,
  merge_sparse-All, merge_dense-All, merge_sparse-IsUnique, merge_dense-IsUnique,
  sparse_candidates-Candidate,
}

-- The hit of a document that passes the filter, with some scores.
abbrev pub IsHit : Map IndexedDoc → QueryFilter → QueryHit → Type 0
IsHit docs filters h =
    (doc : IndexedDoc) × (find h.memory_id docs ≡ some doc)
    × (passes_filter doc.memory filters ≡ true)
    × (h ≡ hit_of doc.memory h.scores)

-- What a query promises of its hits.
pub record IsAnswer (docs : Map IndexedDoc) (input : QueryInput) (hits : List QueryHit)
    : Type 0 where
  pub hits_are : All (IsHit docs input.filters) hits
  pub at_most : length hits ≤ top_k_of input
  pub once : Pairwise (λ (x : QueryHit) y. x.memory_id ≢ y.memory_id) hits

module _ (hash : Text → ℕ) (fpu float : Fpu) (widen : Double → Double) where
  sort_hits-All :
      (P : QueryHit → Type 0) (hs : List QueryHit)
      → All P hs
      → All P (sort_hits hash fpu float widen hs)
  unfolding sort_hits
  sort_hits-All P [] a = tt
  sort_hits-All P (h ∷ hs) a =
      All-insert_by P (hit_before hash fpu float widen) h _ a.0 (sort_hits-All P hs a.1)

  sort_hits-once :
      (hs : List QueryHit)
      → Pairwise (λ (x : QueryHit) y. x.memory_id ≢ y.memory_id) hs
      → Pairwise (λ (x : QueryHit) y. x.memory_id ≢ y.memory_id) (sort_hits hash fpu float widen hs)
  unfolding sort_hits
  sort_hits-once [] p = tt
  sort_hits-once (h ∷ hs) p =
      Pairwise-insert_by_symmetric (λ (x : QueryHit) y. x.memory_id ≢ y.memory_id)
        (hit_before hash fpu float widen) (λ x y n e. n (sym e)) h _
        (sort_hits-All (λ y. h.memory_id ≢ y.memory_id) hs p.0) (sort_hits-once hs p.1)

  module _ (input : QueryInput) (now_ms : ℕ) (sparse_max dense_max : Double)
      (docs : Map IndexedDoc) where
    rerank-All :
        (P : QueryHit → Type 0) (Q : Text → Type 0)
        → ((id : Text) (doc : IndexedDoc) (scores : ScoreBreakdown)
            → Q id
            → find id docs ≡ some doc
            → P (hit_of doc.memory scores))
        → (merged : Map ScoreBreakdown) → All (λ (x : Text × ScoreBreakdown). Q x.0) merged
        → All P (rerank hash fpu float widen input now_ms sparse_max dense_max docs merged)
    unfolding rerank
    rerank-All P Q f [] a = tt
    rerank-All P Q f ((id, scores) ∷ merged) a =
        let rest = rerank-All P Q f merged a.1 in
        elim (Option-cases (find id docs)) [
          | inl e ↦ rw (rerank, e) rest
          | inr (doc, e) ↦ rw (rerank, e) (f id doc _ a.0 e, rest)
        ]

    rerank-once :
        ((id : Text) (doc : IndexedDoc) → find id docs ≡ some doc → doc.memory.id ≡ id)
        → (merged : Map ScoreBreakdown) → IsUnique merged
        → Pairwise
            (λ (x : QueryHit) y. x.memory_id ≢ y.memory_id)
            (rerank hash fpu float widen input now_ms sparse_max dense_max docs merged)
    unfolding rerank hit_of
    rerank-once own [] u = tt
    rerank-once own ((id, scores) ∷ merged) u =
        let rest = rerank-once own merged u.1 in
        elim (Option-cases (find id docs)) [
          | inl e ↦ rw (rerank, e) rest
          | inr (doc, e) ↦
              rw (rerank, e)
                (
                  rerank-All (λ y. doc.memory.id ≢ y.memory_id) (λ j. id ≢ j)
                      (λ j d sc n g same. n (sym (own id doc e) ∙ same ∙ own j d g)) merged
                      (All-absent id merged u.0),
                  rest,
                )
        ]

  query_snapshot-IsAnswer :
      (s : HybridRetriever) (ws : Text) (snapshot : WorkspaceSnapshot) (phases : QueryClock)
      (input : QueryInput)
      → IsCounted ws snapshot
      → IsAnswer snapshot.docs input
          (query_snapshot hash fpu float widen s snapshot phases input).hits
  unfolding query_snapshot dense_of hit_of
  query_snapshot-IsAnswer s ws snapshot phases input c = record {
    hits_are = All-truncate (IsHit snapshot.docs input.filters) _ _ (
        sort_hits-All (IsHit snapshot.docs input.filters) _ (
          rerank-All input _ _ _ snapshot.docs (IsHit snapshot.docs input.filters) P candidate_hit
            merged
            (merge_dense-All hash fpu float widen P dense _
              (merge_sparse-All hash fpu float widen P sparse [] tt
                (sparse_candidates-Candidate hash fpu float widen ws snapshot input c))
              (dense_candidates-Candidate snapshot.docs input.filters _))));
    at_most = length-truncate _ _;
    once =
        Pairwise-truncate (λ (x : QueryHit) y. x.memory_id ≢ y.memory_id) _ _
          (sort_hits-once _ (
            rerank-once input _ _ _ snapshot.docs own merged (
              merge_dense-IsUnique hash fpu float widen dense _
                (merge_sparse-IsUnique hash fpu float widen sparse [] tt))));
  }
    where
      P : Text → Type 0
      P = Candidate snapshot.docs input.filters

      sparse : Map Double
      sparse = sparse_candidates hash fpu float widen snapshot input

      dense : List VectorSearchResult
      dense = dense_of hash fpu float widen s snapshot input

      merged : Map ScoreBreakdown
      merged = merge_dense hash fpu float widen (merge_sparse hash fpu float widen [] sparse) dense

      own : (id : Text) (doc : IndexedDoc) → find id snapshot.docs ≡ some doc → doc.memory.id ≡ id
      own id doc there = (All-find (IsDoc ws) id doc snapshot.docs there c.docs_valid).0

      candidate_hit :
          (id : Text) (doc : IndexedDoc) (scores : ScoreBreakdown)
          → P id
          → find id snapshot.docs ≡ some doc
          → IsHit snapshot.docs input.filters (hit_of doc.memory scores)
      candidate_hit id doc scores q there =
          let e : q.0 ≡ doc = cc (q.1, there) in
          (
            doc,
            subst (λ k. find k snapshot.docs ≡ some doc) (sym (own id doc there)) there,
            subst (λ (d : IndexedDoc). passes_filter d.memory input.filters ≡ true) e q.2,
            refl,
          )

  -- For a retriever whose snapshots are well formed: the hits of a query are those of documents that
  -- stand in the snapshot of the workspace and pass the filter, with the fields of their records; no
  -- document is hit twice; and there are at most `top_k` hits, eight where none is asked for.
  pub query-IsAnswer :
      (s : HybridRetriever) (phases : QueryClock) (input : QueryInput)
      → IsIndexed s.snapshots
      → IsAnswer
          (snapshot_of input.workspace_id s.snapshots).docs
          input
          (query hash fpu float widen s phases input).hits
  unfolding query
  query-IsAnswer s phases input a = elim (Option-cases (find input.workspace_id s.snapshots)) [
    | inl e ↦ rw (query, e) nothing
    | inr (sn, e) ↦ elim (Bool-cases (is_empty sn.docs)) [
      | inl f ↦ rw (query, e, f) nothing
      | inr f ↦
          rw (query, snapshot_of, e, f)
            (query_snapshot-IsAnswer s input.workspace_id sn phases input (
              All-find (λ (x : Text × WorkspaceSnapshot). IsCounted x.0 x.1) input.workspace_id sn
                s.snapshots e a.counted))
    ]
  ]
    where
      nothing : {docs : Map IndexedDoc} → IsAnswer docs input []
      nothing = record { hits_are = tt; at_most = omega arith; once = tt }
