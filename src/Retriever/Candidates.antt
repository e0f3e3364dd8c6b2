-- ===== src/Retriever/Candidates.antt =====
-- The candidates of `HybridRetriever::Query` of src/core/retriever.cpp: both lists and their union hold
-- ids of documents that pass the filter.
use poorguy_mem.Common.{
  ℕ, ◌≤◌, ◌≡◌, true, some, List, [], ◌∷◌, Text, ltb, Map, find, length, length-take, arith,
  Option-cases, Bool-cases, inl, inr, Double, Fpu, IsUnique, insert-IsUnique, All, All-insert,
  All-insert_by, All-take, All-mono, All-self, Pairwise, Pairwise-take,
}
use poorguy_mem.Types.{QueryInput, QueryFilter, ScoreBreakdown}
use poorguy_mem.Retriever.Vectors.{VectorSearchResult}
use poorguy_mem.Retriever.Index.{IndexedDoc, WorkspaceSnapshot}
use poorguy_mem.Retriever.Scores.{passes_filter, zero_d, lexical_score}
use poorguy_mem.Retriever.Search.{
  truncate, dense_candidates, sparse_scores, candidate_before, sort_candidates, merge_sparse,
  merge_dense, sparse_candidates,
}
use poorguy_mem.Retriever.Counted.{IsCounted}

-- The id of a document that passes the filter.
abbrev pub Candidate : Map IndexedDoc → QueryFilter → Text → Type 0
Candidate docs filters id =
    (doc : IndexedDoc) × (find id docs ≡ some doc) × (passes_filter doc.memory filters ≡ true)

pub All-truncate {ℓ κ} :
    {A : Type ℓ} (P : A → Type κ) (n : ℕ) (xs : List A) → All P xs → All P (truncate n xs)
unfolding truncate
All-truncate P n xs a = elim (Bool-cases (ltb n (length xs))) [
  | inl e ↦ rw (truncate, e) (All-take P n xs a)
  | inr e ↦ rw (truncate, e) a
]

pub Pairwise-truncate {ℓ κ} :
    {A : Type ℓ} (R : A → A → Type κ) (n : ℕ) (xs : List A)
    → Pairwise R xs
    → Pairwise R (truncate n xs)
unfolding truncate
Pairwise-truncate R n xs p = elim (Bool-cases (ltb n (length xs))) [
  | inl e ↦ rw (truncate, e) (Pairwise-take R n xs p)
  | inr e ↦ rw (truncate, e) p
]

pub length-truncate {ℓ} : {A : Type ℓ} (n : ℕ) (xs : List A) → length (truncate n xs) ≤ n
unfolding truncate
length-truncate n xs = ground (arith, length-take n xs)

pub dense_candidates-Candidate :
    (docs : Map IndexedDoc) (filters : QueryFilter) (items : List VectorSearchResult)
    → All
        (λ (v : VectorSearchResult). Candidate docs filters v.memory_id)
        (dense_candidates docs filters items)
unfolding dense_candidates
dense_candidates-Candidate docs filters [] = tt
dense_candidates-Candidate docs filters (item ∷ items) =
    elim (Option-cases (find item.memory_id docs)) [
      | inl e ↦ rw (dense_candidates, e) (dense_candidates-Candidate docs filters items)
      | inr (doc, e) ↦ elim (Bool-cases (passes_filter doc.memory filters)) [
        | inl f ↦
            rw (dense_candidates, e, f) ((doc, e, f), dense_candidates-Candidate docs filters items)
        | inr f ↦ rw (dense_candidates, e, f) (dense_candidates-Candidate docs filters items)
      ]
    ]

module _ (hash : Text → ℕ) (fpu float : Fpu) (widen : Double → Double) where
  pub sparse_scores-All :
      (P : Text → Type 0) (filters : QueryFilter) (query_tf : Map ℕ) (n : ℕ) (avgdl : Double)
      (df : Map ℕ) (docs : Map IndexedDoc)
      → All (λ (x : Text × IndexedDoc). passes_filter x.1.memory filters ≡ true → P x.0) docs
      → All
          (λ (x : Text × Double). P x.0)
          (sparse_scores hash fpu float widen filters query_tf n avgdl df docs)
  unfolding sparse_scores
  sparse_scores-All P filters query_tf n avgdl df [] a = tt
  sparse_scores-All P filters query_tf n avgdl df ((id, doc) ∷ docs) a =
      let rest = sparse_scores-All P filters query_tf n avgdl df docs a.1 in
      let score : Double = lexical_score fpu doc query_tf n avgdl df in
      elim (Bool-cases (passes_filter doc.memory filters)) [
        | inl e ↦ elim (Bool-cases (fpu.le score (zero_d fpu))) [
          | inl f ↦ rw (sparse_scores, e, f) rest
          | inr f ↦ rw (sparse_scores, e, f) (a.0 e, rest)
        ]
        | inr e ↦ rw (sparse_scores, e) rest
      ]

  pub sort_candidates-All :
      (P : Text × Double → Type 0) (cs : Map Double)
      → All P cs
      → All P (sort_candidates hash fpu float widen cs)
  unfolding sort_candidates
  sort_candidates-All P [] a = tt
  sort_candidates-All P (c ∷ cs) a =
      All-insert_by P (candidate_before hash fpu float widen) c _ a.0 (sort_candidates-All P cs a.1)

  pub merge_sparse-All :
      (P : Text → Type 0) (items : Map Double) (merged : Map ScoreBreakdown)
      → All (λ (x : Text × ScoreBreakdown). P x.0) merged
      → All (λ (x : Text × Double). P x.0) items
      → All (λ (x : Text × ScoreBreakdown). P x.0) (merge_sparse hash fpu float widen merged items)
  unfolding merge_sparse
  merge_sparse-All P [] merged a b = a
  merge_sparse-All P ((id, score) ∷ items) merged a b =
      merge_sparse-All P items _
        (All-insert (λ (x : Text × ScoreBreakdown). P x.0) id _ merged b.0 a) b.1

  pub merge_dense-All :
      (P : Text → Type 0) (items : List VectorSearchResult) (merged : Map ScoreBreakdown)
      → All (λ (x : Text × ScoreBreakdown). P x.0) merged
      → All (λ (x : VectorSearchResult). P x.memory_id) items
      → All (λ (x : Text × ScoreBreakdown). P x.0) (merge_dense hash fpu float widen merged items)
  unfolding merge_dense
  merge_dense-All P [] merged a b = a
  merge_dense-All P (item ∷ items) merged a b =
      merge_dense-All P items _
        (All-insert (λ (x : Text × ScoreBreakdown). P x.0) item.memory_id _ merged b.0 a) b.1

  pub merge_sparse-IsUnique :
      (items : Map Double) (merged : Map ScoreBreakdown)
      → IsUnique merged
      → IsUnique (merge_sparse hash fpu float widen merged items)
  unfolding merge_sparse
  merge_sparse-IsUnique [] merged u = u
  merge_sparse-IsUnique ((id, score) ∷ items) merged u =
      merge_sparse-IsUnique items _ (insert-IsUnique id _ merged u)

  pub merge_dense-IsUnique :
      (items : List VectorSearchResult) (merged : Map ScoreBreakdown)
      → IsUnique merged
      → IsUnique (merge_dense hash fpu float widen merged items)
  unfolding merge_dense
  merge_dense-IsUnique [] merged u = u
  merge_dense-IsUnique (item ∷ items) merged u =
      merge_dense-IsUnique items _ (insert-IsUnique item.memory_id _ merged u)

  pub sparse_candidates-Candidate :
      (ws : Text) (snapshot : WorkspaceSnapshot) (input : QueryInput)
      → IsCounted ws snapshot
      → All
          (λ (x : Text × Double). Candidate snapshot.docs input.filters x.0)
          (sparse_candidates hash fpu float widen snapshot input)
  unfolding sparse_candidates
  sparse_candidates-Candidate ws snapshot input c =
      let P : Text → Type 0 = Candidate snapshot.docs input.filters in
      All-truncate (λ (x : Text × Double). P x.0) _ _
        (sort_candidates-All (λ x. P x.0) _
          (sparse_scores-All P input.filters _ _ _ _ snapshot.docs (
            All-mono (λ (e : Text × IndexedDoc). find e.0 snapshot.docs ≡ some e.1)
              (λ (x : Text × IndexedDoc). passes_filter x.1.memory input.filters ≡ true → P x.0)
              snapshot.docs (λ x there passes. (x.1, there, passes))
              (All-self snapshot.docs c.docs_unique))))
