-- ===== src/Retriever/Scores.antt =====
-- The filters, the BM25 score and the scores of a hit in src/core/retriever.cpp.
use poorguy_mem.Common.{
  ℕ, ◌-◌, Bool, false, ◌&&◌, ◌||◌, not, none, some, List, [], ◌∷◌, Text, text_eq, if◌then◌else◌,
  ltb, ◌==◌, Map, find, is_empty, Double, Fpu,
}
use poorguy_mem.Types.{MemoryRecord, QueryInput, QueryFilter, ScoreBreakdown}
use poorguy_mem.Tokens.Terms.{contains}
use poorguy_mem.Retriever.Index.{IndexedDoc}

-- `ContainsAnyTag`
unfoldable pub contains_any_tag : List Text → List Text → Bool
contains_any_tag haystack [] = false
contains_any_tag haystack (want ∷ needle) =
    contains want haystack || contains_any_tag haystack needle

unfoldable pub passes_filter : MemoryRecord → QueryFilter → Bool
passes_filter r filters =
    if not (is_empty filters.session_id) && not (text_eq r.session_id filters.session_id)
    then false
    else if not (is_empty filters.sources) && not (contains r.source filters.sources)
    then false
    else if not (is_empty filters.tags_any) && not (contains_any_tag r.tags filters.tags_any)
    then false
    else if ltb 0 filters.updated_after_ms && ltb r.updated_at_ms filters.updated_after_ms
    then false
    else if ltb 0 filters.updated_before_ms && ltb filters.updated_before_ms r.updated_at_ms
    then false
    else if filters.pinned_only && not r.pinned
    then false
    else not r.tombstone

module _ (fpu : Fpu) where
  abbrev pub zero_d : Double
  zero_d = fpu.literal 0 0

  abbrev pub one_d : Double
  one_d = fpu.literal 1 0

  unfoldable pub normalize : Double → Double → Double
  normalize value max_value =
      if fpu.le value zero_d || fpu.le max_value zero_d then zero_d else fpu.div value max_value

  unfoldable pub freshness_score : ℕ → ℕ → Double
  freshness_score updated_at_ms now_ms =
      let age_ms = if ltb updated_at_ms now_ms then now_ms - updated_at_ms else 0 in
      let age_hours = fpu.div (fpu.of_ℕ age_ms) (fpu.literal 3600000 0) in
      fpu.div one_d (fpu.add one_d age_hours)

  -- What one term of the query adds.
  unfoldable pub term_score : IndexedDoc → ℕ → Double → Map ℕ → Text → ℕ → Double
  term_score doc total_docs avgdl df term n =
      let tf = fpu.of_ℕ n in
      let k1 = fpu.literal 15 1 in
      let b = fpu.literal 75 2 in
      let doc_freq : Double = elim (find term df) [ none ↦ zero_d | some m ↦ fpu.of_ℕ m ] in
      let idf = fpu.log (
        fpu.add
          (fpu.div (fpu.add (fpu.sub (fpu.of_ℕ total_docs) doc_freq) (fpu.literal 5 1))
            (fpu.add doc_freq (fpu.literal 5 1)))
          one_d) in
      let denom = fpu.add tf (
        fpu.mul k1
          (fpu.add (fpu.sub one_d b) (fpu.mul b (fpu.div (fpu.of_ℕ doc.doc_len) avgdl)))) in
      fpu.mul idf (fpu.div (fpu.mul tf (fpu.add k1 one_d)) denom)

  unfoldable pub score_terms : IndexedDoc → ℕ → Double → Map ℕ → Double → Map ℕ → Double
  score_terms doc total_docs avgdl df score [] = score
  score_terms doc total_docs avgdl df score ((term, q) ∷ query_tf) =
      score_terms doc total_docs avgdl df
        (elim (find term doc.tf) [
          | none ↦ score
          | some n ↦ fpu.add score (term_score doc total_docs avgdl df term n)
        ])
        query_tf

  unfoldable pub lexical_score : IndexedDoc → Map ℕ → ℕ → Double → Map ℕ → Double
  lexical_score doc query_tf total_docs avg_doc_len df =
      if doc.doc_len == 0 || (is_empty query_tf || total_docs == 0)
      then zero_d
      else score_terms doc total_docs (if fpu.lt zero_d avg_doc_len then avg_doc_len else one_d) df
          zero_d query_tf

  unfoldable pub final_scores :
      QueryInput → ℕ → Double → Double → MemoryRecord → ScoreBreakdown → ScoreBreakdown
  final_scores input now_ms sparse_max dense_max r merged =
      let sparse = normalize merged.sparse sparse_max in
      let dense = normalize merged.dense dense_max in
      let freshness = freshness_score r.updated_at_ms now_ms in
      let pin = if r.pinned then one_d else zero_d in
      record {
        sparse = sparse;
        dense = dense;
        freshness = freshness;
        pin = pin;
        final =
            fpu.add
              (fpu.add
                (fpu.add (fpu.mul input.rerank.w_sparse sparse)
                  (fpu.mul input.rerank.w_dense dense))
                (fpu.mul input.rerank.w_freshness freshness))
              (fpu.mul input.rerank.w_pin pin);
      }
