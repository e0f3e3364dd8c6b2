-- ===== src/Engine/Hybrid.antt =====
-- The engine of src/core/memory_engine.cpp over the retriever of src/core/retriever.cpp.
use poorguy_mem.Common.{
  ℕ, ◌≤◌, ◌≢◌, Text, List, Double, Map, length, is_empty, All, Pairwise, Bool-cases, inl, inr,
  arith,
}
use poorguy_mem.Types.{QueryInput, QueryHit}
use poorguy_mem.Retriever.{QueryClock}
use poorguy_mem.Retriever.Index.{HybridRetriever, IndexedDoc, snapshot_of, remove}
use poorguy_mem.Retriever.Search.{hybrid}
use poorguy_mem.Retriever.Counted.{IsIndexed, index-IsIndexed, remove_from-IsIndexed}
use poorguy_mem.Retriever.Hits.{IsHit, IsAnswer, query-IsAnswer}
use poorguy_mem.Engine.State.{Env, Engine, now_ms}
use poorguy_mem.Engine.Query.{query}
use poorguy_mem.Engine.Query.Budget.{IsSublist, sub_nil, sub_skip, sub_keep, select_hits_of}
use poorguy_mem.Engine.Accounting.Retrieving.{retrieves, Retrieves}
use poorguy_mem.Engine.Accounting.Preserved.{IsPreserved}
use poorguy_mem.Engine.Gc.{Step, run, run-IsPreserved}

All-sublist :
    (P : QueryHit → Type 0) {xs ys : List QueryHit} → IsSublist xs ys → All P ys → All P xs
All-sublist P sub_nil a = tt
All-sublist P (sub_skip h xs ys s) a = All-sublist P s a.1
All-sublist P (sub_keep h xs ys s) a = (a.0, All-sublist P s a.1)

Pairwise-sublist :
    (R : QueryHit → QueryHit → Type 0) {xs ys : List QueryHit}
    → IsSublist xs ys
    → Pairwise R ys
    → Pairwise R xs
Pairwise-sublist R sub_nil p = tt
Pairwise-sublist R (sub_skip h xs ys s) p = Pairwise-sublist R s p.1
Pairwise-sublist R (sub_keep h xs ys s) p = (All-sublist (R h) s p.0, Pairwise-sublist R s p.1)

length-sublist : {xs ys : List QueryHit} → IsSublist xs ys → length xs ≤ length ys
length-sublist sub_nil = omega arith
length-sublist (sub_skip h xs ys s) = omega (arith, length-sublist s)
length-sublist (sub_keep h xs ys s) = omega (arith, length-sublist s)

sublist-IsAnswer :
    {docs : Map IndexedDoc} {input : QueryInput} {xs ys : List QueryHit}
    → IsSublist xs ys
    → IsAnswer docs input ys
    → IsAnswer docs input xs
sublist-IsAnswer {docs} {input} s a = record {
  hits_are = All-sublist (IsHit docs input.filters) s a.hits_are;
  at_most = omega (arith, length-sublist s, a.at_most);
  once = Pairwise-sublist (λ (x : QueryHit) y. x.memory_id ≢ y.memory_id) s a.once;
}

module _ (base : Env) (widen : Double → Double) (embedding_dim : ℕ) where
  -- The environment with the hybrid retriever in it.
  abbrev pub hybrid_env : Env
  hybrid_env = record base { retriever = hybrid base.hash base.fpu base.float widen embedding_dim }

  indexed :
      IsPreserved hybrid_env (Retrieves hybrid_env (λ (s : HybridRetriever). IsIndexed s.snapshots))
  unfolding remove
  indexed =
      retrieves hybrid_env (λ (s : HybridRetriever). IsIndexed s.snapshots)
        (index-IsIndexed base.hash base.fpu base.float widen) remove-IsIndexed
    where
      remove-IsIndexed :
          (s : HybridRetriever) (ws id : Text)
          → IsIndexed s.snapshots
          → IsIndexed (remove s ws id).snapshots
      remove-IsIndexed s ws id a = remove_from-IsIndexed s.snapshots ws id a

  engine_query-IsAnswer :
      (e : Engine hybrid_env) (input : QueryInput) (phases : QueryClock) (ms : Double)
      → IsIndexed e.retriever.snapshots
      → IsAnswer
          (snapshot_of input.workspace_id e.retriever.snapshots).docs
          input
          (query hybrid_env e input phases ms).0.hits
  unfolding query now_ms
  engine_query-IsAnswer e input phases ms a = elim (Bool-cases (is_empty input.workspace_id)) [
    | inl f ↦ rw (query, f) (record { hits_are = tt; at_most = omega arith; once = tt })
    | inr f ↦
        rw (query, f)
          (sublist-IsAnswer (select_hits_of e.records input.workspace_id _ input.token_budget 0 _).0
            (query-IsAnswer base.hash base.fpu base.float widen e.retriever _ input a))
  ]

  -- The engine over the hybrid retriever, after any interleaving of its calls and of the rounds of
  -- its background thread, if the snapshots were well formed before: the hits that a query returns
  -- are those of documents of the workspace that pass the filter, with the fields of their records,
  -- each once, and at most `top_k` of them, or eight where none is asked for.
  pub run-IsAnswer :
      (steps : List Step) (e : Engine hybrid_env) (input : QueryInput) (phases : QueryClock)
      (ms : Double)
      → IsIndexed e.retriever.snapshots
      → IsAnswer
          (snapshot_of input.workspace_id (run hybrid_env e steps).retriever.snapshots).docs
          input
          (query hybrid_env (run hybrid_env e steps) input phases ms).0.hits
  run-IsAnswer steps e input phases ms a =
      engine_query-IsAnswer (run hybrid_env e steps) input phases ms
        (run-IsPreserved hybrid_env _ indexed steps e a)
