-- ===== src/Engine/Query/Budget.antt =====
-- The loop of `MemoryEngine::Query` of src/core/memory_engine.cpp over the hits of the retriever:
-- the token budget, the expired records and the order of the hits.
use poorguy_mem.Common.{
  ℕ, ◌+◌, ◌≤◌, ◌<◌, ◌≡◌, Bool, false, ◌&&◌, List, [], ◌∷◌, Text, Map, arith, Bool-cases, inl, inr,
  All, ltb, Double, is_empty,
}
use poorguy_mem.Types.{MemoryRecord, QueryInput, QueryHit}
use poorguy_mem.Tokens.{estimate_token_count}
use poorguy_mem.Retriever.{QueryClock}
use poorguy_mem.Engine.State.{Env, Engine, now_ms}
use poorguy_mem.Engine.Query.{query, select_hits, hit_expired}

abbrev pub hit_tokens : List QueryHit → ℕ
hit_tokens [] = 0
hit_tokens (h ∷ hs) = estimate_token_count h.content + hit_tokens hs

-- The elements of the first list, in their order, are some of the second.
pub data IsSublist : List QueryHit → List QueryHit → Type 0 where
  sub_nil : IsSublist [] []
  sub_skip : (h : QueryHit) (xs ys : List QueryHit) → IsSublist xs ys → IsSublist xs (h ∷ ys)
  sub_keep : (h : QueryHit) (xs ys : List QueryHit) → IsSublist xs ys → IsSublist (h ∷ xs) (h ∷ ys)

sub_none : (ys : List QueryHit) → IsSublist [] ys
sub_none [] = sub_nil
sub_none (y ∷ ys) = sub_skip y [] ys (sub_none ys)

module _ (records : Map MemoryRecord) (workspace_id : Text) (now : ℕ) where
  over_budget : ℕ → ℕ → QueryHit → Bool
  over_budget budget used hit = ltb 0 budget && ltb budget (used + estimate_token_count hit.content)

  -- With a positive budget, the estimated tokens of the returned hits and of what was used before
  -- stay within the budget.
  pub select_hits_within :
      (budget used : ℕ) (hits : List QueryHit)
      → 0 < budget
      → used ≤ budget
      → used + hit_tokens (select_hits records workspace_id now budget used hits) ≤ budget
  unfolding select_hits
  select_hits_within budget used [] pos fits = omega arith
  select_hits_within budget used (h ∷ hs) pos fits = ground (
    arith,
    pos,
    fits,
    select_hits_within budget used hs pos,
    select_hits_within budget (used + estimate_token_count h.content) hs pos,
  )

  -- The returned hits are some of the hits of the retriever, in the same order, and the record of
  -- none of them is expired.
  pub select_hits_of :
      (budget used : ℕ) (hits : List QueryHit)
      → IsSublist (select_hits records workspace_id now budget used hits) hits
        × All
            (λ (h : QueryHit). hit_expired records workspace_id now h ≡ false)
            (select_hits records workspace_id now budget used hits)
  unfolding select_hits over_budget
  select_hits_of budget used [] = (sub_nil, tt)
  select_hits_of budget used (h ∷ hs) = elim (Bool-cases (over_budget budget used h)) [
    | inl over ↦ rw (select_hits, over) (sub_none (h ∷ hs), tt)
    | inr fits ↦ elim (Bool-cases (hit_expired records workspace_id now h)) [
      | inl old ↦
          let (s, a) = select_hits_of budget used hs in
          rw (select_hits, fits, old) (sub_skip h _ hs s, a)
      | inr live ↦
          let (s, a) = select_hits_of budget (used + estimate_token_count h.content) hs in
          rw (select_hits, fits, live) (sub_keep h _ hs s, (live, a))
    ]
  ]

module _ (env : Env) where
  from_zero : {n m : ℕ} → 0 + n ≤ m → n ≤ m
  from_zero h = omega arith

  -- With a positive token budget, the estimated tokens of all the hits that a query returns, from
  -- whatever the retriever found, add up to the budget at most.
  pub query_within :
      (e : Engine env) (input : QueryInput) (phases : QueryClock) (ms : Double)
      → 0 < input.token_budget
      → hit_tokens (query env e input phases ms).0.hits ≤ input.token_budget
  unfolding query now_ms
  query_within e input phases ms pos = elim (Bool-cases (is_empty input.workspace_id)) [
    | inl no_workspace ↦ rw (query, no_workspace) (omega arith)
    | inr named ↦
        rw (query, named)
          (from_zero (
            select_hits_within e.records input.workspace_id _ input.token_budget 0 _ pos
              (omega arith)))
  ]
