-- ===== src/Engine/Accounting/Retrieving.antt =====
-- What src/core/memory_engine.cpp does to the retriever: it only indexes and removes, so what both
-- preserve is preserved by every operation.
use poorguy_mem.Common.{
  ℕ, zero, suc, ◌+◌, Bool, true, false, ◌||◌, Option, none, some, List, Text, find, is_empty, leb,
  ◌==◌, length, if◌then◌else◌, Option-cases, Bool-cases, inl, inr, Double,
}
use mathlib.Core.Path.{subst}
use poorguy_mem.Types.{MemoryRecord, QueryInput}
use poorguy_mem.Retriever.{QueryClock}
use poorguy_mem.Engine.Keys.{record_map_key}
use poorguy_mem.Engine.State.{Env, Engine, now_ms, resident_limit_bytes}
use poorguy_mem.Engine.Memory.{
  upsert_record_in_memory, remove_record_in_memory, evict, evict_while, enforce_resident_hard_limit,
  select_eviction_candidate,
}
use poorguy_mem.Engine.Write.{enforce_limit}
use poorguy_mem.Engine.Query.{query}
use poorguy_mem.Engine.Accounting.Preserved.{State, IsPreserved}

-- What holds of the retriever.
abbrev pub Retrieves : (env : Env) → (env.retriever.State → Type 0) → State env → Type 0
Retrieves env R s = R s.1.1.1

module _ (env : Env) (R : env.retriever.State → Type 0)
    (index_lem : (s : env.retriever.State) (r : MemoryRecord) → R s → R (env.retriever.index s r))
    (remove_lem : (s : env.retriever.State) (ws id : Text)
      → R s
      → R (env.retriever.remove s ws id)) where
  upsert-Retrieves :
      (e : Engine env) (r : MemoryRecord)
      → R e.retriever
      → R (upsert_record_in_memory env e r).retriever
  unfolding upsert_record_in_memory
  upsert-Retrieves e r a =
      either r.tombstone (remove_lem e.retriever r.workspace_id r.id a) (index_lem e.retriever r a)
    where
      either : {s s' : env.retriever.State} (b : Bool) → R s → R s' → R (if b then s else s')
      either true h h' = h
      either false h h' = h'

  removal-Retrieves :
      (e : Engine env) (r : MemoryRecord)
      → R e.retriever
      → R (remove_record_in_memory env e r).retriever
  unfolding remove_record_in_memory
  removal-Retrieves e r a =
      elim (Option-cases (find (record_map_key r.workspace_id r.id) e.records)) [
        | inl f ↦ rw (remove_record_in_memory, f) a
        | inr (old, f) ↦
            rw (remove_record_in_memory, f) (remove_lem e.retriever r.workspace_id r.id a)
      ]

  abbrev Kept : Option (Engine env) → Type 0
  Kept none = Unit
  Kept (some e) = R e.retriever

  evict_while-Retrieves :
      (fuel : ℕ) (protected_keys : Option (List Text)) (e : Engine env)
      → R e.retriever
      → Kept (evict_while env fuel protected_keys e)
  unfolding evict_while evict now_ms
  evict_while-Retrieves zero protected_keys e a = tt
  evict_while-Retrieves (suc fuel) protected_keys e a =
      let e1 = (now_ms env e).1 in
      elim (Bool-cases
        (leb e.resident_used_bytes (resident_limit_bytes env e.options) || is_empty e.records)) [
          | inl done ↦ rw (evict_while, done) a
          | inr more ↦
              elim (Option-cases
                (select_eviction_candidate env (now_ms env e).0 protected_keys e1.records)) [
                  | inl f ↦ rw (evict_while, more, f) a
                  | inr (victim, f) ↦
                      elim (Option-cases
                        (find (record_map_key victim.workspace_id victim.id) e1.records)) [
                          | inl g ↦
                              rw (evict_while, more, f, g)
                                (evict_while-Retrieves fuel protected_keys e1 a)
                          | inr (old, g) ↦
                              rw (evict_while, more, f, g)
                                (evict_while-Retrieves fuel protected_keys (evict env e1 victim)
                                  (remove_lem e.retriever victim.workspace_id victim.id a))
                        ]
                ]
        ]

  enforce-Retrieves :
      (e : Engine env) → R e.retriever → Kept (enforce_resident_hard_limit env none e)
  unfolding enforce_resident_hard_limit
  enforce-Retrieves e a = elim (Bool-cases (resident_limit_bytes env e.options == 0)) [
    | inl off ↦ rw (enforce_resident_hard_limit, off) a
    | inr on ↦
        rw (enforce_resident_hard_limit, on) (evict_while-Retrieves (length e.records + 1) none e a)
  ]

  limit-Retrieves : (e : Engine env) → R e.retriever → R (enforce_limit env e).retriever
  unfolding enforce_limit
  limit-Retrieves e a = elim (Option-cases (enforce_resident_hard_limit env none e)) [
    | inl f ↦ rw (enforce_limit, f) a
    | inr (e', f) ↦ rw (enforce_limit, f) (subst Kept f (enforce-Retrieves e a))
  ]

  answer-Retrieves :
      (e : Engine env) (input : QueryInput) (phases : QueryClock) (ms : Double)
      → R e.retriever
      → R (query env e input phases ms).1.retriever
  unfolding query now_ms
  answer-Retrieves e input phases ms a = elim (Bool-cases (is_empty input.workspace_id)) [
    | inl f ↦ rw (query, f) a
    | inr f ↦ rw (query, f) a
  ]

  pub retrieves : IsPreserved env (Retrieves env R)
  retrieves = record {
    upsert = upsert-Retrieves;
    removal = removal-Retrieves;
    limit = limit-Retrieves;
    answer = answer-Retrieves;
  }
