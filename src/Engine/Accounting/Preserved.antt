-- ===== src/Engine/Accounting/Preserved.antt =====
-- What every operation of src/core/memory_engine.cpp preserves: the steps that the operations are made
-- of, and the fields that the other steps leave alone.
use poorguy_mem.Common.{ℕ, ◌≡◌, ◌∙◌, Map, arith, Double}
use poorguy_mem.Types.{MemoryRecord, QueryInput}
use poorguy_mem.Retriever.{QueryClock}
use poorguy_mem.Engine.Query.{query}
use poorguy_mem.Engine.State.{Env, Engine}
use poorguy_mem.Engine.Memory.{upsert_record_in_memory, remove_record_in_memory}
use poorguy_mem.Engine.Write.{enforce_limit, maybe_schedule_gc}

module _ (env : Env) where
  -- The same resident records, charges and retriever.
  abbrev pub Same : Engine env → Engine env → Type 0
  Same e e' =
      (e'.records ≡ e.records)
      × (e'.resident_charge_bytes ≡ e.resident_charge_bytes)
      × (e'.resident_used_bytes ≡ e.resident_used_bytes)
      × (e'.retriever ≡ e.retriever)

  pub Same-trans : (e e1 e2 : Engine env) → Same e e1 → Same e1 e2 → Same e e2
  Same-trans e e1 e2 s t = (t.0 ∙ s.0, t.1 ∙ s.1, t.2 ∙ s.2, t.3 ∙ s.3)

  pub maybe_schedule_gc-Same : (e : Engine env) → Same e (maybe_schedule_gc env e)
  unfolding maybe_schedule_gc
  maybe_schedule_gc-Same e = ground arith

  -- The resident records, the charges, their sum and the retriever.
  abbrev pub State : Type 0
  State = Map MemoryRecord × (Map ℕ × (ℕ × env.retriever.State))

  -- What holds of these fields of an engine.
  abbrev pub Holds : (State → Type 0) → Engine env → Type 0
  Holds Q e = Q (e.records, (e.resident_charge_bytes, (e.resident_used_bytes, e.retriever)))

  pub Same-Holds : (Q : State → Type 0) (e e' : Engine env) → Same e e' → Holds Q e → Holds Q e'
  Same-Holds Q e e' s a = rw (s.0, s.1, s.2, s.3) a

  -- A predicate that the steps preserve.
  pub record IsPreserved (Q : State → Type 0) : Type 0 where
    pub upsert :
        (e : Engine env) (r : MemoryRecord) → Holds Q e → Holds Q (upsert_record_in_memory env e r)
    pub removal :
        (e : Engine env) (r : MemoryRecord) → Holds Q e → Holds Q (remove_record_in_memory env e r)
    pub limit : (e : Engine env) → Holds Q e → Holds Q (enforce_limit env e)
    pub answer :
        (e : Engine env) (input : QueryInput) (phases : QueryClock) (ms : Double)
        → Holds Q e
        → Holds Q (query env e input phases ms).1
