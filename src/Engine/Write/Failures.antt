-- ===== src/Engine/Write/Failures.antt =====
-- `MemoryEngine::Write` of src/core/memory_engine.cpp: what a failed write leaves behind, and the
-- quota of pinned records.
use poorguy_mem.Common.{
  Bool, true, Option, none, some, ℕ, ◌≡◌, refl, ◌∙◌, false, List, [], ◌∷◌, Text, is_empty, arith,
  Option-cases, Bool-cases, inl, inr, Double,
}
use poorguy_mem.Types.{WriteOutput, WriteInput, WriteRecordInput}
use poorguy_mem.Engine.State.{Env, Engine, now_ms}
use poorguy_mem.Engine.Persist.{append_projection_event}
use poorguy_mem.Engine.Write.{
  unless_thrown, WriteLoop, write, write_records, write_record, write_with_id, accept_record,
  next_memory_id, start_write, persist_batch_now, dedup_hit,
}

module _ (env : Env) where
  -- Everything that a reader of the resident state can see.
  abbrev pub Unchanged : Engine env → Engine env → Type 0
  Unchanged e e' =
      (e'.records ≡ e.records)
      × (e'.dedup_index ≡ e.dedup_index)
      × (e'.retriever ≡ e.retriever)
      × (e'.resident_charge_bytes ≡ e.resident_charge_bytes)
      × (e'.resident_used_bytes ≡ e.resident_used_bytes)
      × (e'.index_generation ≡ e.index_generation)

  Unchanged-trans : (e e1 e2 : Engine env) → Unchanged e e1 → Unchanged e1 e2 → Unchanged e e2
  Unchanged-trans e e1 e2 (a, b, c, d, f, g) (a', b', c', d', f', g') =
      (a' ∙ a, b' ∙ b, c' ∙ c, d' ∙ d, f' ∙ f, g' ∙ g)

  write_with_id-Unchanged :
      (input : WriteInput) (rec_in : WriteRecordInput) (now : ℕ) (id : Text) (s : WriteLoop env)
      → Unchanged s.engine (write_with_id env input rec_in now id s).engine
  unfolding write_with_id accept_record append_projection_event now_ms
  write_with_id-Unchanged input rec_in now id s = ground arith

  write_record-Unchanged :
      (input : WriteInput) (now : ℕ) (rec_in : WriteRecordInput) (s : WriteLoop env)
      → Unchanged s.engine (write_record env input now rec_in s).engine
  unfolding write_record next_memory_id now_ms
  write_record-Unchanged input now rec_in s = elim (Bool-cases (is_empty rec_in.content)) [
    | inl e ↦ rw (e, write_record) (refl, refl, refl, refl, refl, refl)
    | inr e ↦ elim (Option-cases (dedup_hit env input rec_in s)) [
      | inr (id, d) ↦ rw (e, write_record, d) (refl, refl, refl, refl, refl, refl)
      | inl d ↦ elim (Bool-cases (is_empty rec_in.record_id)) [
        | inl f ↦ rw (e, write_record, d, f) (write_with_id-Unchanged input rec_in now _ _)
        | inr f ↦ rw (e, write_record, d, f) (write_with_id-Unchanged input rec_in now _ s)
      ]
    ]
  ]

  unless_thrown-Unchanged :
      (thrown : Bool) (s next : WriteLoop env)
      → Unchanged s.engine next.engine
      → Unchanged s.engine (unless_thrown env thrown s next).engine
  unless_thrown-Unchanged true s next h = (refl, refl, refl, refl, refl, refl)
  unless_thrown-Unchanged false s next h = h

  write_records-Unchanged :
      (input : WriteInput) (now : ℕ) (recs : List WriteRecordInput) (s : WriteLoop env)
      → Unchanged s.engine (write_records env input now recs s).engine
  unfolding write_records
  write_records-Unchanged input now [] s = (refl, refl, refl, refl, refl, refl)
  write_records-Unchanged input now (r ∷ rs) s =
      let s' = unless_thrown env s.thrown s (write_record env input now r s) in
      Unchanged-trans s.engine s'.engine (write_records env input now rs s').engine
        (unless_thrown-Unchanged s.thrown s _ (write_record-Unchanged input now r s))
        (write_records-Unchanged input now rs s')

  -- The write has thrown, or reports `ok = false`.
  abbrev pub IsFailed : Option WriteOutput → Type 0
  IsFailed none = Unit
  IsFailed (some out) = out.ok ≡ false

  -- A write that reports `ok = false`, for a missing workspace or because the store has refused the
  -- batch, or that ends by an exception of the JSON library, leaves the records, the deduplication index, the retriever, the charges and the index
  -- generation as they were.
  pub write_failed :
      (e : Engine env) (input : WriteInput) (ms : Double)
      → IsFailed (write env e input ms).0
      → Unchanged e (write env e input ms).1
  unfolding write start_write now_ms persist_batch_now
  write_failed e input ms h = elim (Bool-cases (is_empty input.workspace_id)) [
    | inl no_workspace ↦ rw (no_workspace, write) (refl, refl, refl, refl, refl, refl)
    | inr f ↦ elim (Bool-cases (is_empty input.records)) [
      | inl no_records ↦ rw (f, write, no_records) (refl, refl, refl, refl, refl, refl)
      | inr g ↦ elim (Bool-cases s.thrown) [
        | inl t ↦ rw (f, write, g, t) after_loop
        | inr t ↦ elim (Bool-cases (is_empty s.writes)) [
          | inl nothing ↦ rw (f, write, g, t, nothing) after_loop
          | inr w ↦ elim (Bool-cases (persist_batch_now env s.engine s.writes).0.ok) [
            | inl ok ↦ cc (rw (f, write, g, t, w, ok) at h)
            | inr failed ↦ rw (f, write, g, t, w, failed) after_loop
          ]
        ]
      ]
    ]
  ]
    where
      now : ℕ
      now = (start_write env input e).0

      s : WriteLoop env
      s = write_records env input now input.records (start_write env input e).1

      after_loop : Unchanged e s.engine
      after_loop = write_records-Unchanged input now input.records (start_write env input e).1
