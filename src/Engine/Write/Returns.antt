-- ===== src/Engine/Write/Returns.antt =====
-- `MemoryEngine::Write` of src/core/memory_engine.cpp: when no exception leaves it.
use poorguy_mem.Common.{
  ℕ, ◌≡◌, refl, Bool, true, false, some, List, [], ◌∷◌, Text, ltb, is_empty, Option-cases,
  Bool-cases, inl, inr, Double, All,
}
use poorguy_mem.Types.{MemoryRecord, WriteInput, WriteOutput, WriteRecordInput}
use poorguy_mem.Engine.State.{Env, Engine}
use poorguy_mem.Engine.Codec.{serializes}
use poorguy_mem.Engine.Write.{
  WriteLoop, write, write_records, write_record, write_with_id, accept_record, next_memory_id,
  start_write, persist_batch_now, dedup_hit, govern_pin, build_record, unless_thrown,
}

module _ (env : Env) where
  -- The library writes the tree of any record with the metadata of the input.
  abbrev pub IsWritable : WriteRecordInput → Type 0
  IsWritable rec_in = (r : MemoryRecord) → r.metadata ≡ rec_in.metadata → serializes env r ≡ true

  write_with_id_returns :
      (input : WriteInput) (rec_in : WriteRecordInput) (now : ℕ) (id : Text) (s : WriteLoop env)
      → IsWritable rec_in
      → s.thrown ≡ false
      → (write_with_id env input rec_in now id s).thrown ≡ false
  unfolding write_with_id accept_record build_record
  write_with_id_returns input rec_in now id s w h =
      let pinned =
        (govern_pin env s.engine.options s.projected_active s.projected_pinned id rec_in.pin).0 in
      let r = build_record env s.engine.options s.engine.node_id input rec_in now id pinned in
      let returns : serializes env r ≡ true = w r refl in
      elim (Bool-cases (ltb s.engine.options.max_record_bytes r.size_bytes)) [
        | inl large ↦ rw (write_with_id, large) h
        | inr fits ↦ rw (write_with_id, fits, returns) h
      ]

  write_record_returns :
      (input : WriteInput) (now : ℕ) (rec_in : WriteRecordInput) (s : WriteLoop env)
      → IsWritable rec_in
      → s.thrown ≡ false
      → (write_record env input now rec_in s).thrown ≡ false
  unfolding write_record next_memory_id
  write_record_returns input now rec_in s w h = elim (Bool-cases (is_empty rec_in.content)) [
    | inl e ↦ rw (e, write_record) h
    | inr e ↦ elim (Option-cases (dedup_hit env input rec_in s)) [
      | inr (id, d) ↦ rw (e, write_record, d) h
      | inl d ↦ elim (Bool-cases (is_empty rec_in.record_id)) [
        | inl f ↦ rw (e, write_record, d, f) (write_with_id_returns input rec_in now _ _ w h)
        | inr f ↦ rw (e, write_record, d, f) (write_with_id_returns input rec_in now _ s w h)
      ]
    ]
  ]

  unless_thrown_returns :
      (thrown : Bool) (s next : WriteLoop env)
      → s.thrown ≡ false
      → next.thrown ≡ false
      → (unless_thrown env thrown s next).thrown ≡ false
  unless_thrown_returns true s next h k = h
  unless_thrown_returns false s next h k = k

  write_records_returns :
      (input : WriteInput) (now : ℕ) (recs : List WriteRecordInput) (s : WriteLoop env)
      → All IsWritable recs
      → s.thrown ≡ false
      → (write_records env input now recs s).thrown ≡ false
  unfolding write_records
  write_records_returns input now [] s w h = h
  write_records_returns input now (r ∷ rs) s w h =
      write_records_returns input now rs _ w.1
        (unless_thrown_returns s.thrown s _ h (write_record_returns input now r s w.0 h))

  pub write_returns :
      (e : Engine env) (input : WriteInput) (ms : Double)
      → All IsWritable input.records
      → (out : WriteOutput) × ((write env e input ms).0 ≡ some out)
  unfolding write start_write persist_batch_now
  write_returns e input ms w = elim (Bool-cases (is_empty input.workspace_id)) [
    | inl no_workspace ↦ rw (no_workspace, write) (_, refl)
    | inr f ↦ elim (Bool-cases (is_empty input.records)) [
      | inl no_records ↦ rw (f, write, no_records) (_, refl)
      | inr g ↦
          let t : s.thrown ≡ false =
            write_records_returns input now input.records (start_write env input e).1 w refl in
          elim (Bool-cases (is_empty s.writes)) [
            | inl nothing ↦ rw (f, write, g, t, nothing) (_, refl)
            | inr full ↦ elim (Bool-cases (persist_batch_now env s.engine s.writes).0.ok) [
              | inl ok ↦ rw (f, write, g, t, full, ok) (_, refl)
              | inr failed ↦ rw (f, write, g, t, full, failed) (_, refl)
            ]
          ]
    ]
  ]
    where
      now : ℕ
      now = (start_write env input e).0

      s : WriteLoop env
      s = write_records env input now input.records (start_write env input e).1
