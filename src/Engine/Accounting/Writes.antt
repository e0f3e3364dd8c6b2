-- ===== src/Engine/Accounting/Writes.antt =====
-- What `Write` preserves, in every branch: src/core/memory_engine.cpp.
use poorguy_mem.Common.{
  Bool, true, false, ℕ, refl, List, [], ◌∷◌, Text, is_empty, arith, Option-cases, Bool-cases, inl,
  inr, Double,
}
use poorguy_mem.Types.{MemoryRecord, WriteInput, WriteRecordInput}
use poorguy_mem.Engine.State.{Env, Engine, now_ms}
use poorguy_mem.Engine.Persist.{append_projection_event}
use poorguy_mem.Engine.Memory.{upsert_record_in_memory, upsert_all}
use poorguy_mem.Engine.Write.{
  unless_thrown, WriteLoop, write, write_records, write_record, write_with_id, accept_record,
  next_memory_id, start_write, commit_write, persist_batch_now, route_meta, enforce_limit,
  maybe_schedule_gc, dedup_hit,
}
use poorguy_mem.Engine.Accounting.Preserved.{
  State, Holds, Same, Same-trans, Same-Holds, maybe_schedule_gc-Same, IsPreserved,
}

module _ (env : Env) where
  write_with_id-Same :
      (input : WriteInput) (rec_in : WriteRecordInput) (now : ℕ) (id : Text) (s : WriteLoop env)
      → Same env s.engine (write_with_id env input rec_in now id s).engine
  unfolding write_with_id accept_record append_projection_event now_ms
  write_with_id-Same input rec_in now id s = ground arith

  write_record-Same :
      (input : WriteInput) (now : ℕ) (rec_in : WriteRecordInput) (s : WriteLoop env)
      → Same env s.engine (write_record env input now rec_in s).engine
  unfolding write_record next_memory_id now_ms
  write_record-Same input now rec_in s = elim (Bool-cases (is_empty rec_in.content)) [
    | inl e ↦ rw (e, write_record) (refl, refl, refl, refl)
    | inr e ↦ elim (Option-cases (dedup_hit env input rec_in s)) [
      | inr (id, d) ↦ rw (e, write_record, d) (refl, refl, refl, refl)
      | inl d ↦ elim (Bool-cases (is_empty rec_in.record_id)) [
        | inl f ↦ rw (e, write_record, d, f) (write_with_id-Same input rec_in now _ _)
        | inr f ↦ rw (e, write_record, d, f) (write_with_id-Same input rec_in now _ s)
      ]
    ]
  ]

  unless_thrown-Same :
      (thrown : Bool) (s next : WriteLoop env)
      → Same env s.engine next.engine
      → Same env s.engine (unless_thrown env thrown s next).engine
  unless_thrown-Same true s next h = (refl, refl, refl, refl)
  unless_thrown-Same false s next h = h

  pub write_records-Same :
      (input : WriteInput) (now : ℕ) (recs : List WriteRecordInput) (s : WriteLoop env)
      → Same env s.engine (write_records env input now recs s).engine
  unfolding write_records
  write_records-Same input now [] s = (refl, refl, refl, refl)
  write_records-Same input now (r ∷ rs) s =
      let s' = unless_thrown env s.thrown s (write_record env input now r s) in
      Same-trans env s.engine s'.engine (write_records env input now rs s').engine
        (unless_thrown-Same s.thrown s _ (write_record-Same input now r s))
        (write_records-Same input now rs s')

module _ (env : Env) (Q : State env → Type 0) (k : IsPreserved env Q) where
  pub upsert_all-IsPreserved :
      (rs : List MemoryRecord) (e : Engine env) → Holds env Q e → Holds env Q (upsert_all env e rs)
  unfolding upsert_all
  upsert_all-IsPreserved [] e a = a
  upsert_all-IsPreserved (r ∷ rs) e a =
      upsert_all-IsPreserved rs (upsert_record_in_memory env e r) (k.upsert e r a)

  commit_write-IsPreserved :
      (input : WriteInput) (now : ℕ) (ms : Double) (e : Engine env) (s : WriteLoop env)
      → Holds env Q e
      → Holds env Q (commit_write env input now ms e s)
  unfolding commit_write persist_batch_now
  commit_write-IsPreserved input now ms e s a =
      let e1 = upsert_all env e s.upserts in
      let e2 = (persist_batch_now env e1 (route_meta env input now ∷ [])).1 in
      let a2 = k.limit e2 (upsert_all-IsPreserved s.upserts e a) in
      let e3 = enforce_limit env e2 in
      Same-Holds env Q e3 (maybe_schedule_gc env e3) (maybe_schedule_gc-Same env e3) a2

  pub write-IsPreserved :
      (e : Engine env) (input : WriteInput) (ms : Double)
      → Holds env Q e
      → Holds env Q (write env e input ms).1
  unfolding write start_write now_ms persist_batch_now
  write-IsPreserved e input ms a = elim (Bool-cases (is_empty input.workspace_id)) [
    | inl no_workspace ↦ rw (no_workspace, write) a
    | inr f ↦ elim (Bool-cases (is_empty input.records)) [
      | inl no_records ↦ rw (f, write, no_records) a
      | inr g ↦ elim (Bool-cases s.thrown) [
        | inl t ↦ rw (f, write, g, t) after_loop
        | inr t ↦ elim (Bool-cases (is_empty s.writes)) [
          | inl nothing ↦ rw (f, write, g, t, nothing) after_loop
          | inr w ↦ elim (Bool-cases (persist_batch_now env s.engine s.writes).0.ok) [
            | inl ok ↦
                simp (f, write, g, t, w, ok) (commit_write-IsPreserved input now ms _ s after_loop)
            | inr failed ↦ rw (f, write, g, t, w, failed) after_loop
          ]
        ]
      ]
    ]
  ]
    where
      now : ℕ
      now = (start_write env input e).0

      s : WriteLoop env
      s = write_records env input now input.records (start_write env input e).1

      after_loop : Holds env Q s.engine
      after_loop =
          Same-Holds env Q e s.engine
            (write_records-Same env input now input.records (start_write env input e).1) a
