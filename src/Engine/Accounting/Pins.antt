-- ===== src/Engine/Accounting/Pins.antt =====
-- What `Pin` of src/core/memory_engine.cpp preserves, in every branch.
use poorguy_mem.Common.{◌≡◌, refl, Bool, List, Text, Option-cases, Bool-cases, inl, inr}
use poorguy_mem.Types.{MemoryRecord, WriteEntry}
use poorguy_mem.Engine.State.{Env, Engine, now_ms}
use poorguy_mem.Engine.Persist.{append_projection_event}
use poorguy_mem.Engine.Memory.{upsert_record_in_memory}
use poorguy_mem.Engine.Write.{persist_batch_now, enforce_limit, maybe_schedule_gc}
use poorguy_mem.Engine.Pin.{
  Outcome, done, fail, pin, apply_pin, commit_pin, load_record, pin_refusal,
}
use poorguy_mem.Engine.Accounting.Preserved.{
  State, Holds, Same-Holds, maybe_schedule_gc-Same, IsPreserved,
}

module _ (env : Env) (Q : State env → Type 0) (k : IsPreserved env Q) where
  commit_pin-IsPreserved :
      (e : Engine env) (writes : List WriteEntry) (r : MemoryRecord)
      → Holds env Q e
      → Holds env Q (commit_pin env e writes r).1
  unfolding persist_batch_now commit_pin
  commit_pin-IsPreserved e writes r a = elim (Bool-cases (persist_batch_now env e writes).0.ok) [
    | inl ok ↦
        let e1 = (persist_batch_now env e writes).1 in
        let e2 = enforce_limit env (upsert_record_in_memory env e1 r) in
        rw (ok, commit_pin)
          (Same-Holds env Q e2 (maybe_schedule_gc env e2) (maybe_schedule_gc-Same env e2)
            (k.limit (upsert_record_in_memory env e1 r) (k.upsert e1 r a)))
    | inr failed ↦ rw (failed, commit_pin) a
  ]

  apply_pin-IsPreserved :
      (e : Engine env) (r : MemoryRecord) (on : Bool)
      → Holds env Q e
      → Holds env Q (apply_pin env e r on).1
  unfolding apply_pin append_projection_event now_ms
  apply_pin-IsPreserved e r on a = commit_pin-IsPreserved _ _ _ a

  pub pin-IsPreserved :
      (e : Engine env) (workspace_id memory_id : Text) (on : Bool)
      → Holds env Q e
      → Holds env Q (pin env e workspace_id memory_id on).1
  unfolding pin
  pin-IsPreserved e workspace_id memory_id on a =
      loaded (load_record env e workspace_id memory_id) refl
    where
      loaded :
          (o : Outcome MemoryRecord)
          → load_record env e workspace_id memory_id ≡ o
          → Holds env Q (pin env e workspace_id memory_id on).1
      loaded (fail error) f = rw (f, pin) a
      loaded (done r) f = elim (Option-cases (pin_refusal env e workspace_id r on)) [
        | inl g ↦ rw (f, pin, g) (apply_pin-IsPreserved e r on a)
        | inr (error, g) ↦ rw (f, pin, g) a
      ]
