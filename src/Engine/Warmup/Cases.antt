-- ===== src/Engine/Warmup/Cases.antt =====
-- One round of the loop of `ReplayProjectionEvents` of src/core/memory_engine.cpp, by its outcome.
use poorguy_mem.Common.{
  ◌≡◌, refl, ◌||◌, Text, Map, is_empty, Option-cases, Bool-cases, ◌⊎◌, inl, inr,
}
use poorguy_mem.Types.{MemoryRecord, KeyValueEntry}
use poorguy_mem.Engine.State.{Env, Engine}
use poorguy_mem.Engine.Warmup.{
  replay_event, apply_incoming, event_record, is_checkpointed, event_workspace,
}

module _ (env : Env) where
  -- An event either changes nothing or puts in the record that it carries.
  pub replay_event-cases :
      (checkpoints : Map Text) (event : KeyValueEntry) (e : Engine env)
      → (replay_event env checkpoints event e ≡ e)
        ⊎ ((r : MemoryRecord) × (replay_event env checkpoints event e ≡ apply_incoming env e r))
  unfolding replay_event
  replay_event-cases checkpoints event e = elim (Option-cases (env.tree.read_json event.value)) [
    | inl j ↦ inl (rw (replay_event, j) refl)
    | inr (json, j) ↦
        elim (Bool-cases (
          is_empty (event_workspace env event json)
          || is_checkpointed env checkpoints (event_workspace env event json) event.key)) [
            | inl skip ↦ inl (rw (replay_event, j, skip) refl)
            | inr go ↦
                elim (Option-cases (event_record env (event_workspace env event json) json)) [
                  | inl n ↦ inl (rw (replay_event, j, go, n) refl)
                  | inr (r, n) ↦ inr (r, rw (replay_event, j, go, n) refl)
                ]
          ]
  ]
