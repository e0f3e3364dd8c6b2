-- ===== src/Engine/Warmup/Replay.antt =====
-- `IsIncomingNewer` and `ReplayProjectionEvents` of src/core/memory_engine.cpp: what the replay of
-- the event log does to the resident records.
use poorguy_mem.Common.{
  ◌≡◌, refl, ◌∙◌, true, false, some, List, [], ◌∷◌, Text, text_eq, Map, find, find-insert, arith,
  Bool-cases, ◌⊎◌, inl, inr, text_eq_iff, text_lt_irrefl, text_lt_trans, text_lt_total,
}
use poorguy_mem.Types.{MemoryRecord, KeyValueEntry}
use poorguy_mem.Engine.Keys.{record_map_key}
use poorguy_mem.Engine.State.{Env, Engine, is_incoming_newer}
use poorguy_mem.Engine.Memory.{upsert_record_in_memory}
use poorguy_mem.Engine.Warmup.{replay_events, apply_incoming, should_apply, fill_missing}
use poorguy_mem.Engine.Warmup.Cases.{replay_event-cases}

-- Last writer wins: no version is newer than itself, and what is newer than a newer version is newer.
pub is_incoming_newer_trans :
    (r s t : MemoryRecord)
    → is_incoming_newer r s ≡ true
    → is_incoming_newer s t ≡ true
    → (is_incoming_newer r r ≡ false) × (is_incoming_newer r t ≡ true)
unfolding is_incoming_newer
is_incoming_newer_trans r s t h k = (
  ground (arith, text_lt_irrefl r.node_id),
  ground (arith, h, k, text_lt_trans r.node_id s.node_id t.node_id),
)

-- Two versions of which neither is newer than the other have the same time, version and node.
pub is_incoming_newer_total :
    (r s : MemoryRecord)
    → is_incoming_newer r s ≡ false
    → is_incoming_newer s r ≡ false
    → (r.updated_at_ms ≡ s.updated_at_ms) × (r.version ≡ s.version) × (r.node_id ≡ s.node_id)
unfolding is_incoming_newer
is_incoming_newer_total r s h k = ground (arith, h, k, text_lt_total r.node_id s.node_id)

-- The same version, or a newer one.
abbrev pub IsKept : MemoryRecord → MemoryRecord → Type 0
IsKept r r' = (r' ≡ r) ⊎ (is_incoming_newer r r' ≡ true)

IsKept-trans : (r s t : MemoryRecord) → IsKept r s → IsKept s t → IsKept r t
IsKept-trans r s t (inl p) (inl q) = inl (q ∙ p)
IsKept-trans r s t (inl p) (inr q) = inr (rw (← p) q)
IsKept-trans r s t (inr p) (inl q) = inr (rw q p)
IsKept-trans r s t (inr p) (inr q) = inr (is_incoming_newer_trans r s t p q).1

-- Whatever a record lacks, its version is not filled in.
fill_missing-newer :
    (r s : MemoryRecord) → is_incoming_newer r (fill_missing s) ≡ is_incoming_newer r s
unfolding fill_missing is_incoming_newer
fill_missing-newer r s = ground arith

fill_missing-ids :
    (s : MemoryRecord)
    → ((fill_missing s).workspace_id ≡ s.workspace_id) × ((fill_missing s).id ≡ s.id)
unfolding fill_missing
fill_missing-ids s = ground arith

module _ (env : Env) where
  apply_incoming-keeps :
      (e : Engine env) (s : MemoryRecord) (k : Text) (r : MemoryRecord)
      → find k e.records ≡ some r
      → (r' : MemoryRecord) × (find k (apply_incoming env e s).records ≡ some r') × IsKept r r'
  unfolding apply_incoming should_apply upsert_record_in_memory
  apply_incoming-keeps e s k r h = elim (Bool-cases (should_apply env e s)) [
    | inr older ↦ (r, rw (apply_incoming, older) h, inl refl)
    | inl newer ↦ elim (Bool-cases (text_eq (record_map_key s.workspace_id s.id) k)) [
      | inl same ↦ (
        fill_missing s,
        rw
            (
              apply_incoming,
              newer,
              (fill_missing-ids s).0,
              (fill_missing-ids s).1,
              find-insert,
              same,
            )
            refl,
        inr (
            ground (
              arith,
              newer,
              h,
              fill_missing-newer r s,
              text_eq_iff (record_map_key s.workspace_id s.id) k,
            )),
      )
      | inr other ↦ (
        r,
        rw
            (
              apply_incoming,
              newer,
              (fill_missing-ids s).0,
              (fill_missing-ids s).1,
              find-insert,
              other,
            )
            h,
        inl refl,
      )
    ]
  ]

  -- Whatever the log holds, a resident record is still resident under its key after the replay,
  -- and what stands there is the same version or one that is strictly newer.
  pub replay_events-keeps :
      (checkpoints : Map Text) (events : List KeyValueEntry) (e : Engine env) (k : Text)
      (r : MemoryRecord)
      → find k e.records ≡ some r
      → (r' : MemoryRecord) × (find k (replay_events env checkpoints events e).records ≡ some r')
        × IsKept r r'
  unfolding replay_events
  replay_events-keeps checkpoints [] e k r h = (r, h, inl refl)
  replay_events-keeps checkpoints (event ∷ events) e k r h =
      elim (replay_event-cases env checkpoints event e) [
        | inl same ↦ rw (replay_events, same) (replay_events-keeps checkpoints events e k r h)
        | inr (s, applied) ↦
            let (r1, h1, kept1) = apply_incoming-keeps e s k r h in
            let (r2, h2, kept2) =
              replay_events-keeps checkpoints events (apply_incoming env e s) k r1 h1 in
            (r2, rw (replay_events, applied) h2, IsKept-trans r r1 r2 kept1 kept2)
      ]
