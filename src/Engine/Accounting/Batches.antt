-- ===== src/Engine/Accounting/Batches.antt =====
-- The accounting of the resident bytes through `CompactInternal` and `Warmup` of
-- src/core/memory_engine.cpp.
use poorguy_mem.Common.{
  not, Bool, ◌&&◌, ℕ, ◌≡◌, refl, Bool, true, false, ◌||◌, Option, List, [], ◌∷◌, Text, Map,
  is_empty, Option-cases, Bool-cases, inl, inr, leb, ltb, if◌then◌else◌,
}
use poorguy_mem.Types.{MemoryRecord, KeyValueEntry}
use poorguy_mem.Engine.Keys.{doc_ns, events_ns, projection_ckpt_ns}
use poorguy_mem.Engine.State.{Env, Engine, now_ms, is_over_high_watermark}
use poorguy_mem.Engine.Persist.{
  append_projection_event, delete_record_storage, delete_storage_postings,
}
use poorguy_mem.Tokens.{tokenize}
use poorguy_mem.Tokens.Terms.{unique_terms}
use poorguy_mem.Engine.Memory.{upsert_record_in_memory, upsert_all, remove_record_in_memory}
use poorguy_mem.Engine.Write.{persist_batch_now}
use poorguy_mem.Engine.Pin.{Outcome, done, fail}
use poorguy_mem.Engine.Compact.{
  Batch, compact, compact_internal, plan_batch, apply_batch, tombstone_loop, tombstone_one,
  delete_loop, delete_one, remove_all, too_young, batch_limit, sort_by_rank, values_in_scope,
}
use poorguy_mem.Engine.Warmup.{
  warmup, scan_namespace, load_documents, document_record, replay_projection_events, replay_events,
  replay_event, apply_incoming, should_apply, fill_missing, entries_of,
}
use poorguy_mem.Engine.Warmup.Cases.{replay_event-cases}
use poorguy_mem.Engine.Accounting.Preserved.{
  State, Holds, Same, Same-trans, Same-Holds, IsPreserved,
}
use poorguy_mem.Engine.Accounting.Writes.{upsert_all-IsPreserved}

module _ (env : Env) where
  tombstone_one-Same :
      (now : ℕ) (r : MemoryRecord) (s : Batch env)
      → Same env s.engine (tombstone_one env now r s).engine
  unfolding tombstone_one append_projection_event now_ms
  tombstone_one-Same now r s = (refl, refl, refl, refl)

  delete_storage_postings-Same :
      (e : Engine env) (r : MemoryRecord) (terms : List Text)
      → Same env e (delete_storage_postings env e r terms).1
  unfolding delete_storage_postings now_ms
  delete_storage_postings-Same e r [] = (refl, refl, refl, refl)
  delete_storage_postings-Same e r (t ∷ ts) =
      Same-trans env e (now_ms env e).1 (delete_storage_postings env (now_ms env e).1 r ts).1
        (refl, refl, refl, refl) (delete_storage_postings-Same (now_ms env e).1 r ts)

  delete_record_storage-Same :
      (e : Engine env) (r : MemoryRecord) → Same env e (delete_record_storage env e r).1
  unfolding delete_record_storage now_ms
  delete_record_storage-Same e r =
      delete_storage_postings-Same _ r (unique_terms (tokenize r.content))

  delete_one-Same :
      (now : ℕ) (r : MemoryRecord) (s : Batch env)
      → Same env s.engine (delete_one env now r s).engine
  unfolding delete_one append_projection_event now_ms
  delete_one-Same now r s = delete_record_storage-Same s.engine r

  tombstone_loop-Same :
      (now max_batch : ℕ) (rs : List MemoryRecord) (s : Batch env)
      → Same env s.engine (tombstone_loop env now max_batch rs s).engine
  unfolding tombstone_loop
  tombstone_loop-Same now max_batch [] s = (refl, refl, refl, refl)
  tombstone_loop-Same now max_batch (r ∷ rs) s =
      elim (Bool-cases (leb max_batch s.actions || (r.pinned || r.tombstone))) [
        | inl e ↦ rw (tombstone_loop, e) (tombstone_loop-Same now max_batch rs s)
        | inr e ↦
            rw (tombstone_loop, e)
              (Same-trans env s.engine (tombstone_one env now r s).engine
                (tombstone_loop env now max_batch rs (tombstone_one env now r s)).engine
                (tombstone_one-Same now r s)
                (tombstone_loop-Same now max_batch rs (tombstone_one env now r s)))
      ]

  delete_loop-Same :
      (now max_batch retention : ℕ) (rs : List MemoryRecord) (s : Batch env)
      → Same env s.engine (delete_loop env now max_batch retention rs s).engine
  unfolding delete_loop
  delete_loop-Same now max_batch retention [] s = (refl, refl, refl, refl)
  delete_loop-Same now max_batch retention (r ∷ rs) s =
      elim (Bool-cases (leb max_batch s.actions || too_young env now retention r)) [
        | inl e ↦ rw (delete_loop, e) (delete_loop-Same now max_batch retention rs s)
        | inr e ↦
            rw (delete_loop, e)
              (Same-trans env s.engine (delete_one env now r s).engine
                (delete_loop env now max_batch retention rs (delete_one env now r s)).engine
                (delete_one-Same now r s)
                (delete_loop-Same now max_batch retention rs (delete_one env now r s)))
      ]

  abbrev first_batch : Engine env → Batch env
  first_batch e = record {
    engine = e;
    writes = [];
    upserted = [];
    deleted = [];
    tombstoned_count = 0;
    deleted_count = 0;
    actions = 0;
  }

  either-Same :
      (on : Bool) (e : Engine env) (s s' : Batch env)
      → Same env e s.engine
      → Same env e s'.engine
      → Same env e (if on then s else s').engine
  either-Same true e s s' h h' = h
  either-Same false e s s' h h' = h'

  pub plan_batch-Same :
      (e : Engine env) (workspace_id : Text) (now : ℕ)
      → Same env e (plan_batch env e workspace_id now).engine
  unfolding plan_batch
  plan_batch-Same e workspace_id now =
      either-Same e.options.enable_tombstone_gc e
        (delete_loop env now max_batch retention tombstones s1) s1
        (Same-trans env e s1.engine (delete_loop env now max_batch retention tombstones s1).engine
          first (delete_loop-Same now max_batch retention tombstones s1))
        first
    where
      max_batch : ℕ
      max_batch = batch_limit env e.options

      retention : ℕ
      retention = e.options.tombstone_retention_ms

      active : List MemoryRecord
      active = sort_by_rank env now (values_in_scope workspace_id false e.records)

      tombstones : List MemoryRecord
      tombstones = values_in_scope workspace_id true e.records

      s1 : Batch env
      s1 = tombstone_loop env now max_batch active (first_batch e)

      first : Same env e s1.engine
      first = tombstone_loop-Same now max_batch active (first_batch e)

module _ (env : Env) (Q : State env → Type 0) (k : IsPreserved env Q) where
  remove_all-IsPreserved :
      (rs : List MemoryRecord) (e : Engine env) → Holds env Q e → Holds env Q (remove_all env e rs)
  unfolding remove_all
  remove_all-IsPreserved [] e a = a
  remove_all-IsPreserved (r ∷ rs) e a =
      remove_all-IsPreserved rs (remove_record_in_memory env e r) (k.removal e r a)

  apply_batch-IsPreserved :
      (s : Batch env) → Holds env Q s.engine → Holds env Q (apply_batch env s).1
  unfolding apply_batch persist_batch_now
  apply_batch-IsPreserved s a = elim (Bool-cases (is_empty s.writes)) [
    | inl nothing ↦ rw (apply_batch, nothing) a
    | inr w ↦ elim (Bool-cases (persist_batch_now env s.engine s.writes).0.ok) [
      | inl ok ↦
          let e1 = (persist_batch_now env s.engine s.writes).1 in
          let a2 =
            remove_all-IsPreserved s.deleted (upsert_all env e1 s.upserted)
              (upsert_all-IsPreserved env Q k s.upserted e1 a) in
          elim (Bool-cases (ltb 0 s.deleted_count)) [
            | inl some_deleted ↦ rw (apply_batch, w, ok, some_deleted) a2
            | inr none_deleted ↦ rw (apply_batch, w, ok, none_deleted) a2
          ]
      | inr failed ↦ rw (apply_batch, w, failed) a
    ]
  ]

  pub compact_internal-IsPreserved :
      (e : Engine env) (workspace_id : Text) (force : Bool)
      → Holds env Q e
      → Holds env Q (compact_internal env e workspace_id force).1
  unfolding compact_internal now_ms
  compact_internal-IsPreserved e workspace_id force a =
      let usage = env.store.approximate_usage e.store in
      elim (Bool-cases (not force && not (is_over_high_watermark env.fpu e.options usage))) [
        | inl idle ↦ rw (compact_internal, idle) a
        | inr needed ↦
            rw (compact_internal, needed)
              (let e1 = (now_ms env e).1 in
                let s = plan_batch env e1 workspace_id (now_ms env e).0 in
                apply_batch-IsPreserved s (
                  Same-Holds env Q e1 s.engine
                    (plan_batch-Same env e1 workspace_id (now_ms env e).0) a))
      ]

  pub compact-IsPreserved :
      (e : Engine env) (workspace_id : Text)
      → Holds env Q e
      → Holds env Q (compact env e workspace_id).1
  unfolding compact
  compact-IsPreserved e workspace_id a = compact_internal-IsPreserved e workspace_id true a

  load_documents-IsPreserved :
      (entries : List KeyValueEntry) (e : Engine env)
      → Holds env Q e
      → Holds env Q (load_documents env e entries)
  unfolding load_documents
  load_documents-IsPreserved [] e a = a
  load_documents-IsPreserved (entry ∷ entries) e a =
      elim (Option-cases (document_record env entry)) [
        | inl d ↦ rw (load_documents, d) (load_documents-IsPreserved entries e a)
        | inr (r, d) ↦
            rw (load_documents, d)
              (load_documents-IsPreserved entries (upsert_record_in_memory env e r)
                (k.upsert e r a))
      ]

  apply_incoming-IsPreserved :
      (e : Engine env) (r : MemoryRecord) → Holds env Q e → Holds env Q (apply_incoming env e r)
  unfolding apply_incoming
  apply_incoming-IsPreserved e r a = elim (Bool-cases (should_apply env e r)) [
    | inl newer ↦ rw (apply_incoming, newer) (k.upsert e (fill_missing r) a)
    | inr older ↦ rw (apply_incoming, older) a
  ]

  replay_events-IsPreserved :
      (checkpoints : Map Text) (events : List KeyValueEntry) (e : Engine env)
      → Holds env Q e
      → Holds env Q (replay_events env checkpoints events e)
  unfolding replay_events
  replay_events-IsPreserved checkpoints [] e a = a
  replay_events-IsPreserved checkpoints (event ∷ events) e a =
      replay_events-IsPreserved checkpoints events (replay_event env checkpoints event e)
        (elim (replay_event-cases env checkpoints event e) [
          | inl same ↦ rw (same) a
          | inr (r, applied) ↦ rw (applied) (apply_incoming-IsPreserved e r a)
        ])

  replay_projection_events-IsPreserved :
      (e : Engine env) → Holds env Q e → Holds env Q (replay_projection_events env e).1
  unfolding replay_projection_events
  replay_projection_events-IsPreserved e a = scanned (scan_namespace env e projection_ckpt_ns) refl
    where
      events :
          (o o' : Outcome (Option (List KeyValueEntry)))
          → scan_namespace env e projection_ckpt_ns ≡ o
          → scan_namespace env e events_ns ≡ o'
          → Holds env Q (replay_projection_events env e).1
      events (fail error) o' f g = rw (replay_projection_events, f) a
      events (done ckpts) (fail error) f g = rw (replay_projection_events, f, g) a
      events (done ckpts) (done entries) f g =
          rw (replay_projection_events, f, g) (replay_events-IsPreserved _ _ e a)

      scanned :
          (o : Outcome (Option (List KeyValueEntry)))
          → scan_namespace env e projection_ckpt_ns ≡ o
          → Holds env Q (replay_projection_events env e).1
      scanned o f = events o (scan_namespace env e events_ns) f refl

  pub warmup-IsPreserved : (e : Engine env) → Holds env Q e → Holds env Q (warmup env e).1
  unfolding warmup
  warmup-IsPreserved e a = scanned (scan_namespace env e doc_ns) refl
    where
      replayed :
          (entries : Option (List KeyValueEntry)) (o : Outcome (Unit {0}))
          → scan_namespace env e doc_ns ≡ done entries
          → (replay_projection_events env (load_documents env e (entries_of env entries))).0 ≡ o
          → Holds env Q (warmup env e).1
      replayed entries (fail error) f g =
          rw (warmup, f, g)
            (replay_projection_events-IsPreserved _
              (load_documents-IsPreserved (entries_of env entries) e a))
      replayed entries (done _) f g =
          rw (warmup, f, g)
            (k.limit _ (
              replay_projection_events-IsPreserved _
                (load_documents-IsPreserved (entries_of env entries) e a)))

      scanned :
          (o : Outcome (Option (List KeyValueEntry)))
          → scan_namespace env e doc_ns ≡ o
          → Holds env Q (warmup env e).1
      scanned (fail error) f = rw (warmup, f) a
      scanned (done entries) f = replayed entries _ f refl
