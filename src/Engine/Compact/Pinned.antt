-- ===== src/Engine/Compact/Pinned.antt =====
-- `CompactInternal` of src/core/memory_engine.cpp: the pinned records come through a compaction.
use poorguy_mem.Common.{
  ℕ, ◌≡◌, refl, ap, ◌∙◌, Bool, true, false, ◌||◌, ◌&&◌, not, some, List, [], ◌∷◌, Text, text_eq,
  Map, find, find-insert, find-erase, is_empty, arith, Option-cases, Bool-cases, inl, inr, leb, ltb,
  if◌then◌else◌, All, All-append, All-mono, All-self, All-zip, All-insert_by, text_eq_iff,
}
use poorguy_mem.Types.{MemoryRecord}
use poorguy_mem.Engine.State.{Env, Engine, now_ms}
use poorguy_mem.Engine.Memory.{upsert_record_in_memory, upsert_all, remove_record_in_memory}
use poorguy_mem.Engine.Memory.Charges.{Charged, own_key}
use poorguy_mem.Engine.Write.{persist_batch_now}
use poorguy_mem.Engine.Compact.{
  Batch, compact, compact_internal, plan_batch, apply_batch, tombstone_loop, tombstone_one,
  tombstone_of, delete_loop, delete_one, remove_all, too_young, batch_limit, sort_by_rank,
  values_in_scope, in_scope, ranks_before,
}
use poorguy_mem.Engine.Accounting.Batches.{plan_batch-Same}

-- What a compaction takes out of the records: the records of one tombstone flag.
abbrev FlagIs : Bool → MemoryRecord → Type 0
FlagIs tombstone r = r.tombstone ≡ tombstone

module _ (k : Text) where
  -- The record stands under another key than `k`.
  abbrev Elsewhere : MemoryRecord → Type 0
  Elsewhere r = text_eq (own_key r) k ≡ false

  -- The record is not the one of `k`, if it is not pinned.
  abbrev Movable : MemoryRecord → Type 0
  Movable r = r.pinned ≡ false → Elsewhere r

  module _ (kept : MemoryRecord) (kept_pinned : kept.pinned ≡ true)
      (kept_active : kept.tombstone ≡ false) where
    -- What the map holds under `k` is the kept record.
    abbrev Fits : Text × MemoryRecord → Type 0
    Fits x = (own_key x.1 ≡ x.0) × (text_eq x.0 k ≡ true → x.1 ≡ kept)

    active-Movable :
        (workspace_id : Text) (m : Map MemoryRecord)
        → All Fits m
        → All Movable (values_in_scope workspace_id false m)
    unfolding values_in_scope
    active-Movable workspace_id [] a = tt
    active-Movable workspace_id ((j, r) ∷ m) a =
        elim (Bool-cases (in_scope workspace_id r && not r.tombstone)) [
          | inl e ↦
              rw (values_in_scope, e)
                (
                  λ unpinned. elim (Bool-cases (text_eq j k)) [
                    | inl same ↦ cc (unpinned, a.0.1 same, kept_pinned)
                    | inr other ↦ rw (a.0.0) other
                  ],
                  active-Movable workspace_id m a.1,
                )
          | inr e ↦ rw (values_in_scope, e) (active-Movable workspace_id m a.1)
        ]

    tombstones-Elsewhere :
        (workspace_id : Text) (m : Map MemoryRecord)
        → All Fits m
        → All Elsewhere (values_in_scope workspace_id true m)
    unfolding values_in_scope
    tombstones-Elsewhere workspace_id [] a = tt
    tombstones-Elsewhere workspace_id ((j, r) ∷ m) a =
        elim (Bool-cases (in_scope workspace_id r && r.tombstone)) [
          | inl e ↦
              rw (values_in_scope, e)
                (
                  elim (Bool-cases (text_eq j k)) [
                    | inl same ↦
                        let dead : r.tombstone ≡ true = ground (arith, e) in
                        cc (dead, a.0.1 same, kept_active)
                    | inr other ↦ rw (a.0.0) other
                  ],
                  tombstones-Elsewhere workspace_id m a.1,
                )
          | inr e ↦ rw (values_in_scope, e) (tombstones-Elsewhere workspace_id m a.1)
        ]

  module _ (env : Env) where
    abbrev Spares : Batch env → Type 0
    Spares s = All Elsewhere s.upserted × All Elsewhere s.deleted

    sort_by_rank-Movable :
        (now : ℕ) (rs : List MemoryRecord) → All Movable rs → All Movable (sort_by_rank env now rs)
    unfolding sort_by_rank
    sort_by_rank-Movable now [] a = tt
    sort_by_rank-Movable now (r ∷ rs) a =
        All-insert_by Movable (ranks_before env now) r (sort_by_rank env now rs) a.0
          (sort_by_rank-Movable now rs a.1)

    tombstone_one-Spares :
        (now : ℕ) (r : MemoryRecord) (s : Batch env)
        → Elsewhere r
        → Spares s
        → Spares (tombstone_one env now r s)
    unfolding tombstone_one tombstone_of
    tombstone_one-Spares now r s h a = (All-append Elsewhere s.upserted _ a.0 (h, tt), a.1)

    tombstone_loop-Spares :
        (now max_batch : ℕ) (rs : List MemoryRecord) (s : Batch env)
        → All Movable rs
        → Spares s
        → Spares (tombstone_loop env now max_batch rs s)
    unfolding tombstone_loop
    tombstone_loop-Spares now max_batch [] s h a = a
    tombstone_loop-Spares now max_batch (r ∷ rs) s h a =
        elim (Bool-cases (leb max_batch s.actions || (r.pinned || r.tombstone))) [
          | inl e ↦ rw (tombstone_loop, e) (tombstone_loop-Spares now max_batch rs s h.1 a)
          | inr e ↦
              rw (tombstone_loop, e)
                (tombstone_loop-Spares now max_batch rs (tombstone_one env now r s) h.1
                  (tombstone_one-Spares now r s (h.0 (ground (arith, e))) a))
        ]

    delete_one-Spares :
        (now : ℕ) (r : MemoryRecord) (s : Batch env)
        → Elsewhere r
        → Spares s
        → Spares (delete_one env now r s)
    unfolding delete_one
    delete_one-Spares now r s h a = (a.0, All-append Elsewhere s.deleted _ a.1 (h, tt))

    delete_loop-Spares :
        (now max_batch retention : ℕ) (rs : List MemoryRecord) (s : Batch env)
        → All Elsewhere rs
        → Spares s
        → Spares (delete_loop env now max_batch retention rs s)
    unfolding delete_loop
    delete_loop-Spares now max_batch retention [] s h a = a
    delete_loop-Spares now max_batch retention (r ∷ rs) s h a =
        elim (Bool-cases (leb max_batch s.actions || too_young env now retention r)) [
          | inl e ↦ rw (delete_loop, e) (delete_loop-Spares now max_batch retention rs s h.1 a)
          | inr e ↦
              rw (delete_loop, e)
                (delete_loop-Spares now max_batch retention rs (delete_one env now r s) h.1
                  (delete_one-Spares now r s h.0 a))
        ]

    upsert_all-Elsewhere :
        (rs : List MemoryRecord) (e : Engine env)
        → All Elsewhere rs
        → find k (upsert_all env e rs).records ≡ find k e.records
    unfolding upsert_all upsert_record_in_memory
    upsert_all-Elsewhere [] e a = refl
    upsert_all-Elsewhere (r ∷ rs) e a =
        upsert_all-Elsewhere rs (upsert_record_in_memory env e r) a.1 ∙ rw (find-insert, a.0) refl

    remove_one-Elsewhere :
        (r : MemoryRecord) (e : Engine env)
        → Elsewhere r
        → find k (remove_record_in_memory env e r).records ≡ find k e.records
    unfolding remove_record_in_memory
    remove_one-Elsewhere r e h = elim (Option-cases (find (own_key r) e.records)) [
      | inl absent ↦ rw (remove_record_in_memory, absent) refl
      | inr (old, there) ↦ rw (remove_record_in_memory, there, find-erase, h) refl
    ]

    remove_all-Elsewhere :
        (rs : List MemoryRecord) (e : Engine env)
        → All Elsewhere rs
        → find k (remove_all env e rs).records ≡ find k e.records
    unfolding remove_all
    remove_all-Elsewhere [] e a = refl
    remove_all-Elsewhere (r ∷ rs) e a =
        remove_all-Elsewhere rs (remove_record_in_memory env e r) a.1 ∙ remove_one-Elsewhere r e a.0

    apply_batch-Elsewhere :
        (s : Batch env) → Spares s → find k (apply_batch env s).1.records ≡ find k s.engine.records
    unfolding apply_batch persist_batch_now
    apply_batch-Elsewhere s a = elim (Bool-cases (is_empty s.writes)) [
      | inl nothing ↦ rw (apply_batch, nothing) refl
      | inr w ↦ elim (Bool-cases (persist_batch_now env s.engine s.writes).0.ok) [
        | inl ok ↦
            let e1 = (persist_batch_now env s.engine s.writes).1 in
            let same =
              remove_all-Elsewhere s.deleted (upsert_all env e1 s.upserted) a.1
              ∙ upsert_all-Elsewhere s.upserted e1 a.0 in
            elim (Bool-cases (ltb 0 s.deleted_count)) [
              | inl some_deleted ↦ rw (apply_batch, w, ok, some_deleted) same
              | inr none_deleted ↦ rw (apply_batch, w, ok, none_deleted) same
            ]
        | inr failed ↦ rw (apply_batch, w, failed) refl
      ]
    ]

module _ (env : Env) where
  plan_batch-Spares :
      (e : Engine env) (workspace_id : Text) (now : ℕ) (k : Text) (r : MemoryRecord)
      → (p : r.pinned ≡ true) → (t : r.tombstone ≡ false) → All (Fits k r p t) e.records
      → Spares k env (plan_batch env e workspace_id now)
  unfolding plan_batch
  plan_batch-Spares e workspace_id now k r p t fits =
      either e.options.enable_tombstone_gc _ _
        (delete_loop-Spares k env now _ _ _ _
          (tombstones-Elsewhere k r p t workspace_id e.records fits) first)
        first
    where
      first : Spares k env (
          tombstone_loop env now
            (batch_limit env e.options)
            (sort_by_rank env now (values_in_scope workspace_id false e.records))
            (record {
              engine = e;
              writes = [];
              upserted = [];
              deleted = [];
              tombstoned_count = 0;
              deleted_count = 0;
              actions = 0;
            }))
      first =
          tombstone_loop-Spares k env now _ _ _
            (sort_by_rank-Movable k env now _ (active-Movable k r p t workspace_id e.records fits))
            (tt, tt)

      either :
          (on : Bool) (s s' : Batch env)
          → Spares k env s
          → Spares k env s'
          → Spares k env (if on then s else s')
      either true s s' h h' = h
      either false s s' h h' = h'

  -- In an engine whose charges are accounted, a resident record that is pinned and no tombstone
  -- stands unchanged under its key after any compaction, of its workspace or of all, whether the
  -- store takes the batch or not.
  pub compact_keeps_pinned :
      (e : Engine env) (workspace_id k : Text) (r : MemoryRecord)
      → Charged e
      → find k e.records ≡ some r
      → r.pinned ≡ true
      → r.tombstone ≡ false
      → find k (compact env e workspace_id).1.records ≡ some r
  unfolding compact compact_internal now_ms
  compact_keeps_pinned e workspace_id k r a there p t =
      let e1 = (now_ms env e).1 in
      let now = (now_ms env e).0 in
      let s = plan_batch env e1 workspace_id now in
      apply_batch-Elsewhere k env s (plan_batch-Spares e1 workspace_id now k r p t fits)
      ∙ (ap (find k) (plan_batch-Same env e1 workspace_id now).0 ∙ there)
    where
      fits : All (Fits k r p t) e.records
      fits =
          All-mono _ (Fits k r p t) e.records
            (λ x h. (h.0, λ same. cc (h.1, (text_eq_iff x.0 k).0 same, there)))
            (All-zip (λ (x : Text × MemoryRecord). own_key x.1 ≡ x.0)
              (λ (x : Text × MemoryRecord). find x.0 e.records ≡ some x.1) e.records a.keyed
              (All-self e.records a.records_unique))
