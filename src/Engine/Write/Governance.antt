-- ===== src/Engine/Write/Governance.antt =====
-- The loop of `MemoryEngine::Write` of src/core/memory_engine.cpp over the records of a request: the
-- pin quota, the size limit and the ids that are reported.
use poorguy_mem.Common.{
  false, ℕ, ◌+◌, ◌≤◌, ◌≡◌, refl, ap, sym, ◌∙◌, max, Bool, true, List, [], ◌∷◌, ◌++◌, Text, map,
  is_empty, arith, Option-cases, Bool-cases, inl, inr, ltb, if◌then◌else◌, All, All-append,
}
use poorguy_mem.Types.{MemoryRecord, WriteInput, WriteRecordInput}
use poorguy_mem.Engine.State.{Env, Options, Engine, now_ms, compute_workspace_pin_stats}
use poorguy_mem.Engine.Codec.{serializes}
use poorguy_mem.Engine.Persist.{append_projection_event}
use poorguy_mem.Engine.Write.{
  unless_thrown, WriteLoop, write_records, write_record, write_with_id, accept_record,
  next_memory_id, dedup_hit, govern_pin, build_record, start_write,
}

-- How many records of a list are pinned.
abbrev pub pinned_total : List MemoryRecord → ℕ
pinned_total [] = 0
pinned_total (r ∷ rs) = (if r.pinned then 1 else 0) + pinned_total rs

pinned_total-append :
    (rs ss : List MemoryRecord) → pinned_total (rs ++ ss) ≡ pinned_total rs + pinned_total ss
pinned_total-append [] ss = omega arith
pinned_total-append (r ∷ rs) ss = omega (arith, pinned_total-append rs ss)

abbrev ids : List MemoryRecord → List Text
ids rs = map (λ (r : MemoryRecord). r.id) rs

ids-append : (rs ss : List MemoryRecord) → ids (rs ++ ss) ≡ ids rs ++ ids ss
ids-append [] ss = refl
ids-append (r ∷ rs) ss = ap (◌∷◌ r.id) (ids-append rs ss)

module _ (env : Env) where
  -- What holds of the variables of the loop: `start` is the number of pinned records before it.
  pub record IsGoverned (options : Options) (workspace_id : Text) (start : ℕ) (s : WriteLoop env)
      : Type 0 where
    pub options_kept : s.engine.options ≡ options
    pub counted : s.projected_pinned ≡ start + pinned_total s.upserts
    pub within_quota : s.projected_pinned ≤ max start options.pin_quota_per_workspace
    pub stored : s.stored_ids ≡ ids s.upserts
    pub sized :
        All
          (λ (r : MemoryRecord).
            (r.size_bytes ≤ options.max_record_bytes) × (r.workspace_id ≡ workspace_id))
          s.upserts

  govern_pin-quota :
      (options : Options) (active pinned : ℕ) (id : Text) (pin : Bool)
      → (govern_pin env options active pinned id pin).0 ≡ true
      → pinned + 1 ≤ options.pin_quota_per_workspace
  unfolding govern_pin
  govern_pin-quota options active pinned id pin h = ground (arith, h)

  accept_record-IsGoverned :
      (options : Options) (workspace_id : Text) (start now : ℕ) (r : MemoryRecord)
      (s : WriteLoop env)
      → r.size_bytes ≤ options.max_record_bytes
      → r.workspace_id ≡ workspace_id
      → (r.pinned ≡ true → s.projected_pinned + 1 ≤ options.pin_quota_per_workspace)
      → IsGoverned options workspace_id start s
      → IsGoverned options workspace_id start (accept_record env now r s)
  unfolding accept_record append_projection_event now_ms
  accept_record-IsGoverned options workspace_id start now r s fits own quota g = record {
    options_kept = g.options_kept;
    counted = ground (arith, g.counted, pinned_total-append s.upserts (r ∷ []));
    within_quota = ground (arith, g.within_quota, quota);
    stored = ap (λ l. l ++ r.id ∷ []) g.stored ∙ sym (ids-append s.upserts (r ∷ []));
    sized = All-append _ s.upserts (r ∷ []) g.sized ((fits, own), tt);
  }

  build_record-facts :
      (options : Options) (node_id : Text) (input : WriteInput) (rec_in : WriteRecordInput)
      (now : ℕ) (id : Text) (pinned : Bool)
      → ((build_record env options node_id input rec_in now id pinned).workspace_id
          ≡ input.workspace_id)
        × ((build_record env options node_id input rec_in now id pinned).pinned ≡ pinned)
  unfolding build_record
  build_record-facts options node_id input rec_in now id pinned = (refl, refl)

  abbrev build_next : WriteInput → WriteRecordInput → ℕ → Text → WriteLoop env → MemoryRecord
  build_next input rec_in now id s =
      build_record env s.engine.options s.engine.node_id input rec_in now id
        (govern_pin env s.engine.options s.projected_active s.projected_pinned id rec_in.pin).0

  write_with_id-IsGoverned :
      (options : Options) (start : ℕ) (input : WriteInput) (rec_in : WriteRecordInput) (now : ℕ)
      (id : Text) (s : WriteLoop env)
      → IsGoverned options input.workspace_id start s
      → IsGoverned options input.workspace_id start (write_with_id env input rec_in now id s)
  unfolding write_with_id
  write_with_id-IsGoverned options start input rec_in now id s g =
      elim (Bool-cases
        (ltb s.engine.options.max_record_bytes (build_next input rec_in now id s).size_bytes)) [
          | inl large ↦
              rw (write_with_id, large)
                (record {
                  options_kept = g.options_kept;
                  counted = g.counted;
                  within_quota = g.within_quota;
                  stored = g.stored;
                  sized = g.sized;
                })
          | inr fits ↦ elim (Bool-cases (serializes env (build_next input rec_in now id s))) [
            | inr refused ↦
                rw (write_with_id, fits, refused)
                  (record {
                    options_kept = g.options_kept;
                    counted = g.counted;
                    within_quota = g.within_quota;
                    stored = g.stored;
                    sized = g.sized;
                  })
            | inl written ↦
                rw (write_with_id, fits, written)
                  (accept_record-IsGoverned options input.workspace_id start now
                    (build_next input rec_in now id s) _
                    (ground (arith, fits, ap (λ (o : Options). o.max_record_bytes) g.options_kept))
                    facts.0
                    (λ h.
                      let q =
                        govern_pin-quota s.engine.options s.projected_active s.projected_pinned id
                          rec_in.pin (sym facts.1 ∙ h) in
                      ground
                        (arith, q, ap (λ (o : Options). o.pin_quota_per_workspace) g.options_kept))
                    (record {
                      options_kept = g.options_kept;
                      counted = g.counted;
                      within_quota = g.within_quota;
                      stored = g.stored;
                      sized = g.sized;
                    }))
          ]
        ]
    where
      facts :
          ((build_next input rec_in now id s).workspace_id ≡ input.workspace_id)
          × ((build_next input rec_in now id s).pinned
              ≡ (govern_pin env s.engine.options s.projected_active s.projected_pinned id
                  rec_in.pin).0)
      facts = build_record-facts s.engine.options s.engine.node_id input rec_in now id _

  regoverned :
      (options : Options) (workspace_id : Text) (start : ℕ) (s s' : WriteLoop env)
      → s'.engine.options ≡ s.engine.options
      → s'.projected_pinned ≡ s.projected_pinned
      → s'.upserts ≡ s.upserts
      → s'.stored_ids ≡ s.stored_ids
      → IsGoverned options workspace_id start s
      → IsGoverned options workspace_id start s'
  regoverned options workspace_id start s s' o p u i g = record {
    options_kept = o ∙ g.options_kept;
    counted = rw (p, u) g.counted;
    within_quota = rw p g.within_quota;
    stored = rw (i, u) g.stored;
    sized = rw u g.sized;
  }

  write_record-IsGoverned :
      (options : Options) (start : ℕ) (input : WriteInput) (now : ℕ) (rec_in : WriteRecordInput)
      (s : WriteLoop env)
      → IsGoverned options input.workspace_id start s
      → IsGoverned options input.workspace_id start (write_record env input now rec_in s)
  unfolding write_record next_memory_id now_ms
  write_record-IsGoverned options start input now rec_in s g =
      elim (Bool-cases (is_empty rec_in.content)) [
        | inl e ↦
            rw (e, write_record)
              (regoverned options input.workspace_id start s _ refl refl refl refl g)
        | inr e ↦ elim (Option-cases (dedup_hit env input rec_in s)) [
          | inr (id, d) ↦
              rw (e, write_record, d)
                (regoverned options input.workspace_id start s _ refl refl refl refl g)
          | inl d ↦ elim (Bool-cases (is_empty rec_in.record_id)) [
            | inl f ↦
                rw (e, write_record, d, f)
                  (write_with_id-IsGoverned options start input rec_in now _ _
                    (regoverned options input.workspace_id start s _ refl refl refl refl g))
            | inr f ↦
                rw (e, write_record, d, f)
                  (write_with_id-IsGoverned options start input rec_in now _ s g)
          ]
        ]
      ]

  unless_thrown-IsGoverned :
      {options : Options} {workspace_id : Text} {start : ℕ} (thrown : Bool) (s next : WriteLoop env)
      → IsGoverned options workspace_id start s
      → IsGoverned options workspace_id start next
      → IsGoverned options workspace_id start (unless_thrown env thrown s next)
  unless_thrown-IsGoverned true s next g h = g
  unless_thrown-IsGoverned false s next g h = h

  write_records-IsGoverned :
      (options : Options) (start : ℕ) (input : WriteInput) (now : ℕ) (recs : List WriteRecordInput)
      (s : WriteLoop env)
      → IsGoverned options input.workspace_id start s
      → IsGoverned options input.workspace_id start (write_records env input now recs s)
  unfolding write_records
  write_records-IsGoverned options start input now [] s g = g
  write_records-IsGoverned options start input now (r ∷ rs) s g =
      write_records-IsGoverned options start input now rs _ (
        unless_thrown-IsGoverned s.thrown s _ g
          (write_record-IsGoverned options start input now r s g))

  -- Whatever records a request holds: the ids it reports are those of the records it upserts, all of
  -- them of its workspace and within the size limit; and the pinned ones among them, with the pinned
  -- records that were there before, are at most the quota, or at most as many as before.
  pub write_loop-IsGoverned :
      (e : Engine env) (input : WriteInput)
      → IsGoverned e.options input.workspace_id
          (compute_workspace_pin_stats e.records input.workspace_id).pinned
          (write_records env input
            (start_write env input e).0
            input.records
            (start_write env input e).1)
  unfolding start_write now_ms
  write_loop-IsGoverned e input =
      write_records-IsGoverned e.options _ input _ input.records _ (record {
        options_kept = refl;
        counted = omega arith;
        within_quota = omega arith;
        stored = refl;
        sized = tt;
      })
