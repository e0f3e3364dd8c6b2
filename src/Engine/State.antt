-- ===== src/Engine/State.antt =====
-- The state of `MemoryEngine` (include/pgmem/core/memory_engine.h), what it is built over, and the
-- small functions at the head of src/core/memory_engine.cpp.
use poorguy_mem.Common.{
  ℕ, ◌+◌, ◌-◌, max, Bool, true, false, ◌&&◌, ◌||◌, not, List, [], ◌∷◌, Text, text, text_eq, text_lt,
  if◌then◌else◌, ltb, leb, ◌==◌, Map, length, mul64, Double, Fpu,
}
use poorguy_mem.Types.{MemoryRecord, StoreUsage}
use poorguy_mem.Store.{StoreAdapter}
use poorguy_mem.Retriever.{Retriever}
use poorguy_mem.Json.{Ptree}
use poorguy_mem.Metrics.{Metrics}

-- What the engine is built over: the backends behind their interfaces, the JSON library, the
-- floating-point units, the hash of the standard library, and the clock. `clock n` is what the
-- `n`-th call of `util::NowMs` returns.
pub record Env : Type 1 where
  pub store : StoreAdapter
  pub retriever : Retriever
  pub tree : Ptree
  pub fpu : Fpu
  pub float : Fpu
  pub hash : Text → ℕ
  pub clock : ℕ → ℕ

-- `MemoryEngineOptions`
pub record Options : Type 0 where
  pub mem_budget_mb : ℕ
  pub disk_budget_gb : ℕ
  pub gc_high_watermark : Double
  pub gc_low_watermark : Double
  pub gc_batch_size : ℕ
  pub max_record_bytes : ℕ
  pub enable_tombstone_gc : Bool
  pub tombstone_retention_ms : ℕ
  pub max_pinned_ratio : Double
  pub pin_ttl_override_s : ℕ
  pub pin_quota_per_workspace : ℕ
  pub effective_backend : Text

pub record Engine (env : Env) : Type 0 where
  pub store : env.store.State
  pub retriever : env.retriever.State
  pub metrics : Metrics
  pub options : Options
  pub node_id : Text
  pub local_seq : ℕ
  pub index_generation : ℕ
  pub records : Map MemoryRecord
  pub dedup_index : Map Text
  pub resident_charge_bytes : Map ℕ
  pub resident_used_bytes : ℕ
  pub resident_evicted_count : ℕ
  pub disk_fallback_search_count : ℕ
  pub cold_rehydrate_count : ℕ
  pub dense_probe_count_total : ℕ
  pub dense_probe_query_count : ℕ
  pub query_cache_hit : ℕ
  pub query_cache_total : ℕ
  pub gc_running : Bool
  pub gc_stop : Bool
  pub gc_requested : Bool
  pub gc_last_run_ms : ℕ
  pub gc_evicted_count : ℕ
  pub capacity_blocked : Bool
  -- how often the clock has been read
  pub clock_reads : ℕ

unfoldable pub bytes_from_mb : ℕ → ℕ
bytes_from_mb mb = mul64 (mul64 mb 1024) 1024

unfoldable pub bytes_from_gb : ℕ → ℕ
bytes_from_gb gb = mul64 (mul64 (mul64 gb 1024) 1024) 1024

unfoldable pub sum_sizes : List Text → ℕ
sum_sizes [] = 0
sum_sizes (t ∷ ts) = length t + sum_sizes ts

unfoldable pub sum_entries : Map Text → ℕ
sum_entries [] = 0
sum_entries ((k, v) ∷ m) = length k + length v + sum_entries m

-- The sizes of strings in memory do not reach 2^64 together.
unfoldable pub compute_record_size_bytes : MemoryRecord → ℕ
compute_record_size_bytes record' =
    length record'.id
    + length record'.workspace_id
    + length record'.session_id
    + length record'.source
    + length record'.content
    + length record'.node_id
    + length record'.tier
    + length record'.dedup_key
    + length record'.shard_id
    + length record'.replica_role
    + length record'.shard_hint
    + sum_sizes record'.tags
    + sum_entries record'.metadata
    + 384

unfoldable pub is_incoming_newer : MemoryRecord → MemoryRecord → Bool
is_incoming_newer current incoming =
    if not (incoming.updated_at_ms == current.updated_at_ms)
    then ltb current.updated_at_ms incoming.updated_at_ms
    else if not (incoming.version == current.version)
    then ltb current.version incoming.version
    else text_lt current.node_id incoming.node_id

-- `WorkspacePinStats`
pub record WorkspacePinStats : Type 0 where
  pub active : ℕ
  pub pinned : ℕ
  pub has_evictable : Bool

unfoldable pub count_pin : Text → MemoryRecord → WorkspacePinStats → WorkspacePinStats
count_pin workspace_id rec stats =
    if not (text_eq rec.workspace_id workspace_id) || rec.tombstone
    then stats
    else if rec.pinned
    then record stats { active = stats.active + 1; pinned = stats.pinned + 1 }
    else record stats { active = stats.active + 1; has_evictable = true }

unfoldable pub compute_workspace_pin_stats : Map MemoryRecord → Text → WorkspacePinStats
compute_workspace_pin_stats [] workspace_id = record {
  active = 0;
  pinned = 0;
  has_evictable = false;
}
compute_workspace_pin_stats ((k, rec) ∷ records) workspace_id =
    count_pin workspace_id rec (compute_workspace_pin_stats records workspace_id)

unfoldable pub is_expired : MemoryRecord → ℕ → Bool
is_expired rec now_ms =
    if rec.ttl_s == 0 || rec.updated_at_ms == 0
    then false
    else ltb rec.updated_at_ms now_ms && leb (mul64 rec.ttl_s 1000) (now_ms - rec.updated_at_ms)

module _ (fpu : Fpu) where
  -- age in hours, as both the eviction rank and the freshness score take it
  abbrev pub hours : ℕ → ℕ → Double
  hours since now_ms =
      fpu.div (fpu.of_ℕ (if ltb since now_ms then now_ms - since else 0)) (fpu.literal 3600000 0)

  unfoldable pub eviction_rank : MemoryRecord → ℕ → Double
  eviction_rank rec now_ms =
      let reference_ms = max rec.updated_at_ms rec.last_access_ms in
      let hit_signal = fpu.log1p (fpu.of_ℕ rec.hit_count) in
      let source_weight =
        if text_eq rec.source (text "turn") then fpu.literal 2 0 else fpu.literal 8 1 in
      let pin_bias = if rec.pinned then fpu.literal 1500 0 else fpu.literal 0 0 in
      let tombstone_bias =
        if rec.tombstone then fpu.neg (fpu.literal 1500 0) else fpu.literal 0 0 in
      fpu.sub
        (fpu.add
          (fpu.add
            (fpu.add
              (fpu.add (fpu.mul rec.importance_score (fpu.literal 10 0))
                (fpu.mul hit_signal (fpu.literal 4 0)))
              source_weight)
            pin_bias)
          tombstone_bias)
        (fpu.mul (hours reference_ms now_ms) (fpu.literal 15 1))

  unfoldable pub pinned_ratio : ℕ → ℕ → Double
  pinned_ratio pinned active =
      if active == 0 then fpu.literal 0 0 else fpu.div (fpu.of_ℕ pinned) (fpu.of_ℕ active)

  unfoldable pub is_pin_blocked_by_ratio : ℕ → ℕ → Double → Bool
  is_pin_blocked_by_ratio pinned active max_ratio =
      if active == 0
      then false
      else if fpu.le max_ratio (fpu.literal 0 0)
      then true
      else if fpu.le (fpu.literal 1 0) max_ratio
      then false
      else fpu.lt max_ratio (pinned_ratio pinned active)

  unfoldable pub is_over_high_watermark : Options → StoreUsage → Bool
  is_over_high_watermark options usage =
      let max_disk = bytes_from_gb options.disk_budget_gb in
      if max_disk == 0
      then false
      else fpu.le options.gc_high_watermark
          (fpu.div (fpu.of_ℕ usage.disk_used_bytes) (fpu.of_ℕ max_disk))

  unfoldable pub is_below_low_watermark : Options → StoreUsage → Bool
  is_below_low_watermark options usage =
      let max_disk = bytes_from_gb options.disk_budget_gb in
      if max_disk == 0
      then true
      else fpu.le (fpu.div (fpu.of_ℕ usage.disk_used_bytes) (fpu.of_ℕ max_disk))
          options.gc_low_watermark

module _ (env : Env) where
  -- `util::NowMs`
  unfoldable pub now_ms : Engine env → ℕ × Engine env
  now_ms e = (env.clock e.clock_reads, record e { clock_reads = e.clock_reads + 1 })

  abbrev pub resident_limit_bytes : Options → ℕ
  resident_limit_bytes options = bytes_from_mb options.mem_budget_mb
