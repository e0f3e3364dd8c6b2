-- ===== src/Engine/Stats.antt =====
-- `MemoryEngine::Stats` of src/core/memory_engine.cpp.
use poorguy_mem.Common.{
  ℕ, ◌+◌, Bool, true, false, ◌&&◌, ◌||◌, not, List, [], ◌∷◌, Text, text, if◌then◌else◌, ltb, Map,
  length, Double,
}
use poorguy_mem.Types.{MemoryRecord}
use poorguy_mem.Tokens.{tokenize}
use poorguy_mem.Metrics.{Snapshot, snapshot}
use poorguy_mem.Engine.State.{Env, Engine, resident_limit_bytes, pinned_ratio}
use poorguy_mem.Tokens.Terms.{contains}
use poorguy_mem.Engine.Compact.{in_scope}

-- The counters and sets of the loop over the records.
pub record Counts : Type 0 where
  pub item_count : ℕ
  pub tombstone_count : ℕ
  pub vector_count : ℕ
  pub active_count : ℕ
  pub pinned_count : ℕ
  pub has_evictable : Bool
  pub terms : List Text
  pub workspaces : List Text

abbrev no_counts : Counts
no_counts = record {
  item_count = 0;
  tombstone_count = 0;
  vector_count = 0;
  active_count = 0;
  pinned_count = 0;
  has_evictable = false;
  terms = [];
  workspaces = [];
}

-- A set without repetitions.
unfoldable pub add_term : Text → List Text → List Text
add_term t set = if contains t set then set else t ∷ set

unfoldable pub add_terms : List Text → List Text → List Text
add_terms [] set = set
add_terms (t ∷ ts) set = add_terms ts (add_term t set)

unfoldable pub count_record : Text → MemoryRecord → Counts → Counts
count_record workspace_id r c =
    if not (in_scope workspace_id r)
    then c
    else (let c1 : Counts = record c {
      workspaces = add_term r.workspace_id c.workspaces;
      item_count = c.item_count + 1;
    } in
        if r.tombstone then record c1 { tombstone_count = c1.tombstone_count + 1 } else record c1 {
          vector_count = c1.vector_count + 1;
          active_count = c1.active_count + 1;
          pinned_count = if r.pinned then c1.pinned_count + 1 else c1.pinned_count;
          has_evictable = if r.pinned then c1.has_evictable else true;
          terms = add_terms (tokenize r.content) c1.terms;
        })

unfoldable pub count_records : Text → Map MemoryRecord → Counts → Counts
count_records workspace_id [] c = c
count_records workspace_id ((k, r) ∷ records) c =
    count_records workspace_id records (count_record workspace_id r c)

-- `IndexStats`
pub record IndexStats : Type 0 where
  pub segment_count : ℕ
  pub posting_terms : ℕ
  pub vector_count : ℕ
  pub query_cache_hit_rate : Double
  pub dense_probe_count_p95 : Double
  pub cold_rehydrate_count : ℕ

-- `StatsSnapshot`
pub record StatsSnapshot : Type 0 where
  pub metrics : Snapshot
  pub mem_used_bytes : ℕ
  pub disk_used_bytes : ℕ
  pub resident_used_bytes : ℕ
  pub resident_limit : ℕ
  pub resident_evicted_count : ℕ
  pub disk_fallback_search_count : ℕ
  pub item_count : ℕ
  pub tombstone_count : ℕ
  pub gc_last_run_ms : ℕ
  pub gc_evicted_count : ℕ
  pub capacity_blocked : Bool
  pub write_ack_mode : Text
  pub effective_backend : Text
  pub index_stats : IndexStats

module _ (env : Env) where
  open env use {store, fpu}

  abbrev rate : ℕ → ℕ → Double
  rate part whole =
      if ltb 0 whole then fpu.div (fpu.of_ℕ part) (fpu.of_ℕ whole) else fpu.literal 0 0

  unfoldable pub stats : Engine env → Text → StatsSnapshot
  stats e workspace_id =
      let usage = store.approximate_usage e.store in
      let c = count_records workspace_id e.records no_counts in
      let pin_blocked =
        ltb 0 c.active_count
        && (not c.has_evictable
            && fpu.le e.options.max_pinned_ratio
                (pinned_ratio fpu c.pinned_count c.active_count)) in
      record {
        metrics = snapshot fpu e.metrics;
        mem_used_bytes = usage.mem_used_bytes;
        disk_used_bytes = usage.disk_used_bytes;
        resident_used_bytes = e.resident_used_bytes;
        resident_limit = resident_limit_bytes env e.options;
        resident_evicted_count = e.resident_evicted_count;
        disk_fallback_search_count = e.disk_fallback_search_count;
        item_count = c.item_count;
        tombstone_count = c.tombstone_count;
        gc_last_run_ms = e.gc_last_run_ms;
        gc_evicted_count = e.gc_evicted_count;
        capacity_blocked = e.capacity_blocked || pin_blocked;
        write_ack_mode = text "durable";
        effective_backend = e.options.effective_backend;
        index_stats = record {
          segment_count = length c.workspaces;
          posting_terms = length c.terms;
          vector_count = c.vector_count;
          query_cache_hit_rate = rate e.query_cache_hit e.query_cache_total;
          dense_probe_count_p95 = rate e.dense_probe_count_total e.dense_probe_query_count;
          cold_rehydrate_count = e.cold_rehydrate_count;
        };
      }
