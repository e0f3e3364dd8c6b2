-- ===== src/Types.antt =====
-- include/pgmem/types.h: the records that the components exchange. Strings are byte lists, a
-- `StringMap` is an ordered map, and a `double` is a bit pattern.
use poorguy_mem.Common.{ℕ, Bool, List, Text, Map, Double}

pub data OpType : Type 0 where
  upsert pin delete : OpType

pub record MemoryRecord : Type 0 where
  pub id : Text
  pub workspace_id : Text
  pub session_id : Text
  pub source : Text
  pub content : Text
  pub tags : List Text
  pub metadata : Map Text
  pub dedup_key : Text
  pub pinned : Bool
  pub tombstone : Bool
  pub created_at_ms : ℕ
  pub updated_at_ms : ℕ
  pub version : ℕ
  pub size_bytes : ℕ
  pub last_access_ms : ℕ
  pub hit_count : ℕ
  pub importance_score : Double
  pub tier : Text
  pub node_id : Text
  pub ttl_s : ℕ
  pub shard_id : Text
  pub replica_role : Text
  pub routing_epoch : ℕ
  pub shard_hint : Text

pub record ScoreBreakdown : Type 0 where
  pub sparse : Double
  pub dense : Double
  pub freshness : Double
  pub pin : Double
  pub final : Double

pub record QueryHit : Type 0 where
  pub memory_id : Text
  pub source : Text
  pub content : Text
  pub tags : List Text
  pub metadata : Map Text
  pub scores : ScoreBreakdown
  pub updated_at_ms : ℕ
  pub pinned : Bool

pub record QueryDebugStats : Type 0 where
  pub sparse_candidates : ℕ
  pub dense_candidates : ℕ
  pub merged_candidates : ℕ
  pub sparse_ms : Double
  pub dense_ms : Double
  pub rerank_ms : Double
  pub total_ms : Double

pub record WriteRecordInput : Type 0 where
  pub record_id : Text
  pub source : Text
  pub content : Text
  pub tags : List Text
  pub importance : Double
  pub ttl_s : ℕ
  pub pin : Bool
  pub dedup_key : Text
  pub metadata : Map Text

pub record WriteInput : Type 0 where
  pub workspace_id : Text
  pub session_id : Text
  pub records : List WriteRecordInput
  pub write_mode : Text

pub record WriteOutput : Type 0 where
  pub ok : Bool
  pub stored_ids : List Text
  pub deduped_ids : List Text
  pub index_generation : ℕ
  pub warnings : List Text

pub record QueryFilter : Type 0 where
  pub session_id : Text
  pub sources : List Text
  pub tags_any : List Text
  pub updated_after_ms : ℕ
  pub updated_before_ms : ℕ
  pub pinned_only : Bool

pub record RecallOptions : Type 0 where
  pub sparse_k : ℕ
  pub dense_k : ℕ
  pub oversample : ℕ

pub record RerankWeights : Type 0 where
  pub w_sparse : Double
  pub w_dense : Double
  pub w_freshness : Double
  pub w_pin : Double

-- `token_budget` is an `int`; a negative one acts as 0 (no limit), so a natural number serves.
pub record QueryInput : Type 0 where
  pub workspace_id : Text
  pub query : Text
  pub top_k : ℕ
  pub token_budget : ℕ
  pub filters : QueryFilter
  pub recall : RecallOptions
  pub rerank : RerankWeights
  pub debug : Bool

pub record QueryOutput : Type 0 where
  pub hits : List QueryHit
  pub debug_stats : QueryDebugStats

pub record StoreResult : Type 0 where
  pub ok : Bool
  pub error : Text

pub record GetResult : Type 0 where
  pub found : Bool
  pub value : Text
  pub error : Text

pub record KeyValueEntry : Type 0 where
  pub name_space : Text
  pub key : Text
  pub value : Text
  pub ts : ℕ

pub data WriteOp : Type 0 where
  upsert delete : WriteOp

pub record WriteEntry : Type 0 where
  pub op : WriteOp
  pub entry : KeyValueEntry

pub record StoreUsage : Type 0 where
  pub mem_used_bytes : ℕ
  pub disk_used_bytes : ℕ
  pub item_count : ℕ

-- `partition_count` is a `uint32_t`.
pub record StoreCompactTriggerResult : Type 0 where
  pub triggered : Bool
  pub noop : Bool
  pub busy : Bool
  pub async : Bool
  pub partition_count : ℕ
  pub message : Text
