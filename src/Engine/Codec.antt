-- ===== src/Engine/Codec.antt =====
-- `SerializeRecord` and `DeserializeRecord` of src/core/memory_engine.cpp.
pub mod Metadata
pub mod Fields
use poorguy_mem.Common.{
  Bool, false, Option, none, some, List, [], ◌∷◌, Text, text, if◌then◌else◌, ◌==◌, Map,
  insert_ordered,
}
use poorguy_mem.Types.{MemoryRecord}
use poorguy_mem.Json.{
  make_array, read_string_array, get_string_or, get_uint64_or, get_bool_or, get_double_or,
  put_uint64, put_bool, put_double,
}
use poorguy_mem.Engine.State.{Env, compute_record_size_bytes}

module _ (env : Env) where
  open env use {tree, fpu}

  unfoldable pub put_metadata : tree.Json → Map Text → tree.Json
  put_metadata json [] = json
  put_metadata json ((k, v) ∷ metadata) = put_metadata (tree.put json k v) metadata

  -- The scalar fields, in the order in which they are put.
  unfoldable pub put_fields : tree.Json → MemoryRecord → tree.Json
  put_fields j0 r =
      let j1 = tree.put j0 (text "id") r.id in
      let j2 = tree.put j1 (text "workspace_id") r.workspace_id in
      let j3 = tree.put j2 (text "session_id") r.session_id in
      let j4 = tree.put j3 (text "source") r.source in
      let j5 = tree.put j4 (text "content") r.content in
      let j6 = put_bool tree j5 (text "pinned") r.pinned in
      let j7 = put_bool tree j6 (text "tombstone") r.tombstone in
      let j8 = put_uint64 tree j7 (text "created_at_ms") r.created_at_ms in
      let j9 = put_uint64 tree j8 (text "updated_at_ms") r.updated_at_ms in
      let j10 = put_uint64 tree j9 (text "version") r.version in
      let j11 = put_uint64 tree j10 (text "size_bytes") r.size_bytes in
      let j12 = put_uint64 tree j11 (text "last_access_ms") r.last_access_ms in
      let j13 = put_uint64 tree j12 (text "hit_count") r.hit_count in
      let j14 = put_double tree j13 (text "importance_score") r.importance_score in
      let j15 = tree.put j14 (text "tier") r.tier in
      let j16 = tree.put j15 (text "node_id") r.node_id in
      let j17 = put_uint64 tree j16 (text "ttl_s") r.ttl_s in
      let j18 = tree.put j17 (text "dedup_key") r.dedup_key in
      let j19 = tree.put j18 (text "shard_id") r.shard_id in
      let j20 = tree.put j19 (text "replica_role") r.replica_role in
      let j21 = put_uint64 tree j20 (text "routing_epoch") r.routing_epoch in
      tree.put j21 (text "shard_hint") r.shard_hint

  unfoldable pub record_to_json : MemoryRecord → tree.Json
  record_to_json r =
      let json = tree.add_child (put_fields tree.empty r) (text "tags") (make_array tree r.tags) in
      tree.add_child json (text "metadata") (put_metadata tree.empty r.metadata)

  -- Whether `SerializeRecord` returns. The metadata is put by paths, so a record may have a tree that
  -- the library does not write.
  unfoldable pub serializes : MemoryRecord → Bool
  serializes r = tree.can_write (record_to_json r)

  -- `none` is the exception of the library.
  unfoldable pub serialize_record : MemoryRecord → Option Text
  serialize_record r = if serializes r then some (tree.write_json (record_to_json r)) else none

  -- record->metadata[kv.first] = kv.second.get_value<std::string>()
  unfoldable pub read_metadata : Map Text → List (Text × tree.Json) → Map Text
  read_metadata metadata [] = metadata
  read_metadata metadata ((k, child) ∷ rest) =
      read_metadata (insert_ordered k (tree.get_value child) metadata) rest

  unfoldable pub record_of_json : tree.Json → MemoryRecord
  record_of_json json = record {
    id = get_string_or tree json (text "id") [];
    workspace_id = get_string_or tree json (text "workspace_id") [];
    session_id = get_string_or tree json (text "session_id") [];
    source = get_string_or tree json (text "source") [];
    content = get_string_or tree json (text "content") [];
    tags = read_string_array tree json (text "tags");
    metadata = elim (tree.get_child_optional json (text "metadata")) [
      | none ↦ []
      | some child ↦ read_metadata [] (tree.children child)
    ];
    dedup_key = get_string_or tree json (text "dedup_key") [];
    pinned = get_bool_or tree json (text "pinned") false;
    tombstone = get_bool_or tree json (text "tombstone") false;
    created_at_ms = get_uint64_or tree json (text "created_at_ms") 0;
    updated_at_ms = get_uint64_or tree json (text "updated_at_ms") 0;
    version = get_uint64_or tree json (text "version") 0;
    size_bytes = get_uint64_or tree json (text "size_bytes") 0;
    last_access_ms = get_uint64_or tree json (text "last_access_ms") 0;
    hit_count = get_uint64_or tree json (text "hit_count") 0;
    importance_score = get_double_or tree json (text "importance_score") (fpu.literal 1 0);
    tier = get_string_or tree json (text "tier") (text "hot");
    node_id = get_string_or tree json (text "node_id") [];
    ttl_s = get_uint64_or tree json (text "ttl_s") 0;
    shard_id = get_string_or tree json (text "shard_id") [];
    replica_role = get_string_or tree json (text "replica_role") [];
    routing_epoch = get_uint64_or tree json (text "routing_epoch") 0;
    shard_hint = get_string_or tree json (text "shard_hint") [];
  }

  unfoldable pub fill_size : MemoryRecord → MemoryRecord
  fill_size r =
      if r.size_bytes == 0 then record r { size_bytes = compute_record_size_bytes r } else r

  -- `none` is a parse error, whose text is `read_error`.
  unfoldable pub deserialize_record : Text → Option MemoryRecord
  deserialize_record input = elim (tree.read_json input) [
    | none ↦ none
    | some json ↦ some (fill_size (record_of_json json))
  ]
