-- ===== src/Mcp/WriteMethod.antt =====
-- The contract of `memory.write` in `Describe` of src/mcp/mcp_dispatcher.cpp.
use poorguy_mem.Common.{Bool, false, [], ◌∷◌, text, if◌then◌else◌, Fpu}
use poorguy_mem.Json.{Ptree, make_array}
use poorguy_mem.Mcp.Schema.{json_schema, set_required, set_enum, set_default}
use poorguy_mem.Mcp.Examples.{build_write_examples}

module _ (tree : Ptree) (fpu : Fpu) where
  open tree use {Json}

  unfoldable pub build_write_method : Bool → Json
  build_write_method with_examples =
      let method = tree.empty in
      let method =
        tree.put method (text "summary")
          (text "Write memory records into durable storage and index.") in
      let record_props = tree.empty in
      let record_props =
        tree.add_child record_props (text "record_id")
          (json_schema tree (text "string") (text "Optional caller-provided record id.")) in
      let source = json_schema tree (text "string") (text "Record source label.") in
      let source = set_default tree source (text "turn") in
      let record_props = tree.add_child record_props (text "source") source in
      let record_props =
        tree.add_child record_props (text "content")
          (json_schema tree (text "string") (text "Record content.")) in
      let tags = json_schema tree (text "array") (text "Tag list.") in
      let tags = tree.add_child tags (text "items") (json_schema tree (text "string") []) in
      let record_props = tree.add_child record_props (text "tags") tags in
      let importance = json_schema tree (text "number") (text "Importance score.") in
      let importance = set_default tree importance (tree.print_double (fpu.literal 1 0)) in
      let record_props = tree.add_child record_props (text "importance") importance in
      let ttl = json_schema tree (text "integer") (text "TTL in seconds. 0 means no expiry.") in
      let ttl = set_default tree ttl (tree.print_int 0) in
      let record_props = tree.add_child record_props (text "ttl_s") ttl in
      let pin = json_schema tree (text "boolean") (text "Pin flag.") in
      let pin = set_default tree pin (tree.print_bool false) in
      let record_props = tree.add_child record_props (text "pin") pin in
      let record_props =
        tree.add_child record_props (text "dedup_key")
          (json_schema tree (text "string") (text "Deduplication key.")) in
      let record_props =
        tree.add_child record_props (text "metadata")
          (json_schema tree (text "object") (text "String key/value metadata.")) in
      let record_schema = json_schema tree (text "object") (text "Write record item.") in
      let record_schema =
        tree.put record_schema (text "additionalProperties") (tree.print_bool false) in
      let record_schema = tree.add_child record_schema (text "properties") record_props in
      let record_schema = set_required tree record_schema (text "content" ∷ []) in
      let input_props = tree.empty in
      let input_props =
        tree.add_child input_props (text "workspace_id")
          (json_schema tree (text "string") (text "Workspace id.")) in
      let session = json_schema tree (text "string") (text "Session id.") in
      let session = set_default tree session (text "default") in
      let input_props = tree.add_child input_props (text "session_id") session in
      let records = json_schema tree (text "array") (text "Records to write.") in
      let records = tree.add_child records (text "items") record_schema in
      let input_props = tree.add_child input_props (text "records") records in
      let mode = json_schema tree (text "string") (text "Write mode.") in
      let mode = set_enum tree mode (text "upsert" ∷ text "append" ∷ []) in
      let mode = set_default tree mode (text "upsert") in
      let input_props = tree.add_child input_props (text "write_mode") mode in
      let input_schema = json_schema tree (text "object") (text "memory.write input.") in
      let input_schema =
        tree.put input_schema (text "additionalProperties") (tree.print_bool false) in
      let input_schema = tree.add_child input_schema (text "properties") input_props in
      let input_schema =
        set_required tree input_schema (text "workspace_id" ∷ text "records" ∷ []) in
      let output_props = tree.empty in
      let output_props =
        tree.add_child output_props (text "ok")
          (json_schema tree (text "boolean") (text "Durable write success.")) in
      let ids = json_schema tree (text "array") (text "Stored memory ids.") in
      let ids = tree.add_child ids (text "items") (json_schema tree (text "string") []) in
      let output_props = tree.add_child output_props (text "stored_ids") ids in
      let deduped = json_schema tree (text "array") (text "Deduplicated memory ids.") in
      let deduped = tree.add_child deduped (text "items") (json_schema tree (text "string") []) in
      let output_props = tree.add_child output_props (text "deduped_ids") deduped in
      let output_props =
        tree.add_child output_props (text "index_generation")
          (json_schema tree (text "integer") (text "Index generation after write.")) in
      let warnings = json_schema tree (text "array") (text "Write warnings.") in
      let warnings = tree.add_child warnings (text "items") (json_schema tree (text "string") []) in
      let output_props = tree.add_child output_props (text "warnings") warnings in
      let output_schema = json_schema tree (text "object") (text "memory.write output.") in
      let output_schema =
        tree.put output_schema (text "additionalProperties") (tree.print_bool false) in
      let output_schema = tree.add_child output_schema (text "properties") output_props in
      let output_schema = set_required tree output_schema (
        text "ok"
        ∷ text "stored_ids"
        ∷ text "deduped_ids"
        ∷ text "index_generation"
        ∷ text "warnings"
        ∷ []) in
      let semantics = tree.empty in
      let semantics =
        tree.put semantics (text "idempotency")
          (text "With write_mode=upsert, dedup_key may suppress duplicate writes.") in
      let semantics =
        tree.put semantics (text "ordering")
          (text "stored_ids preserves accepted record order in this request.") in
      let semantics =
        tree.put semantics (text "pin_governance")
          (text "pin=true may be downgraded with warning when quota/ratio limits are hit.") in
      let method = tree.add_child method (text "input_schema") input_schema in
      let method = tree.add_child method (text "output_schema") output_schema in
      let method = tree.add_child method (text "semantics") semantics in
      let method =
        tree.add_child method (text "errors")
          (make_array tree (text "jsonrpc.invalid_params" ∷ [])) in
      if with_examples
      then tree.add_child method (text "examples") (build_write_examples tree)
      else method
