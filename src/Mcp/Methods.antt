-- ===== src/Mcp/Methods.antt =====
-- The contracts of `memory.describe` and `memory.pin` in `Describe` of src/mcp/mcp_dispatcher.cpp.
use poorguy_mem.Common.{Bool, true, false, [], ◌∷◌, text, if◌then◌else◌, Fpu}
use poorguy_mem.Json.{Ptree, make_array}
use poorguy_mem.Mcp.Schema.{json_schema, set_required, set_default}
use poorguy_mem.Mcp.Examples.{build_describe_examples, build_pin_examples}

module _ (tree : Ptree) (fpu : Fpu) where
  open tree use {Json}

  unfoldable pub build_describe_method : Bool → Json
  build_describe_method with_examples =
      let method = tree.empty in
      let method =
        tree.put method (text "summary")
          (text "Return machine-readable server contract and method schemas.") in
      let include_examples =
        json_schema tree (text "boolean") (text "Include request/response examples.") in
      let include_examples = set_default tree include_examples (tree.print_bool false) in
      let input_props = tree.empty in
      let input_props = tree.add_child input_props (text "include_examples") include_examples in
      let input_schema = json_schema tree (text "object") (text "Describe request.") in
      let input_schema =
        tree.put input_schema (text "additionalProperties") (tree.print_bool false) in
      let input_schema = tree.add_child input_schema (text "properties") input_props in
      let output_props = tree.empty in
      let output_props =
        tree.add_child output_props (text "describe_version")
          (json_schema tree (text "string") (text "Describe contract major version.")) in
      let output_props =
        tree.add_child output_props (text "schema_revision")
          (json_schema tree (text "string") (text "Schema revision identifier.")) in
      let output_props =
        tree.add_child output_props (text "generated_at_ms")
          (json_schema tree (text "integer") (text "Server generation timestamp in ms.")) in
      let output_props =
        tree.add_child output_props (text "server")
          (json_schema tree (text "object") (text "Server metadata.")) in
      let output_props =
        tree.add_child output_props (text "method_names")
          (json_schema tree (text "array") (text "Exposed method names.")) in
      let output_props =
        tree.add_child output_props (text "methods")
          (json_schema tree (text "object") (text "Per-method contract map.")) in
      let output_props =
        tree.add_child output_props (text "errors")
          (json_schema tree (text "object") (text "Error contract by protocol layer.")) in
      let output_schema = json_schema tree (text "object") (text "Describe response payload.") in
      let output_schema =
        tree.put output_schema (text "additionalProperties") (tree.print_bool false) in
      let output_schema = tree.add_child output_schema (text "properties") output_props in
      let output_schema = set_required tree output_schema (
        text "describe_version"
        ∷ text "schema_revision"
        ∷ text "generated_at_ms"
        ∷ text "server"
        ∷ text "method_names"
        ∷ text "methods"
        ∷ text "errors"
        ∷ []) in
      let semantics = tree.empty in
      let semantics =
        tree.put semantics (text "payload_size")
          (text "Examples are omitted unless include_examples=true.") in
      let semantics =
        tree.put semantics (text "stability")
          (text "describe_version and schema_revision gate client parser compatibility.") in
      let method = tree.add_child method (text "input_schema") input_schema in
      let method = tree.add_child method (text "output_schema") output_schema in
      let method = tree.add_child method (text "semantics") semantics in
      let method =
        tree.add_child method (text "errors") (
          make_array tree (text "jsonrpc.method_not_found" ∷ text "jsonrpc.invalid_params" ∷ [])) in
      if with_examples
      then tree.add_child method (text "examples") (build_describe_examples tree)
      else method

  unfoldable pub build_pin_method : Bool → Json
  build_pin_method with_examples =
      let method = tree.empty in
      let method =
        tree.put method (text "summary") (text "Pin or unpin an existing memory record.") in
      let input_props = tree.empty in
      let input_props =
        tree.add_child input_props (text "workspace_id")
          (json_schema tree (text "string") (text "Workspace id.")) in
      let input_props =
        tree.add_child input_props (text "memory_id")
          (json_schema tree (text "string") (text "Target memory id.")) in
      let pin = json_schema tree (text "boolean") (text "Pin=true, unpin=false.") in
      let pin = set_default tree pin (tree.print_bool true) in
      let input_props = tree.add_child input_props (text "pin") pin in
      let input_schema = json_schema tree (text "object") (text "memory.pin input.") in
      let input_schema =
        tree.put input_schema (text "additionalProperties") (tree.print_bool false) in
      let input_schema = tree.add_child input_schema (text "properties") input_props in
      let input_schema =
        set_required tree input_schema (text "workspace_id" ∷ text "memory_id" ∷ []) in
      let output_props = tree.empty in
      let output_props =
        tree.add_child output_props (text "ok")
          (json_schema tree (text "boolean") (text "Operation status.")) in
      let output_props =
        tree.add_child output_props (text "error")
          (json_schema tree (text "string") (text "Present when ok=false.")) in
      let output_schema = json_schema tree (text "object") (text "memory.pin output.") in
      let output_schema =
        tree.put output_schema (text "additionalProperties") (tree.print_bool false) in
      let output_schema = tree.add_child output_schema (text "properties") output_props in
      let output_schema = set_required tree output_schema (text "ok" ∷ []) in
      let semantics = tree.empty in
      let semantics =
        tree.put semantics (text "governance")
          (text "Pin operation may be rejected by quota or ratio limits.") in
      let method = tree.add_child method (text "input_schema") input_schema in
      let method = tree.add_child method (text "output_schema") output_schema in
      let method = tree.add_child method (text "semantics") semantics in
      let method =
        tree.add_child method (text "errors")
          (make_array tree (text "jsonrpc.invalid_params" ∷ [])) in
      if with_examples
      then tree.add_child method (text "examples") (build_pin_examples tree)
      else method
