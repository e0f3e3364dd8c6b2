-- ===== src/Mcp/Schema.antt =====
-- The helpers of src/mcp/mcp_dispatcher.cpp that build parts of the contract. The overloads of
-- `SetDefault` differ in the translator of the value alone, so the value is given as its text here;
-- the pointers that they test for null are addresses of local variables.
use poorguy_mem.Common.{ℕ, List, Text, text, if◌then◌else◌, is_empty}
use poorguy_mem.Json.{Ptree, make_array}

module _ (tree : Ptree) where
  open tree use {Json}

  unfoldable pub json_schema : Text → Text → Json
  json_schema type description =
      let schema = tree.put tree.empty (text "type") type in
      if is_empty description then schema else tree.put schema (text "description") description

  unfoldable pub set_required : Json → List Text → Json
  set_required schema fields =
      if is_empty fields
      then schema
      else tree.add_child schema (text "required") (make_array tree fields)

  unfoldable pub set_enum : Json → List Text → Json
  set_enum schema values =
      if is_empty values
      then schema
      else tree.add_child schema (text "enum") (make_array tree values)

  unfoldable pub set_default : Json → Text → Json
  set_default schema value = tree.put schema (text "default") value

  unfoldable pub http_error : Text → ℕ → Text → Text → Json
  http_error name status message when =
      let err = tree.put tree.empty (text "name") name in
      let err = tree.put err (text "status") (tree.print_int status) in
      let err = tree.put err (text "message") message in tree.put err (text "when") when

  unfoldable pub json_rpc_error_entry : Text → ℕ → Text → Text → Json
  json_rpc_error_entry name code message when =
      let err = tree.put tree.empty (text "name") name in
      let err = tree.put err (text "code") (tree.print_int code) in
      let err = tree.put err (text "message") message in tree.put err (text "when") when

  unfoldable pub make_example : Text → Json → Json → Json
  make_example name request response =
      let ex = tree.put tree.empty (text "name") name in
      let ex = tree.add_child ex (text "request") request in
      tree.add_child ex (text "response") response
