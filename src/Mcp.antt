-- ===== src/Mcp.antt =====
-- src/mcp/mcp_dispatcher.cpp: the JSON-RPC calls over the engine. A call returns the response and the
-- engine; `none` stands for an exception that leaves the dispatcher: that of `get_child` where there
-- is no such child, and that of `Write` where the library does not write the tree of a record.
pub mod Schema
pub mod Examples
pub mod WriteMethod
pub mod QueryMethod
pub mod Methods
pub mod UsageMethods
pub mod Describe
pub mod Inputs
pub mod Handlers
pub mod Replies
pub mod Branches
use poorguy_mem.Common.{
  ℕ, false, Option, none, some, List, [], ◌∷◌, Text, text, text_eq, if◌then◌else◌,
}
use poorguy_mem.Json.{Ptree, get_string_or, get_bool_or, negative}
use poorguy_mem.Engine.State.{Env, Engine}
use poorguy_mem.Mcp.Handlers.{
  Timing, handle_write, handle_query, handle_pin, handle_stats, handle_compact,
  handle_store_compact, handle_describe,
}

module _ (tree : Ptree) where
  open tree use {Json}

  -- `McpDispatcher::Error`
  unfoldable pub error : ℕ → Text → Json → Json
  error code message id =
      let response = tree.add_child tree.empty (text "id") id in
      let err = tree.put tree.empty (text "code") (tree.print_int code) in
      let err = tree.put err (text "message") message in tree.add_child response (text "error") err

  -- The response with the child of an error.
  unfoldable pub add_error : Json → ℕ → Text → Json → Option Json
  add_error response code message id =
      elim (tree.get_child_optional (error code message id) (text "error")) [
        | none ↦ none
        | some err ↦ some (tree.add_child response (text "error") err)
      ]

  abbrev pub child_or_empty : Json → Text → Json
  child_or_empty request key = elim (tree.get_child_optional request key) [
    | none ↦ tree.empty
    | some child ↦ child
  ]

module _ (env : Env) where
  open env use {tree}
  open tree use {Json}

  abbrev pub with_result : Json → Json × Engine env → Option Json × Engine env
  with_result response (result, e) = (some (tree.add_child response (text "result") result), e)

  -- The branch of `memory.write`.
  abbrev pub answer_write : Json → Option Json × Engine env → Option Json × Engine env
  answer_write response (none, e) = (none, e)
  answer_write response (some result, e) = with_result response (result, e)

  -- The branch of `store.compact`.
  unfoldable pub answer_store_compact : Json → Json → Json × Engine env → Option Json × Engine env
  answer_store_compact response id (result, e) =
      if get_bool_or tree result (text "busy") false
      then (add_error tree response (negative 32001) (text "store compact is busy") id, e)
      else with_result response (result, e)

  unfoldable pub dispatch :
      Engine env → Timing → Text → Json → Json → Json → Option Json × Engine env
  dispatch e timing method params id response =
      if text_eq method (text "memory.write")
      then answer_write response (handle_write env e timing params)
      else if text_eq method (text "memory.query")
      then with_result response (handle_query env e timing params)
      else if text_eq method (text "memory.pin")
      then with_result response (handle_pin env e params)
      else if text_eq method (text "memory.stats")
      then with_result response (handle_stats env e params, e)
      else if text_eq method (text "memory.compact")
      then with_result response (handle_compact env e params)
      else if text_eq method (text "store.compact")
      then answer_store_compact response id (handle_store_compact env e)
      else if text_eq method (text "memory.describe")
      then with_result response (handle_describe env e params)
      else (add_error tree response (negative 32601) (text "method not found") id, e)

  -- `McpDispatcher::Handle`
  unfoldable pub handle : Engine env → Timing → Json → Option Json × Engine env
  handle e timing request =
      let id = child_or_empty tree request (text "id") in
      dispatch e timing (get_string_or tree request (text "method") [])
        (child_or_empty tree request (text "params")) id (tree.add_child tree.empty (text "id") id)
