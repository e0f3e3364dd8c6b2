-- ===== src/Mcp/Replies.antt =====
-- The replies of `McpDispatcher::Handle` in src/mcp/mcp_dispatcher.cpp, over a tree library that does
-- what Boost documents of `add_child`, `put` and `get`.
use poorguy_mem.Common.{
  All, sym, ℕ, ◌≡◌, refl, ◌∙◌, true, false, Option, none, some, [], Text, text, text_eq,
  text_eq_sym, text_eq_iff, Bool-cases, ◌⊎◌, inl, inr,
}
use poorguy_mem.Json.{Ptree, get_bool_or, get_string_or, negative}
use poorguy_mem.Tokens.Terms.{contains}
use poorguy_mem.Engine.State.{Env, Engine}
use mathlib.Core.Path.{subst}
use poorguy_mem.Engine.Write.{write}
use poorguy_mem.Engine.Write.Returns.{IsWritable, write_returns}
use poorguy_mem.Mcp.Inputs.{write_input_of}
use poorguy_mem.Mcp.Handlers.{Timing, handle_write, write_result, written}
use poorguy_mem.Mcp.Describe.{method_names}
use poorguy_mem.Mcp.{
  answer_write, dispatch, handle, answer_store_compact, add_error, error, child_or_empty,
}
use poorguy_mem.Mcp.Branches.{dispatch-cases}
use poorguy_mem.Json.Laws.{is_key, IsTree}

module _ (tree : Ptree) where
  open tree use {Json, get_child_optional}

  abbrev pub HasResult : Json → Type 0
  HasResult r =
      ((result : Json) × (get_child_optional r (text "result") ≡ some result))
      × (get_child_optional r (text "error") ≡ none)

  abbrev pub HasError : ℕ → Text → Json → Type 0
  HasError code message r =
      ((err : Json) × (get_child_optional r (text "error") ≡ some err)
        × (tree.get err (text "code") ≡ some (tree.print_int code))
        × (tree.get err (text "message") ≡ some message))
      × (get_child_optional r (text "result") ≡ none)

  -- A response with the id of its request, of which more is known.
  abbrev pub Replies : Json → (Json → Type 0) → Option Json → Type 0
  Replies id P o = (r : Json) × (o ≡ some r) × (get_child_optional r (text "id") ≡ some id) × P r

  module _ (laws : IsTree tree) (id : Json) where
    abbrev start : Json
    start = tree.add_child tree.empty (text "id") id

    start_id : get_child_optional start (text "id") ≡ some id
    start_id = laws.added_child tree.empty (text "id") id refl (laws.no_child (text "id") refl)

    start_empty :
        (k : Text)
        → is_key k ≡ true
        → text_eq (text "id") k ≡ false
        → get_child_optional start k ≡ none
    start_empty k key other =
        laws.other_child tree.empty (text "id") k id refl key other ∙ laws.no_child k key

    result_reply :
        (result : Json) → Replies id HasResult (some (tree.add_child start (text "result") result))
    unfolding text_eq
    result_reply result = (
      tree.add_child start (text "result") result,
      refl,
      laws.other_child start (text "result") (text "id") result refl refl refl ∙ start_id,
      (
        (
          result,
          laws.added_child start (text "result") result refl
              (start_empty (text "result") refl refl),
        ),
        laws.other_child start (text "result") (text "error") result refl refl refl
            ∙ start_empty (text "error") refl refl,
      ),
    )

    error_reply :
        (code : ℕ) (message : Text)
        → Replies id (HasError code message) (add_error tree start code message id)
    unfolding add_error error text_eq
    error_reply code message =
        rw
          (
            add_error,
            laws.added_child start (text "error") err refl (start_empty (text "error") refl refl),
          )
          (
            tree.add_child start (text "error") err,
            refl,
            laws.other_child start (text "error") (text "id") err refl refl refl ∙ start_id,
            (
              (
                err,
                laws.added_child start (text "error") err refl
                    (start_empty (text "error") refl refl),
                laws.put_get_other (tree.put tree.empty (text "code") (tree.print_int code))
                      (text "message") (text "code") message refl refl refl
                    ∙ laws.put_get tree.empty (text "code") (tree.print_int code) refl,
                laws.put_get (tree.put tree.empty (text "code") (tree.print_int code))
                    (text "message") message refl,
              ),
              laws.other_child start (text "error") (text "result") err refl refl refl
                  ∙ start_empty (text "result") refl refl,
            ),
          )
      where
        err : Json
        err =
            tree.put (tree.put tree.empty (text "code") (tree.print_int code)) (text "message")
              message

-- A name of the contract is not a name outside it.
differs :
    (m n : Text)
    → contains m method_names ≡ false
    → contains n method_names ≡ true
    → text_eq m n ≡ false
differs m n out named = elim (Bool-cases (text_eq m n)) [
  | inl e ↦ let same : m ≡ n = (text_eq_iff m n).0 e in cc (same, out, named)
  | inr e ↦ e
]

unnamed :
    (m : Text)
    → text_eq m (text "memory.write") ≡ false
    → text_eq m (text "memory.query") ≡ false
    → text_eq m (text "memory.pin") ≡ false
    → text_eq m (text "memory.stats") ≡ false
    → text_eq m (text "memory.compact") ≡ false
    → text_eq m (text "memory.describe") ≡ false
    → contains m method_names ≡ false
unfolding contains
unnamed m n1 n2 n3 n4 n5 n6 =
    rw
      (
        text_eq_sym (text "memory.describe") m,
        text_eq_sym (text "memory.write") m,
        text_eq_sym (text "memory.query") m,
        text_eq_sym (text "memory.pin") m,
        text_eq_sym (text "memory.stats") m,
        text_eq_sym (text "memory.compact") m,
        n1,
        n2,
        n3,
        n4,
        n5,
        n6,
      )
      refl

module _ (env : Env) (laws : IsTree env.tree) where
  open env use {tree}
  open tree use {Json, get_child_optional}

  -- The id of a request, or an empty tree where there is none.
  abbrev pub id_of : Json → Json
  id_of request = child_or_empty tree request (text "id")

  abbrev pub method_of : Json → Text
  method_of request = get_string_or tree request (text "method") []

  -- Where the request is a write, the library writes the trees of records with the metadata that it
  -- asks to be stored.
  abbrev pub Writes : Json → Type 0
  Writes request =
      All (IsWritable env)
        (write_input_of env (child_or_empty tree request (text "params"))).records

  -- The answer to a write that returns.
  write_reply :
      (P : Json → Type 0) (e : Engine env) (timing : Timing) (id params : Json)
      → All (IsWritable env) (write_input_of env params).records
      → ((result : Json)
          → Replies tree id P (some (tree.add_child (start tree laws id) (text "result") result)))
      → Replies tree id P
          (answer_write env (start tree laws id) (handle_write env e timing params)).0
  unfolding handle_write
  write_reply P e timing id params w reply =
      let input = write_input_of env params in
      let (out, returns) = write_returns env e input timing.elapsed_ms w in
      subst
        (λ o.
          Replies tree id P
            (answer_write env (start tree laws id)
              (written env o, (write env e input timing.elapsed_ms).1)).0)
        (sym returns) (reply (write_result env out))

  -- Over a tree library as documented: a call of a method that the contract names is answered with
  -- the id of the request and a result, and with no error, where the library writes the trees of the
  -- records if the call is a write.
  pub handle-HasResult :
      (e : Engine env) (timing : Timing) (request : Json)
      → contains (method_of request) method_names ≡ true
      → (text_eq (method_of request) (text "memory.write") ≡ true → Writes request)
      → Replies tree (id_of request) (HasResult tree) (handle env e timing request).0
  unfolding handle contains text_eq
  handle-HasResult e timing request named writes =
      let id = id_of request in
      dispatch-cases env (λ o. Replies tree id (HasResult tree) o.0) e timing (method_of request) _
        id _
        (λ m. write_reply (HasResult tree) e timing id _ (writes m) (result_reply tree laws id))
        (λ m. result_reply tree laws id _) (λ m. result_reply tree laws id _)
        (λ m. result_reply tree laws id _) (λ m. result_reply tree laws id _)
        (λ m.
          let same : method_of request ≡ text "store.compact" =
            (text_eq_iff (method_of request) (text "store.compact")).0 m in
          let outside : contains (text "store.compact") method_names ≡ false = refl in
          cc (same, outside, named))
        (λ m. result_reply tree laws id _)
        (λ n1 n2 n3 n4 n5 n7. cc (named, unnamed (method_of request) n1 n2 n3 n4 n5 n7))

  -- Over a tree library as documented: a call of any other method but `store.compact` leaves the
  -- engine as it was, and is answered with the id of the request and the error -32601.
  pub handle-HasError :
      (e : Engine env) (timing : Timing) (request : Json)
      → contains (method_of request) method_names ≡ false
      → text_eq (method_of request) (text "store.compact") ≡ false
      → Replies tree
          (id_of request)
          (HasError tree (negative 32601) (text "method not found"))
          (handle env e timing request).0
        × ((handle env e timing request).1 ≡ e)
  unfolding handle dispatch contains text_eq
  handle-HasError e timing request out other =
      let m = method_of request in
      let id = id_of request in
      rw
        (
          dispatch,
          differs m (text "memory.write") out refl,
          differs m (text "memory.query") out refl,
          differs m (text "memory.pin") out refl,
          differs m (text "memory.stats") out refl,
          differs m (text "memory.compact") out refl,
          other,
          differs m (text "memory.describe") out refl,
        )
        (error_reply tree laws id (negative 32601) (text "method not found"), refl)

  -- A result, or the error of a busy store or of an unknown method.
  abbrev pub IsResponse : Json → Type 0
  IsResponse r =
      HasResult tree r
      ⊎ HasError tree (negative 32001) (text "store compact is busy") r
      ⊎ HasError tree (negative 32601) (text "method not found") r

  result-IsResponse :
      (id result : Json)
      → Replies tree id IsResponse
          (some (tree.add_child (start tree laws id) (text "result") result))
  result-IsResponse id result =
      let (r, e, same, h) = result_reply tree laws id result in (r, e, same, inl h)

  store_compact-IsResponse :
      (id : Json) (out : Json × Engine env)
      → Replies tree id IsResponse (answer_store_compact env (start tree laws id) id out).0
  unfolding answer_store_compact
  store_compact-IsResponse id (result, e) =
      elim (Bool-cases (get_bool_or tree result (text "busy") false)) [
        | inl busy ↦
            let (r, there, same, h) =
              error_reply tree laws id (negative 32001) (text "store compact is busy") in
            rw (answer_store_compact, busy) (r, there, same, inr (inl h))
        | inr free ↦ rw (answer_store_compact, free) (result-IsResponse id result)
      ]

  -- Over a tree library as documented: every call, whatever it holds, is answered with the id of the
  -- request, or an empty one, and either with a result and no error, or with no result and one of the
  -- errors -32001 and -32601, where the library writes the trees of the records if the call is a
  -- write.
  pub handle-IsResponse :
      (e : Engine env) (timing : Timing) (request : Json)
      → (text_eq (method_of request) (text "memory.write") ≡ true → Writes request)
      → Replies tree (id_of request) IsResponse (handle env e timing request).0
  unfolding handle
  handle-IsResponse e timing request writes =
      let id = id_of request in
      dispatch-cases env (λ o. Replies tree id IsResponse o.0) e timing (method_of request) _ id _
        (λ m. write_reply IsResponse e timing id _ (writes m) (result-IsResponse id))
        (λ m. result-IsResponse id _) (λ m. result-IsResponse id _) (λ m. result-IsResponse id _)
        (λ m. result-IsResponse id _) (λ m. store_compact-IsResponse id _)
        (λ m. result-IsResponse id _)
        (λ n1 n2 n3 n4 n5 n7.
          let (r, e, same, h) =
            error_reply tree laws id (negative 32601) (text "method not found") in
          (r, e, same, inr (inr h)))
