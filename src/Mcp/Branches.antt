-- ===== src/Mcp/Branches.antt =====
-- The branches of `McpDispatcher::Handle` of src/mcp/mcp_dispatcher.cpp.
use poorguy_mem.Common.{◌≡◌, refl, Bool, true, false, Option, Text, text, text_eq, if◌then◌else◌}
use poorguy_mem.Json.{negative}
use poorguy_mem.Engine.State.{Env, Engine}
use poorguy_mem.Mcp.Handlers.{
  Timing, handle_write, handle_query, handle_pin, handle_stats, handle_compact,
  handle_store_compact, handle_describe,
}
use poorguy_mem.Mcp.{answer_write, dispatch, with_result, answer_store_compact, add_error}

-- What holds of both branches of a conditional, each with the value of its test.
pub if-cases {ℓ κ} :
    {A : Type ℓ} (P : A → Type κ) (b : Bool) (x y : A)
    → (b ≡ true → P x)
    → (b ≡ false → P y)
    → P (if b then x else y)
if-cases P true x y f g = f refl
if-cases P false x y f g = g refl

module _ (env : Env) where
  open env use {tree}
  open tree use {Json}

  -- What holds of the outcome of every branch, each with the method that leads to it.
  pub dispatch-cases {κ} :
      (P : Option Json × Engine env → Type κ) (e : Engine env) (timing : Timing) (method : Text)
      (params id response : Json)
      → (text_eq method (text "memory.write") ≡ true
          → P (answer_write env response (handle_write env e timing params)))
      → (text_eq method (text "memory.query") ≡ true
          → P (with_result env response (handle_query env e timing params)))
      → (text_eq method (text "memory.pin") ≡ true
          → P (with_result env response (handle_pin env e params)))
      → (text_eq method (text "memory.stats") ≡ true
          → P (with_result env response (handle_stats env e params, e)))
      → (text_eq method (text "memory.compact") ≡ true
          → P (with_result env response (handle_compact env e params)))
      → (text_eq method (text "store.compact") ≡ true
          → P (answer_store_compact env response id (handle_store_compact env e)))
      → (text_eq method (text "memory.describe") ≡ true
          → P (with_result env response (handle_describe env e params)))
      → (text_eq method (text "memory.write") ≡ false
          → text_eq method (text "memory.query") ≡ false
          → text_eq method (text "memory.pin") ≡ false
          → text_eq method (text "memory.stats") ≡ false
          → text_eq method (text "memory.compact") ≡ false
          → text_eq method (text "memory.describe") ≡ false
          → P (add_error tree response (negative 32601) (text "method not found") id, e))
      → P (dispatch env e timing method params id response)
  unfolding dispatch
  dispatch-cases P e timing method params id response w q p s c sc d u =
      if-cases P (text_eq method (text "memory.write")) _ _ w (λ n1.
        if-cases P (text_eq method (text "memory.query")) _ _ q (λ n2.
          if-cases P (text_eq method (text "memory.pin")) _ _ p (λ n3.
            if-cases P (text_eq method (text "memory.stats")) _ _ s (λ n4.
              if-cases P (text_eq method (text "memory.compact")) _ _ c (λ n5.
                if-cases P (text_eq method (text "store.compact")) _ _ sc (λ n6.
                  if-cases P (text_eq method (text "memory.describe")) _ _ d
                    (λ n7. u n1 n2 n3 n4 n5 n7)))))))
