-- ===== src/Engine/Accounting/Charging.antt =====
-- The accounting of the resident bytes through the steps of the operations of
-- src/core/memory_engine.cpp.
use poorguy_mem.Common.{
  ℕ, ◌≡◌, refl, none, ◌∙◌, some, List, [], ◌∷◌, Text, Map, find, insert, insert-IsUnique,
  find-insert, All-insert, All-find, is_empty, arith, Option-cases, Bool-cases, inl, inr,
  text_eq_iff, Double,
}
use poorguy_mem.Types.{MemoryRecord, QueryInput, QueryHit}
use poorguy_mem.Retriever.{QueryClock}
use poorguy_mem.Engine.Keys.{record_map_key}
use poorguy_mem.Engine.State.{Env, Engine, now_ms}
use poorguy_mem.Engine.Memory.Charges.{
  IsAccounted, Charged, own_key, upsert-IsAccounted, remove-IsAccounted,
}
use poorguy_mem.Engine.Memory.Evicts.{enforce_lem}
use poorguy_mem.Engine.Write.{enforce_limit}
use poorguy_mem.Engine.Query.{query, touch_hit, touch_hits}
use poorguy_mem.Engine.Accounting.Preserved.{State, IsPreserved}

-- Writing over a resident record of the same ids.
overwrite-IsAccounted :
    (key : Text) (r r' : MemoryRecord) (records : Map MemoryRecord) (charges : Map ℕ) (used : ℕ)
    → find key records ≡ some r
    → own_key r' ≡ own_key r
    → IsAccounted records charges used
    → IsAccounted (insert key r' records) charges used
overwrite-IsAccounted key r r' records charges used there same a = record {
  records_unique = insert-IsUnique key r' records a.records_unique;
  keyed =
      All-insert (λ (x : Text × MemoryRecord). own_key x.1 ≡ x.0) key r' records
        (same
          ∙ All-find (λ (x : Text × MemoryRecord). own_key x.1 ≡ x.0) key r records there a.keyed)
        a.keyed;
  charges_unique = a.charges_unique;
  covered = λ k h.
      a.covered k (ground (arith, h, there, text_eq_iff key k, find-insert key k r' records));
  used_sum = a.used_sum;
}

touch_hit-IsAccounted :
    (workspace_id : Text) (now : ℕ) (hit : QueryHit) (records : Map MemoryRecord) (charges : Map ℕ)
    (used : ℕ)
    → IsAccounted records charges used
    → IsAccounted (touch_hit workspace_id now hit records) charges used
unfolding touch_hit
touch_hit-IsAccounted workspace_id now hit records charges used a =
    elim (Option-cases (find key records)) [
      | inl e ↦ rw (e, touch_hit) a
      | inr (r, e) ↦ elim (Bool-cases r.tombstone) [
        | inl t ↦ rw (e, touch_hit, t) a
        | inr t ↦ rw (e, touch_hit, t) (overwrite-IsAccounted key r _ records charges used e refl a)
      ]
    ]
  where
    key : Text
    key = record_map_key workspace_id hit.memory_id

touch_hits-IsAccounted :
    (workspace_id : Text) (now : ℕ) (hits : List QueryHit) (records : Map MemoryRecord)
    (charges : Map ℕ) (used : ℕ)
    → IsAccounted records charges used
    → IsAccounted (touch_hits workspace_id now hits records) charges used
unfolding touch_hits
touch_hits-IsAccounted workspace_id now [] records charges used a = a
touch_hits-IsAccounted workspace_id now (h ∷ hs) records charges used a =
    touch_hits-IsAccounted workspace_id now hs (touch_hit workspace_id now h records) charges used
      (touch_hit-IsAccounted workspace_id now h records charges used a)

module _ (env : Env) where
  pub query-IsAccounted :
      (e : Engine env) (input : QueryInput) (phases : QueryClock) (ms : Double)
      → Charged e
      → Charged (query env e input phases ms).1
  unfolding query now_ms
  query-IsAccounted e input phases ms a = elim (Bool-cases (is_empty input.workspace_id)) [
    | inl f ↦ rw (f, query) a
    | inr f ↦ rw (f, query) (touch_hits-IsAccounted input.workspace_id _ _ e.records _ _ a)
  ]

  enforce_limit-IsAccounted : (e : Engine env) → Charged e → Charged (enforce_limit env e)
  unfolding enforce_limit
  enforce_limit-IsAccounted e a =
      let (e', runs, accounted, _, _, _, _, _) = enforce_lem env none e a in
      rw (runs, enforce_limit) accounted

  -- What `Charged` says, of the fields that it reads.
  abbrev pub Charges : State env → Type 0
  Charges s = IsAccounted s.0 s.1.0 s.1.1.0

  -- The operations preserve the accounting of the resident bytes.
  pub charged : IsPreserved env Charges
  charged = record {
    upsert = upsert-IsAccounted env;
    removal = remove-IsAccounted env;
    limit = enforce_limit-IsAccounted;
    answer = query-IsAccounted;
  }
