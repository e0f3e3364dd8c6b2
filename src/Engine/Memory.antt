-- ===== src/Engine/Memory.antt =====
-- The resident state of src/core/memory_engine.cpp: `UpsertRecordInMemory`, `RemoveRecordInMemory`,
-- the choice of what to evict, and `EnforceResidentHardLimit`. Each runs under the lock of the
-- records; the counter of the resident bytes is an atomic `uint64_t`.
pub mod Charges
pub mod Evicts
pub mod Limit
use poorguy_mem.Common.{
  ℕ, zero, suc, ◌+◌, ◌-◌, Bool, true, false, ◌&&◌, ◌||◌, not, Option, none, some, List, [], ◌∷◌,
  ◌++◌, Text, text, if◌then◌else◌, ltb, leb, ◌==◌, Map, find, insert, erase, length, is_empty,
  add64, sub64, Double,
}
use poorguy_mem.Types.{MemoryRecord}
use poorguy_mem.Engine.Keys.{record_map_key}
use poorguy_mem.Engine.State.{
  Env, Options, Engine, compute_record_size_bytes, eviction_rank, now_ms, resident_limit_bytes,
}
use poorguy_mem.Tokens.Terms.{contains}

abbrev pub charge_at : Text → Map ℕ → ℕ
charge_at k charges = elim (find k charges) [ none ↦ 0 | some n ↦ n ]

abbrev pub is_protected : Option (List Text) → MemoryRecord → Bool
is_protected none rec = false
is_protected (some keys) rec = contains (record_map_key rec.workspace_id rec.id) keys

abbrev pub any_protected : Option (List Text) → Bool
any_protected none = false
any_protected (some keys) = not (is_empty keys)

module _ (env : Env) where
  open env use {retriever, fpu}

  unfoldable pub estimate_resident_charge : MemoryRecord → ℕ
  estimate_resident_charge r =
      add64 (if ltb 0 r.size_bytes then r.size_bytes else compute_record_size_bytes r)
        (retriever.estimate_doc_bytes r)

  unfoldable pub upsert_record_in_memory : Engine env → MemoryRecord → Engine env
  upsert_record_in_memory e r =
      let map_key = record_map_key r.workspace_id r.id in
      let new_charge = estimate_resident_charge r in
      let old_charge = charge_at map_key e.resident_charge_bytes in
      record e {
        records = insert map_key r e.records;
        dedup_index =
            if is_empty r.dedup_key
            then e.dedup_index
            else insert (record_map_key r.workspace_id r.dedup_key) r.id e.dedup_index;
        resident_charge_bytes =
            if new_charge == 0
            then erase map_key e.resident_charge_bytes
            else insert map_key new_charge e.resident_charge_bytes;
        retriever =
            if r.tombstone
            then retriever.remove e.retriever r.workspace_id r.id
            else retriever.index e.retriever r;
        resident_used_bytes =
            if leb old_charge new_charge
            then add64 e.resident_used_bytes (new_charge - old_charge)
            else sub64 e.resident_used_bytes (old_charge - new_charge);
      }

  unfoldable pub upsert_all : Engine env → List MemoryRecord → Engine env
  upsert_all e [] = e
  upsert_all e (r ∷ rs) = upsert_all (upsert_record_in_memory e r) rs

  unfoldable pub remove_record_in_memory : Engine env → MemoryRecord → Engine env
  remove_record_in_memory e r =
      let map_key = record_map_key r.workspace_id r.id in
      let charge = charge_at map_key e.resident_charge_bytes in
      let charges = erase map_key e.resident_charge_bytes in
      elim (find map_key e.records) [
        | none ↦ record e { resident_charge_bytes = charges }
        | some old ↦ record e {
          records = erase map_key e.records;
          dedup_index =
              if is_empty old.dedup_key
              then e.dedup_index
              else erase (record_map_key r.workspace_id old.dedup_key) e.dedup_index;
          resident_charge_bytes = charges;
          resident_used_bytes =
              if ltb 0 charge then sub64 e.resident_used_bytes charge else e.resident_used_bytes;
          retriever = retriever.remove e.retriever r.workspace_id r.id;
        }
      ]

  -- `rank < best_rank || (rank == best_rank && rec is older)`
  unfoldable pub beats : MemoryRecord → MemoryRecord → ℕ → Bool
  beats rec best now =
      let rank = eviction_rank fpu rec now in
      let best_rank = eviction_rank fpu best now in
      fpu.lt rank best_rank || (fpu.eq rank best_rank && ltb rec.updated_at_ms best.updated_at_ms)

  -- One round of the loop of the `pick_candidate` closure.
  unfoldable pub consider :
      Bool → Option (List Text) → ℕ → MemoryRecord → Option MemoryRecord → Option MemoryRecord
  consider allow_protected protected_keys now rec candidate =
      if rec.pinned
      then candidate
      else if not allow_protected && is_protected protected_keys rec
      then candidate
      else elim candidate [
        | none ↦ some rec
        | some best ↦ if beats rec best now then some rec else some best
      ]

  unfoldable pub pick_candidate :
      Bool → Option (List Text) → ℕ → Map MemoryRecord → Option MemoryRecord → Option MemoryRecord
  pick_candidate allow_protected protected_keys now [] candidate = candidate
  pick_candidate allow_protected protected_keys now ((k, rec) ∷ records) candidate =
      pick_candidate allow_protected protected_keys now records
        (consider allow_protected protected_keys now rec candidate)

  unfoldable pub select_eviction_candidate :
      ℕ → Option (List Text) → Map MemoryRecord → Option MemoryRecord
  select_eviction_candidate now protected_keys records =
      elim (pick_candidate false protected_keys now records none) [
        | some victim ↦ some victim
        | none ↦
            if any_protected protected_keys
            then pick_candidate true protected_keys now records none
            else none
      ]

  -- What one eviction does.
  unfoldable pub evict : Engine env → MemoryRecord → Engine env
  evict e victim =
      let map_key = record_map_key victim.workspace_id victim.id in
      let charge = charge_at map_key e.resident_charge_bytes in
      record e {
        records = erase map_key e.records;
        resident_charge_bytes = erase map_key e.resident_charge_bytes;
        resident_used_bytes =
            if ltb 0 charge then sub64 e.resident_used_bytes charge else e.resident_used_bytes;
        retriever = retriever.remove e.retriever victim.workspace_id victim.id;
        resident_evicted_count = add64 e.resident_evicted_count 1;
      }

  -- The `while` loop. `none` means that the fuel ran out. A candidate that is not under its key
  -- makes the loop go round again.
  unfoldable pub evict_while : ℕ → Option (List Text) → Engine env → Option (Engine env)
  evict_while zero protected_keys e = none
  evict_while (suc fuel) protected_keys e =
      if leb e.resident_used_bytes (resident_limit_bytes env e.options) || is_empty e.records
      then some e
      else (let (now, e') = now_ms env e in
          elim (select_eviction_candidate now protected_keys e'.records) [
            | none ↦ some e'
            | some victim ↦ elim (find (record_map_key victim.workspace_id victim.id) e'.records) [
              | none ↦ evict_while fuel protected_keys e'
              | some _ ↦ evict_while fuel protected_keys (evict e' victim)
            ]
          ])

  -- `EnforceResidentHardLimit`; a round per resident record, and one to stop, are enough.
  unfoldable pub enforce_resident_hard_limit : Option (List Text) → Engine env → Option (Engine env)
  enforce_resident_hard_limit protected_keys e =
      if resident_limit_bytes env e.options == 0
      then some e
      else evict_while (length e.records + 1) protected_keys e
