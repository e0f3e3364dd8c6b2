-- ===== src/Store/InMemory.antt =====
-- src/store/in_memory_store_adapter.cpp: a store of 32 shards, each a map from namespaces to
-- ordered maps, with counters of the entries and of their bytes. Each operation holds the lock of
-- the one shard that it touches, so it is one step here. The hash of the standard library and the
-- size of a `StoredValue` are parameters.
pub mod Lookup
pub mod Scans
pub mod Weights
pub mod Counters
use poorguy_mem.Common.{
  ℕ, ◌+◌, ◌-◌, ◌%◌, ◌≡◌, Bool, true, false, ◌&&◌, ◌||◌, not, Option, none, some, List, [], ◌∷◌,
  ◌++◌, map, Text, text, text_eq, text_lt, if◌then◌else◌, ltb, leb, Map, find, insert,
  insert_ordered, erase, length, is_empty, get_elem?, set, take, replicate, insert_by, add64, sub64,
}
use poorguy_mem.Types.{StoreResult, GetResult, KeyValueEntry, WriteEntry, WriteOp, StoreUsage}
use poorguy_mem.Store.{ScanResult, StoreAdapter, default_store_compact}

pub record StoredValue : Type 0 where
  pub value : Text
  pub ts : ℕ

abbrev pub Shard : Type 0
Shard = Map (Map StoredValue)

abbrev pub shard_count : ℕ
shard_count = 32

pub record InMemoryStore : Type 0 where
  pub shards : List Shard
  pub approx_mem_used_bytes : ℕ
  pub approx_item_count : ℕ

abbrev pub no_shards : InMemoryStore
no_shards = record {
  shards = replicate shard_count [];
  approx_mem_used_bytes = 0;
  approx_item_count = 0;
}

abbrev pub done : StoreResult
done = record { ok = true; error = [] }

-- `shards_[i]`
abbrev pub shard_at : List Shard → ℕ → Shard
shard_at shards i = elim (get_elem? shards i) [ none ↦ [] | some shard ↦ shard ]

-- `shard.db[name_space]`, empty where there is none yet
abbrev pub namespace_map : Text → Shard → Map StoredValue
namespace_map ns shard = elim (find ns shard) [ none ↦ [] | some m ↦ m ]

module _ (hash : Text → ℕ) (sizeof_stored_value : ℕ) where
  unfoldable pub entry_footprint_bytes : Text → Text → Text → ℕ
  entry_footprint_bytes ns key value = length ns + length key + length value + sizeof_stored_value

  unfoldable pub shard_index : Text → Text → ℕ
  shard_index ns key = hash (ns ++ (text ":" ++ key)) % shard_count

  unfoldable pub upsert_locked : InMemoryStore → ℕ → Text → Text → Text → ℕ → InMemoryStore
  upsert_locked s idx ns key value ts =
      let shard = shard_at s.shards idx in
      let ns_map = namespace_map ns shard in
      let shards' =
        set s.shards idx
          (insert ns (insert_ordered key (record { value = value; ts = ts }) ns_map) shard) in
      let new_bytes = entry_footprint_bytes ns key value in
      elim (find key ns_map) [
        | none ↦ record {
          shards = shards';
          approx_mem_used_bytes = add64 s.approx_mem_used_bytes new_bytes;
          approx_item_count = add64 s.approx_item_count 1;
        }
        | some existing ↦
            let old_bytes = entry_footprint_bytes ns key existing.value in
            record s {
              shards = shards';
              approx_mem_used_bytes =
                  if leb old_bytes new_bytes
                  then add64 s.approx_mem_used_bytes (new_bytes - old_bytes)
                  else sub64 s.approx_mem_used_bytes (old_bytes - new_bytes);
            }
      ]

  unfoldable pub delete_locked : InMemoryStore → ℕ → Text → Text → InMemoryStore
  delete_locked s idx ns key =
      let shard = shard_at s.shards idx in
      elim (find ns shard) [
        | none ↦ s
        | some ns_map ↦ elim (find key ns_map) [
          | none ↦ s
          | some existing ↦
              let rest = erase key ns_map in
              record {
                shards =
                    set s.shards idx
                      (if is_empty rest then erase ns shard else insert ns rest shard);
                approx_mem_used_bytes =
                    sub64 s.approx_mem_used_bytes (entry_footprint_bytes ns key existing.value);
                approx_item_count = sub64 s.approx_item_count 1;
              }
        ]
      ]

  unfoldable pub put : InMemoryStore → Text → Text → Text → ℕ → StoreResult × InMemoryStore
  put s ns key value ts = (done, upsert_locked s (shard_index ns key) ns key value ts)

  unfoldable pub get : InMemoryStore → Text → Text → GetResult
  get s ns key = elim (find ns (shard_at s.shards (shard_index ns key))) [
    | none ↦ record { found = false; value = []; error = [] }
    | some ns_map ↦ elim (find key ns_map) [
      | none ↦ record { found = false; value = []; error = [] }
      | some stored ↦ record { found = true; value = stored.value; error = [] }
    ]
  ]

  unfoldable pub delete : InMemoryStore → Text → Text → ℕ → StoreResult × InMemoryStore
  delete s ns key ts = (done, delete_locked s (shard_index ns key) ns key)

  -- One round of the loop of `BatchWrite`.
  unfoldable pub write_entry : InMemoryStore → WriteEntry → StoreResult × InMemoryStore
  write_entry s e = elim e.op [
    | WriteOp.delete ↦ delete s e.entry.name_space e.entry.key e.entry.ts
    | WriteOp.upsert ↦ put s e.entry.name_space e.entry.key e.entry.value e.entry.ts
  ]

  unfoldable pub batch_write : InMemoryStore → List WriteEntry → StoreResult × InMemoryStore
  batch_write s [] = (done, s)
  batch_write s (e ∷ es) =
      let (res, s') = write_entry s e in
      let rest = batch_write s' es in if res.ok then rest else (res, s')

unfoldable pub approximate_usage : InMemoryStore → StoreUsage
approximate_usage s = record {
  mem_used_bytes = s.approx_mem_used_bytes;
  disk_used_bytes = 0;
  item_count = s.approx_item_count;
}

-- `ns_map.lower_bound(begin)`
unfoldable pub lower_bound : Text → Map StoredValue → Map StoredValue
lower_bound begin [] = []
lower_bound begin ((k, v) ∷ m) =
    let rest = lower_bound begin m in if text_lt k begin then rest else (k, v) ∷ m

-- The loop over the iterator, which stops at the first key that is not below `end`.
unfoldable pub until_end : Text → Text → Map StoredValue → List KeyValueEntry
until_end ns end [] = []
until_end ns end ((k, v) ∷ m) =
    let rest = until_end ns end m in
    if not (is_empty end) && not (text_lt k end)
    then []
    else record { name_space = ns; key = k; value = v.value; ts = v.ts } ∷ rest

unfoldable pub scan_shards : Text → Text → Text → List Shard → List KeyValueEntry
scan_shards ns begin end [] = []
scan_shards ns begin end (shard ∷ shards) =
    let rest = scan_shards ns begin end shards in
    elim (find ns shard) [
      | none ↦ rest
      | some ns_map ↦ until_end ns end (lower_bound begin ns_map) ++ rest
    ]

-- By key, and among equal keys the newest first.
unfoldable pub entry_before : KeyValueEntry → KeyValueEntry → Bool
entry_before lhs rhs =
    if text_eq lhs.key rhs.key then ltb rhs.ts lhs.ts else text_lt lhs.key rhs.key

unfoldable pub sort_entries : List KeyValueEntry → List KeyValueEntry
sort_entries [] = []
sort_entries (e ∷ es) = insert_by entry_before e (sort_entries es)

-- `reserve`, which throws for a limit that no vector can hold, is left out: the engine scans with the
-- limit 0, for which it is not called.
unfoldable pub scan : InMemoryStore → Text → Text → Text → ℕ → ScanResult
scan s ns begin end limit =
    let out = sort_entries (scan_shards ns begin end s.shards) in
    record {
      entries = if ltb 0 limit && ltb limit (length out) then take limit out else out;
      error = [];
    }

-- The backend behind the interface.
abbrev pub in_memory : (hash : Text → ℕ) (sizeof_stored_value : ℕ) → StoreAdapter
in_memory hash size = record {
  State = InMemoryStore;
  put = put hash size;
  get = get hash size;
  delete = delete hash size;
  scan = scan;
  batch_write = batch_write hash size;
  approximate_usage = approximate_usage;
  trigger_store_compact_async = default_store_compact;
}
