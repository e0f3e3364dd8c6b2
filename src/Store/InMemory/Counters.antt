-- ===== src/Store/InMemory/Counters.antt =====
-- src/store/in_memory_store_adapter.cpp: the counters of `ApproximateUsage` against what the shards
-- hold.
use poorguy_mem.Common.{
  ℕ, ◌+◌, ◌-◌, ◌%◌, ◌<◌, ◌≡◌, refl, ◌∙◌, Bool, true, false, some, List, [], ◌∷◌, Text,
  if◌then◌else◌, Map, find, insert, insert_ordered, erase, at_key, length, is_empty, set,
  length-set, sub64, add64_tracks, sub64_tracks, word, arith, Option-cases, Bool-cases, inl, inr,
}
use poorguy_mem.Types.{WriteEntry, WriteOp}
use poorguy_mem.Store.InMemory.{
  StoredValue, Shard, InMemoryStore, shard_count, no_shards, shard_at, namespace_map,
  entry_footprint_bytes, shard_index, upsert_locked, delete_locked, put, delete, write_entry,
  batch_write,
}
use poorguy_mem.Store.InMemory.Weights.{
  IsValidShard, AllValid, shard_weight, weight, weight-set, weight-upsert, weight-delete,
  set-AllValid, shard_at-IsValid, upsert-IsValidShard, delete-IsValidShard, replicate-AllValid,
}

module _ (hash : Text → ℕ) (size : ℕ) where
  abbrev footprint : Text → Text → StoredValue → ℕ
  footprint ns key v = entry_footprint_bytes hash size ns key v.value

  abbrev one : Text → Text → StoredValue → ℕ
  one ns key v = 1

  -- 32 well-formed shards, and counters that hold, modulo 2^64, the bytes and the number of the
  -- entries that stand in the shards.
  pub record IsConsistent (s : InMemoryStore) : Type 0 where
    pub size_shards : length s.shards ≡ shard_count
    pub shards_valid : AllValid s.shards
    pub bytes : s.approx_mem_used_bytes ≡ weight footprint s.shards % word
    pub items : s.approx_item_count ≡ weight one s.shards % word

  upsert-IsConsistent :
      (s : InMemoryStore) (idx : ℕ) (ns key value : Text) (ts : ℕ)
      → idx < shard_count
      → IsConsistent s
      → IsConsistent (upsert_locked hash size s idx ns key value ts)
  unfolding upsert_locked
  upsert-IsConsistent s idx ns key value ts h c =
      elim (Option-cases (find key (namespace_map ns shard))) [
        | inl e ↦
            rw (e, upsert_locked)
              (record {
                size_shards = length-set s.shards idx _ ∙ c.size_shards;
                shards_valid = valid;
                bytes = ground (
                  arith,
                  added footprint,
                  add64_tracks (weight footprint s.shards)
                      (weight footprint (set s.shards idx shard')) (footprint ns key v),
                  c.bytes,
                );
                items = ground (
                  arith,
                  added one,
                  add64_tracks (weight one s.shards) (weight one (set s.shards idx shard')) 1,
                  c.items,
                );
              })
        | inr (old, e) ↦
            rw (e, upsert_locked)
              (record {
                size_shards = length-set s.shards idx _ ∙ c.size_shards;
                shards_valid = valid;
                bytes = ground (
                  arith,
                  added footprint,
                  c.bytes,
                  add64_tracks (weight footprint s.shards)
                      (weight footprint (set s.shards idx shard'))
                      (footprint ns key v - footprint ns key old),
                  sub64_tracks (weight footprint s.shards)
                      (weight footprint (set s.shards idx shard'))
                      (footprint ns key old - footprint ns key v),
                );
                items = ground (arith, added one, c.items);
              })
      ]
    where
      shard : Shard
      shard = shard_at s.shards idx

      v : StoredValue
      v = record { value = value; ts = ts }

      shard' : Shard
      shard' = insert ns (insert_ordered key v (namespace_map ns shard)) shard

      valid : AllValid (set s.shards idx shard')
      valid =
          set-AllValid s.shards idx shard'
            (upsert-IsValidShard shard ns key v (shard_at-IsValid s.shards idx c.shards_valid))
            c.shards_valid

      added :
          (w : Text → Text → StoredValue → ℕ)
          → weight w (set s.shards idx shard')
              + at_key (w ns) key (find key (namespace_map ns shard))
            ≡ weight w s.shards + w ns key v
      added w =
          let a = (shard_at-IsValid s.shards idx c.shards_valid).ordered in
          omega (
            arith,
            weight-set w s.shards idx shard' (ground (arith, c.size_shards)),
            weight-upsert w shard ns key v a,
          )

  delete-IsConsistent :
      (s : InMemoryStore) (idx : ℕ) (ns key : Text)
      → idx < shard_count
      → IsConsistent s
      → IsConsistent (delete_locked hash size s idx ns key)
  unfolding delete_locked
  delete-IsConsistent s idx ns key h c = elim (Option-cases (find ns shard)) [
    | inl e ↦ rw (e, delete_locked) c
    | inr (m, e) ↦ elim (Option-cases (find key m)) [
      | inl f ↦ rw (e, delete_locked, f) c
      | inr (old, f) ↦ rw (e, delete_locked, f) (removed m old e f (is_empty (erase key m)) refl)
    ]
  ]
    where
      shard : Shard
      shard = shard_at s.shards idx

      valid : IsValidShard shard
      valid = shard_at-IsValid s.shards idx c.shards_valid

      -- The state after the write of a shard that lost `old`.
      written : (shard' : Shard) (old : StoredValue) → InMemoryStore
      written shard' old = record {
        shards = set s.shards idx shard';
        approx_mem_used_bytes = sub64 s.approx_mem_used_bytes (footprint ns key old);
        approx_item_count = sub64 s.approx_item_count 1;
      }

      counted :
          (shard' : Shard) (old : StoredValue)
          → IsValidShard shard'
          → ((w : Text → Text → StoredValue → ℕ)
              → shard_weight w shard' + w ns key old ≡ shard_weight w shard)
          → IsConsistent (written shard' old)
      counted shard' old v lost =
          let lt : idx < length s.shards = ground (arith, c.size_shards) in
          let left : (w : Text → Text → StoredValue → ℕ)
              → weight w (set s.shards idx shard') + w ns key old ≡ weight w s.shards =
            λ w. omega (arith, weight-set w s.shards idx shard' lt, lost w) in
          record {
            size_shards = length-set s.shards idx _ ∙ c.size_shards;
            shards_valid = set-AllValid s.shards idx shard' v c.shards_valid;
            bytes = rw c.bytes (sub64_tracks _ _ _ (left footprint));
            items = rw c.items (sub64_tracks _ _ _ (left one));
          }

      removed :
          (m : Map StoredValue) (old : StoredValue)
          → find ns shard ≡ some m
          → find key m ≡ some old
          → (b : Bool) → is_empty (erase key m) ≡ b
          → IsConsistent (written (if b then erase ns shard else insert ns (erase key m) shard) old)
      removed m old e f true empty =
          counted _ old (delete-IsValidShard shard ns key m valid e).1
            (λ w. (weight-delete w shard ns key m old valid e f).1 empty)
      removed m old e f false _ =
          counted _ old (delete-IsValidShard shard ns key m valid e).0
            (λ w. (weight-delete w shard ns key m old valid e f).0)

  shard_index_lt : (ns key : Text) → shard_index hash size ns key < shard_count
  unfolding shard_index
  shard_index_lt ns key = omega arith

  write_entry-IsConsistent :
      (s : InMemoryStore) (e : WriteEntry)
      → IsConsistent s
      → IsConsistent (write_entry hash size s e).1
  unfolding write_entry put delete
  write_entry-IsConsistent s e c = cases e.op refl
    where
      open e.entry use {name_space, key, value, ts}

      idx : ℕ
      idx = shard_index hash size name_space key

      cases : (op : WriteOp) → e.op ≡ op → IsConsistent (write_entry hash size s e).1
      cases WriteOp.upsert h =
          rw (h, write_entry)
            (upsert-IsConsistent s idx name_space key value ts (shard_index_lt name_space key) c)
      cases WriteOp.delete h =
          rw (h, write_entry)
            (delete-IsConsistent s idx name_space key (shard_index_lt name_space key) c)

  -- Whatever a batch writes and deletes, overwrites and deletes of absent keys included, the byte
  -- and item counters of the usage report stay equal, modulo 2^64, to the bytes and the number of
  -- the entries in the shards, and the shards stay well formed.
  pub batch_write-IsConsistent :
      (s : InMemoryStore) (entries : List WriteEntry)
      → IsConsistent s
      → IsConsistent (batch_write hash size s entries).1
  unfolding batch_write
  batch_write-IsConsistent s [] c = c
  batch_write-IsConsistent s (e ∷ es) c = elim (Bool-cases (write_entry hash size s e).0.ok) [
    | inl f ↦
        rw (f, batch_write)
          (batch_write-IsConsistent (write_entry hash size s e).1 es
            (write_entry-IsConsistent s e c))
    | inr f ↦ rw (f, batch_write) (write_entry-IsConsistent s e c)
  ]

  pub no_shards-IsConsistent : IsConsistent no_shards
  unfolding weight shard_weight
  no_shards-IsConsistent = record {
    size_shards = refl;
    shards_valid = replicate-AllValid shard_count;
    bytes = refl;
    items = refl;
  }
