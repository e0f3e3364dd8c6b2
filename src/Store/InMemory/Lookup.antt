-- ===== src/Store/InMemory/Lookup.antt =====
-- src/store/in_memory_store_adapter.cpp as a map: what `Get` returns after the writes.
use poorguy_mem.Common.{
  ℕ, ◌<◌, ◌≡◌, refl, ◌∙◌, true, ◌&&◌, Option, none, some, List, [], ◌∷◌, Text, text_eq, text_eq_iff,
  if◌then◌else◌, ◌==◌, Map, find, insert, insert_ordered, erase, find-insert, find-insert_ordered,
  find-erase, length, is_empty, set, length-set, get_elem?-set, arith, Option-cases, inl, inr,
}
use mathlib.Core.Path.{fun_ext}
use poorguy_mem.Types.{WriteEntry}
use poorguy_mem.Store.{Content, apply_entry, apply_entries, get_value}
use poorguy_mem.Store.InMemory.{
  StoredValue, Shard, InMemoryStore, shard_count, done, shard_at, namespace_map, shard_index,
  upsert_locked, delete_locked, put, get, delete, write_entry, batch_write,
}

-- The value under a key of a namespace of a shard.
abbrev stored : Shard → Text → Text → Option StoredValue
stored shard ns key = find key (namespace_map ns shard)

abbrev value_of : Option StoredValue → Option Text
value_of none = none
value_of (some v) = some v.value

shard_at-set :
    (shards : List Shard) (i j : ℕ) (shard : Shard)
    → i < length shards
    → shard_at (set shards i shard) j ≡ (if i == j then shard else shard_at shards j)
shard_at-set shards i j shard h = ground (arith, get_elem?-set shards i j shard)

stored-insert :
    (shard : Shard) (ns ns' key : Text) (m : Map StoredValue)
    → stored (insert ns m shard) ns' key
      ≡ (if text_eq ns ns' then find key m else stored shard ns' key)
stored-insert shard ns ns' key m = ground (arith, find-insert ns ns' m shard)

stored-erase :
    (shard : Shard) (ns ns' key : Text)
    → stored (erase ns shard) ns' key ≡ (if text_eq ns ns' then none else stored shard ns' key)
unfolding find
stored-erase shard ns ns' key = ground (arith, find-erase ns ns' shard)

find-nil : (key : Text) → find {V = StoredValue} key [] ≡ none
unfolding find
find-nil key = refl

find-is_empty : (key : Text) (m : Map StoredValue) → is_empty m ≡ true → find key m ≡ none
unfolding find
find-is_empty key [] h = refl
find-is_empty key (x ∷ m) h = cc

module _ (hash : Text → ℕ) (size : ℕ) where
  -- What each key of each namespace holds, as `Get` shows it.
  abbrev pub content : InMemoryStore → Content
  content s ns key = get_value (get hash size s ns key)

  shard_index_lt : (ns key : Text) → shard_index hash size ns key < 32
  unfolding shard_index
  shard_index_lt ns key = omega arith

  content-stored :
      (s : InMemoryStore) (ns key : Text)
      → content s ns key
        ≡ value_of (stored (shard_at s.shards (shard_index hash size ns key)) ns key)
  unfolding get find
  content-stored s ns key = ground arith

  shards-upsert :
      (s : InMemoryStore) (idx : ℕ) (ns key value : Text) (ts : ℕ)
      → let shard = shard_at s.shards idx in
        (upsert_locked hash size s idx ns key value ts).shards
        ≡ set s.shards idx (
            insert ns
              (insert_ordered key (record { value = value; ts = ts }) (namespace_map ns shard))
              shard)
  unfolding upsert_locked
  shards-upsert s idx ns key value ts = ground arith

  -- A put sets its key and leaves every other key of every namespace as it was.
  pub content-put :
      (s : InMemoryStore) (ns key value : Text) (ts : ℕ) (ns' key' : Text)
      → length s.shards ≡ shard_count
      → content (put hash size s ns key value ts).1 ns' key'
        ≡ (if text_eq ns ns' && text_eq key key' then some value else content s ns' key')
  unfolding put
  content-put s ns key value ts ns' key' valid =
      let idx = shard_index hash size ns key in
      let idx' = shard_index hash size ns' key' in
      let shard = shard_at s.shards idx in
      let v : StoredValue = record { value = value; ts = ts } in
      let m = insert_ordered key v (namespace_map ns shard) in
      ground (
        arith,
        content-stored (upsert_locked hash size s idx ns key value ts) ns' key',
        content-stored s ns' key',
        shards-upsert s idx ns key value ts,
        shard_at-set s.shards idx idx' (insert ns m shard),
        stored-insert shard ns ns' key' m,
        find-insert_ordered key key' v (namespace_map ns shard),
        text_eq_iff ns ns',
        text_eq_iff key key',
        shard_index_lt ns key,
      )

  stored-delete :
      (s : InMemoryStore) (idx : ℕ) (ns key : Text) (j : ℕ) (ns' key' : Text)
      → idx < length s.shards
      → stored (shard_at (delete_locked hash size s idx ns key).shards j) ns' key' ≡ (
          if idx == j && (text_eq ns ns' && text_eq key key')
          then none
          else stored (shard_at s.shards j) ns' key')
  unfolding delete_locked
  stored-delete s idx ns key j ns' key' h =
      let shard = shard_at s.shards idx in
      elim (Option-cases (find ns shard)) [
        | inl e ↦
            rw (e, delete_locked)
              (ground (arith, text_eq_iff ns ns', text_eq_iff key key', find-nil key'))
        | inr (m, e) ↦ elim (Option-cases (find key m)) [
          | inl f ↦
              rw (e, delete_locked, f) (ground (arith, text_eq_iff ns ns', text_eq_iff key key'))
          | inr (v, f) ↦
              let rest = erase key m in
              rw (e, delete_locked, f)
                (ground (
                  arith,
                  shard_at-set s.shards idx j (erase ns shard),
                  shard_at-set s.shards idx j (insert ns rest shard),
                  stored-insert shard ns ns' key' rest,
                  stored-erase shard ns ns' key',
                  find-erase key key' m,
                  find-is_empty key' rest,
                  text_eq_iff ns ns',
                  text_eq_iff key key',
                ))
        ]
      ]

  -- A delete removes its key and leaves every other key of every namespace as it was.
  pub content-delete :
      (s : InMemoryStore) (ns key : Text) (ts : ℕ) (ns' key' : Text)
      → length s.shards ≡ shard_count
      → content (delete hash size s ns key ts).1 ns' key'
        ≡ (if text_eq ns ns' && text_eq key key' then none else content s ns' key')
  unfolding delete
  content-delete s ns key ts ns' key' valid =
      let idx = shard_index hash size ns key in
      let idx' = shard_index hash size ns' key' in
      ground (
        arith,
        content-stored (delete_locked hash size s idx ns key) ns' key',
        content-stored s ns' key',
        stored-delete s idx ns key idx' ns' key',
        text_eq_iff ns ns',
        text_eq_iff key key',
        shard_index_lt ns key,
      )

  pub length-put :
      (s : InMemoryStore) (ns key value : Text) (ts : ℕ)
      → length (put hash size s ns key value ts).1.shards ≡ length s.shards
  unfolding put upsert_locked
  length-put s ns key value ts = grind (arith, length-set)

  pub length-delete :
      (s : InMemoryStore) (ns key : Text) (ts : ℕ)
      → length (delete hash size s ns key ts).1.shards ≡ length s.shards
  unfolding delete delete_locked
  length-delete s ns key ts = grind (arith, length-set)

  write_entry-done : (s : InMemoryStore) (e : WriteEntry) → (write_entry hash size s e).0 ≡ done
  unfolding write_entry put delete
  write_entry-done s e = ground arith

  length-write_entry :
      (s : InMemoryStore) (e : WriteEntry)
      → length (write_entry hash size s e).1.shards ≡ length s.shards
  unfolding write_entry
  length-write_entry s e = grind (arith, length-put s, length-delete s)

  content-write_entry :
      (s : InMemoryStore) (e : WriteEntry)
      → length s.shards ≡ shard_count
      → content (write_entry hash size s e).1 ≡ apply_entry (content s) e
  unfolding write_entry
  content-write_entry s e valid = fun_ext λ ns. fun_ext λ key. ground (
    arith,
    content-put s e.entry.name_space e.entry.key e.entry.value e.entry.ts ns key valid,
    content-delete s e.entry.name_space e.entry.key e.entry.ts ns key valid,
  )

  -- A batch reports success, keeps the 32 shards, and leaves under each key of each namespace what
  -- its entries leave there, applied one after another to what the store held.
  pub batch_write-refines :
      (s : InMemoryStore) (entries : List WriteEntry)
      → length s.shards ≡ shard_count
      → let (result, s') = batch_write hash size s entries in
        (result.ok ≡ true)
        × (length s'.shards ≡ shard_count)
        × ((ns key : Text) → content s' ns key ≡ apply_entries (content s) entries ns key)
  unfolding batch_write
  batch_write-refines s [] valid = (refl, valid, λ ns key. refl)
  batch_write-refines s (e ∷ es) valid =
      let s' = (write_entry hash size s e).1 in
      let ih = batch_write-refines s' es (length-write_entry s e ∙ valid) in
      rw (write_entry-done, ← content-write_entry s e valid) ih
