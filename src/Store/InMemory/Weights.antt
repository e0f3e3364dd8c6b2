-- ===== src/Store/InMemory/Weights.antt =====
-- The weight of the shards of src/store/in_memory_store_adapter.cpp: the sum of a measure over all
-- their entries, and what a write to one shard does to it. And what makes a shard well formed.
use poorguy_mem.Common.{
  ℕ, zero, suc, ◌+◌, ◌<◌, ◌≡◌, refl, ap, true, Option, none, some, List, [], ◌∷◌, Text, Map, find,
  insert, insert_ordered, erase, IsUnique, IsOrdered, insert-IsUnique, erase-IsUnique,
  insert_ordered-IsOrdered, erase-IsOrdered, IsOrdered-IsUnique, total, at_key, total-insert,
  total-erase, total-insert_ordered, length, is_empty, set, replicate, All, arith, Option-cases,
  inl, inr,
}
use poorguy_mem.Store.InMemory.{StoredValue, Shard, shard_at, namespace_map}

abbrev pub Namespace : Type 0
Namespace = Text × Map StoredValue

pub record IsValidShard (shard : Shard) : Type 0 where
  pub unique : IsUnique shard
  pub ordered : All (λ (e : Namespace). IsOrdered e.1) shard

abbrev AllOrdered : Shard → Type 0
AllOrdered = All (λ (e : Namespace). IsOrdered e.1)

insert-AllOrdered :
    (ns : Text) (m : Map StoredValue) (shard : Shard)
    → IsOrdered m
    → AllOrdered shard
    → AllOrdered (insert ns m shard)
unfolding insert
insert-AllOrdered ns m [] o a = (o, tt)
insert-AllOrdered ns m ((i, n) ∷ shard) o a = ground (arith, insert-AllOrdered ns m shard o a.1)

erase-AllOrdered : (ns : Text) (shard : Shard) → AllOrdered shard → AllOrdered (erase ns shard)
unfolding erase
erase-AllOrdered ns [] a = tt
erase-AllOrdered ns ((i, n) ∷ shard) a = ground (arith, erase-AllOrdered ns shard a.1)

find-AllOrdered :
    (ns : Text) (shard : Shard) (m : Map StoredValue)
    → find ns shard ≡ some m
    → AllOrdered shard
    → IsOrdered m
unfolding find
find-AllOrdered ns [] m h a = cc
find-AllOrdered ns ((i, n) ∷ shard) m h a = ground (arith, find-AllOrdered ns shard m)

-- The sum of a measure over all that the shards hold.
module _ (w : Text → Text → StoredValue → ℕ) where
  unfoldable pub shard_weight : Shard → ℕ
  shard_weight = total (λ ns m. total (w ns) m)

  unfoldable pub weight : List Shard → ℕ
  weight [] = 0
  weight (shard ∷ shards) = shard_weight shard + weight shards

  pub weight-set :
      (shards : List Shard) (i : ℕ) (shard : Shard)
      → i < length shards
      → weight (set shards i shard) + shard_weight (shard_at shards i)
        ≡ weight shards + shard_weight shard
  unfolding weight
  weight-set [] i shard h = elim h [ ]
  weight-set (x ∷ xs) zero shard h = omega arith
  weight-set (x ∷ xs) (suc i) shard h = omega (arith, weight-set xs i shard)

  -- What an upsert adds to the weight of a shard.
  pub weight-upsert :
      (shard : Shard) (ns key : Text) (v : StoredValue)
      → AllOrdered shard
      → let m = namespace_map ns shard in
        shard_weight (insert ns (insert_ordered key v m) shard) + at_key (w ns) key (find key m)
        ≡ shard_weight shard + w ns key v
  unfolding shard_weight
  weight-upsert shard ns key v a =
      let sum : Text → Map StoredValue → ℕ = λ ns m. total (w ns) m in
      elim (Option-cases (find ns shard)) [
        | inl e ↦
            rw (e, namespace_map)
              (omega (
                arith,
                total-insert sum ns (insert_ordered key v []) shard,
                ap (at_key sum ns) e,
                total-insert_ordered (w ns) key v [] tt,
              ))
        | inr (m, e) ↦
            rw (e, namespace_map)
              (omega (
                arith,
                total-insert sum ns (insert_ordered key v m) shard,
                ap (at_key sum ns) e,
                total-insert_ordered (w ns) key v m (find-AllOrdered ns shard m e a),
              ))
      ]

  total_empty : (ns : Text) (m : Map StoredValue) → is_empty m ≡ true → total (w ns) m ≡ 0
  total_empty ns [] h = refl
  total_empty ns (x ∷ m) h = cc

  pub weight-delete :
      (shard : Shard) (ns key : Text) (m : Map StoredValue) (v : StoredValue)
      → IsValidShard shard
      → find ns shard ≡ some m
      → find key m ≡ some v
      → (shard_weight (insert ns (erase key m) shard) + w ns key v ≡ shard_weight shard)
        × (is_empty (erase key m) ≡ true
            → shard_weight (erase ns shard) + w ns key v ≡ shard_weight shard)
  unfolding shard_weight
  weight-delete shard ns key m v valid e f =
      let sum : Text → Map StoredValue → ℕ = λ ns m. total (w ns) m in
      let unique = IsOrdered-IsUnique m (find-AllOrdered ns shard m e valid.ordered) in
      let one = total-erase (w ns) key m unique in
      (
        omega (
          arith,
          total-insert sum ns (erase key m) shard,
          ap (at_key sum ns) e,
          one,
          ap (at_key (w ns) key) f,
        ),
        λ h. omega (
          arith,
          total-erase sum ns shard valid.unique,
          ap (at_key sum ns) e,
          one,
          ap (at_key (w ns) key) f,
          total_empty ns (erase key m) h,
        ),
      )

-- Every shard is well formed.
abbrev pub AllValid : List Shard → Type 0
AllValid = All IsValidShard

pub set-AllValid :
    (shards : List Shard) (i : ℕ) (shard : Shard)
    → IsValidShard shard
    → AllValid shards
    → AllValid (set shards i shard)
set-AllValid [] i shard v a = tt
set-AllValid (x ∷ xs) zero shard v a = (v, a.1)
set-AllValid (x ∷ xs) (suc i) shard v a = (a.0, set-AllValid xs i shard v a.1)

pub shard_at-IsValid :
    (shards : List Shard) (i : ℕ) → AllValid shards → IsValidShard (shard_at shards i)
shard_at-IsValid [] i a = record { unique = tt; ordered = tt }
shard_at-IsValid (x ∷ xs) zero a = a.0
shard_at-IsValid (x ∷ xs) (suc i) a = shard_at-IsValid xs i a.1

pub upsert-IsValidShard :
    (shard : Shard) (ns key : Text) (v : StoredValue)
    → IsValidShard shard
    → IsValidShard (insert ns (insert_ordered key v (namespace_map ns shard)) shard)
upsert-IsValidShard shard ns key v valid = record {
  unique = insert-IsUnique ns _ shard valid.unique;
  ordered =
      insert-AllOrdered ns _ shard
        (insert_ordered-IsOrdered key v (namespace_map ns shard) (ordered_map (find ns shard) refl))
        valid.ordered;
}
  where
    ordered_map :
        (o : Option (Map StoredValue))
        → find ns shard ≡ o
        → IsOrdered (elim o as (λ _. Map StoredValue) [ none ↦ [] | some m ↦ m ])
    ordered_map none e = tt
    ordered_map (some m) e = find-AllOrdered ns shard m e valid.ordered

pub delete-IsValidShard :
    (shard : Shard) (ns key : Text) (m : Map StoredValue)
    → IsValidShard shard
    → find ns shard ≡ some m
    → IsValidShard (insert ns (erase key m) shard) × IsValidShard (erase ns shard)
delete-IsValidShard shard ns key m valid e =
    let o = erase-IsOrdered key m (find-AllOrdered ns shard m e valid.ordered) in
    (
      record {
        unique = insert-IsUnique ns _ shard valid.unique;
        ordered = insert-AllOrdered ns _ shard o valid.ordered;
      },
      record {
        unique = erase-IsUnique ns shard valid.unique;
        ordered = erase-AllOrdered ns shard valid.ordered;
      },
    )

pub replicate-AllValid : (n : ℕ) → AllValid (replicate n [])
replicate-AllValid zero = tt
replicate-AllValid (suc n) = (record { unique = tt; ordered = tt }, replicate-AllValid n)
