-- ===== src/Engine/Memory/Charges.antt =====
-- The accounting of the resident bytes in src/core/memory_engine.cpp.
use poorguy_mem.Common.{
  ℕ, ◌+◌, ◌-◌, ◌%◌, ◌≡◌, refl, true, false, none, Text, if◌then◌else◌, leb, Map, find, insert,
  erase, IsUnique, find-insert, find-erase, insert-IsUnique, erase-IsUnique, total, at_key,
  total-insert, total-erase, All, All-insert, All-erase, ◌==◌, ==_iff, ltb, ◌⊎◌, add64, sub64,
  add64_tracks, sub64_tracks, word, arith, Option-cases, Bool-cases, inl, inr,
}
use poorguy_mem.Types.{MemoryRecord}
use poorguy_mem.Engine.Keys.{record_map_key}
use poorguy_mem.Engine.State.{Env, Engine}
use poorguy_mem.Engine.Memory.{
  charge_at, estimate_resident_charge, upsert_record_in_memory, remove_record_in_memory, evict,
}

abbrev charge : Text → ℕ → ℕ
charge k n = n

abbrev pub own_key : MemoryRecord → Text
own_key r = record_map_key r.workspace_id r.id

-- Each record stands under its own key, only resident records are charged, and the counter holds
-- the sum of the charges modulo 2^64.
pub record IsAccounted (records : Map MemoryRecord) (charges : Map ℕ) (used : ℕ) : Type 0 where
  pub records_unique : IsUnique records
  pub keyed : All (λ (e : Text × MemoryRecord). own_key e.1 ≡ e.0) records
  pub charges_unique : IsUnique charges
  pub covered : (k : Text) → find k records ≡ none → find k charges ≡ none
  pub used_sum : used ≡ total charge charges % word

at_charge : (k : Text) (charges : Map ℕ) → at_key charge k (find k charges) ≡ charge_at k charges
at_charge k charges = ground arith

total-insert-charge :
    (k : Text) (n : ℕ) (charges : Map ℕ)
    → total charge (insert k n charges) + charge_at k charges ≡ total charge charges + n
total-insert-charge k n charges = rw (← at_charge k charges) (total-insert charge k n charges)

total-erase-charge :
    (k : Text) (charges : Map ℕ)
    → IsUnique charges
    → total charge (erase k charges) + charge_at k charges ≡ total charge charges
total-erase-charge k charges u = rw (← at_charge k charges) (total-erase charge k charges u)

abbrev pub Charged : {env : Env} → Engine env → Type 0
Charged e = IsAccounted e.records e.resident_charge_bytes e.resident_used_bytes

module _ (env : Env) where
  -- The difference of two charges, added or subtracted as the code does.
  adjust_tracks :
      (s t old new : ℕ)
      → t + old ≡ s + new
      → (if leb old new then add64 (s % word) (new - old) else sub64 (s % word) (old - new))
        ≡ t % word
  adjust_tracks s t old new h =
      ground (arith, add64_tracks s t (new - old), sub64_tracks s t (old - new))

  -- An upsert, of a new record or over an old one, keeps the accounting.
  pub upsert-IsAccounted :
      (e : Engine env) (r : MemoryRecord) → Charged e → Charged (upsert_record_in_memory env e r)
  unfolding upsert_record_in_memory
  upsert-IsAccounted e r a = record {
    records_unique = insert-IsUnique k r e.records a.records_unique;
    keyed = All-insert _ k r e.records refl a.keyed;
    charges_unique = ground (
      arith,
      insert-IsUnique k n charges a.charges_unique,
      erase-IsUnique k charges a.charges_unique,
    );
    covered = λ j h. ground (
      arith,
      h,
      find-insert k j r e.records,
      find-insert k j n charges,
      find-erase k j charges,
      a.covered j,
    );
    used_sum = rw a.used_sum (new_sum (Bool-cases (n == 0)));
  }
    where
      k : Text
      k = own_key r

      n : ℕ
      n = estimate_resident_charge env r

      charges : Map ℕ
      charges = e.resident_charge_bytes

      old : ℕ
      old = charge_at k charges

      s : ℕ
      s = total charge charges

      new_sum :
          ((n == 0) ≡ true) ⊎ ((n == 0) ≡ false)
          → (if leb old n then add64 (s % word) (n - old) else sub64 (s % word) (old - n))
            ≡ total charge (if n == 0 then erase k charges else insert k n charges) % word
      new_sum (inl z) = rw z (
          adjust_tracks s (total charge (erase k charges)) old n
            (omega (arith, total-erase-charge k charges a.charges_unique, (==_iff n 0).0 z)))
      new_sum (inr z) = rw z (
          adjust_tracks s (total charge (insert k n charges)) old n
            (total-insert-charge k n charges))

  -- So does the eviction of a record.
  pub evict-IsAccounted :
      (e : Engine env) (victim : MemoryRecord) → Charged e → Charged (evict env e victim)
  unfolding evict
  evict-IsAccounted e victim a = removed (own_key victim)
    where
      charges : Map ℕ
      charges = e.resident_charge_bytes

      removed :
          (k : Text)
          → IsAccounted (erase k e.records) (erase k charges) (
              if ltb 0 (charge_at k charges)
              then sub64 e.resident_used_bytes (charge_at k charges)
              else e.resident_used_bytes)
      removed k = record {
        records_unique = erase-IsUnique k e.records a.records_unique;
        keyed = All-erase _ k e.records a.keyed;
        charges_unique = erase-IsUnique k charges a.charges_unique;
        covered =
            λ j h. ground (arith, h, find-erase k j e.records, find-erase k j charges, a.covered j);
        used_sum = ground (
          arith,
          a.used_sum,
          sub64_tracks (total charge charges) (total charge (erase k charges))
              (charge_at k charges),
          total-erase-charge k charges a.charges_unique,
        );
      }

  -- And the removal of a record, resident or not.
  pub remove-IsAccounted :
      (e : Engine env) (r : MemoryRecord) → Charged e → Charged (remove_record_in_memory env e r)
  unfolding remove_record_in_memory
  remove-IsAccounted e r a = elim (Option-cases (find k e.records)) [
    | inl absent ↦
        rw (absent, remove_record_in_memory)
          (record {
            records_unique = a.records_unique;
            keyed = a.keyed;
            charges_unique = erase-IsUnique k charges a.charges_unique;
            covered = λ j h. ground (arith, h, find-erase k j charges, a.covered j);
            used_sum = ground (
              arith,
              a.used_sum,
              a.covered k absent,
              total-erase-charge k charges a.charges_unique,
            );
          })
    | inr (old, there) ↦
        rw (there, remove_record_in_memory)
          (let v = evict-IsAccounted e r a in
            record {
              records_unique = erase-IsUnique k e.records a.records_unique;
              keyed = All-erase _ k e.records a.keyed;
              charges_unique = erase-IsUnique k charges a.charges_unique;
              covered = λ j h.
                  ground (arith, h, find-erase k j e.records, find-erase k j charges, a.covered j);
              used_sum = ground (
                arith,
                a.used_sum,
                sub64_tracks (total charge charges) (total charge (erase k charges))
                    (charge_at k charges),
                total-erase-charge k charges a.charges_unique,
              );
            })
  ]
    where
      k : Text
      k = own_key r

      charges : Map ℕ
      charges = e.resident_charge_bytes
