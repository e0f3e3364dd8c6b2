-- ===== src/Engine/Memory/Evicts.antt =====
-- `EnforceResidentHardLimit` of src/core/memory_engine.cpp: it ends, with the resident bytes within
-- the limit or nothing left to evict, and it evicts no pinned record.
use poorguy_mem.Common.{
  ℕ, zero, suc, ◌+◌, ◌≤◌, ◌<◌, ◌≡◌, refl, ap, ◌∙◌, ◌⊎◌, Bool, true, false, ◌&&◌, ◌||◌, not, Option,
  none, some, List, [], ◌∷◌, Text, text_eq_iff, leb, ◌==◌, ==_iff, Map, find, find-erase, length,
  length-erase, is_empty, All, All-mono, All-zip, All-self, IsUnique, arith, Option-cases,
  Bool-cases, inl, inr,
}
use mathlib.Core.Path.{subst}
use mathlib.Core.Option.{some-injective}
use poorguy_mem.Types.{MemoryRecord}
use poorguy_mem.Engine.State.{Env, Engine, resident_limit_bytes, now_ms}
use poorguy_mem.Engine.Memory.{
  consider, pick_candidate, select_eviction_candidate, evict, evict_while,
  enforce_resident_hard_limit, is_protected,
}
use poorguy_mem.Tokens.Terms.{contains}
use poorguy_mem.Engine.Memory.Charges.{own_key, Charged, evict-IsAccounted}

abbrev Entry : Type 0
Entry = Text × MemoryRecord

abbrev pub IsPinned : Entry → Type 0
IsPinned e = e.1.pinned ≡ true

module _ (env : Env) where
  module _ (allow : Bool) (protected : Option (List Text)) (now : ℕ) where
    -- The pick after a round is the one before it, or the unpinned record of the round.
    consider-some :
        (x : MemoryRecord) (candidate : Option MemoryRecord) (r : MemoryRecord)
        → consider env allow protected now x candidate ≡ some r
        → (candidate ≡ some r) ⊎ ((some x ≡ some r) × (x.pinned ≡ false))
    unfolding consider
    consider-some x none r h = ground arith
    consider-some x (some c) r h = ground arith

    -- A round without a pick had none before, and its record is pinned or protected.
    consider-none :
        (x : MemoryRecord) (candidate : Option MemoryRecord)
        → consider env allow protected now x candidate ≡ none
        → (candidate ≡ none)
          × ((x.pinned ≡ true) ⊎ ((not allow && is_protected protected x) ≡ true))
    unfolding consider
    consider-none x none h = ground arith
    consider-none x (some c) h = ground arith

    -- A property of the unpinned records is one of the pick.
    pick-All :
        (P : MemoryRecord → Type 0) (records : Map MemoryRecord) (candidate : Option MemoryRecord)
        → All (λ (e : Entry). e.1.pinned ≡ false → P e.1) records
        → ((r : MemoryRecord) → candidate ≡ some r → P r)
        → (r : MemoryRecord) → pick_candidate env allow protected now records candidate ≡ some r
        → P r
    unfolding pick_candidate
    pick-All P [] candidate a c r h = c r h
    pick-All P ((k, x) ∷ records) candidate a c r h =
        pick-All P records (consider env allow protected now x candidate) a.1 step r h
      where
        step : (r : MemoryRecord) → consider env allow protected now x candidate ≡ some r → P r
        step r h = elim (consider-some x candidate r h) [
          | inl before ↦ c r before
          | inr (same, unpinned) ↦ subst P (some-injective x r same) (a.0 unpinned)
        ]

    pick_none :
        (records : Map MemoryRecord) (candidate : Option MemoryRecord)
        → pick_candidate env allow protected now records candidate ≡ none
        → (candidate ≡ none)
          × All
              (λ (e : Entry).
                (e.1.pinned ≡ true) ⊎ ((not allow && is_protected protected e.1) ≡ true))
              records
    unfolding pick_candidate
    pick_none [] candidate h = (h, tt)
    pick_none ((k, x) ∷ records) candidate h =
        let (before, rest) = pick_none records (consider env allow protected now x candidate) h in
        let (none_yet, kept) = consider-none x candidate before in (none_yet, (kept, rest))

  -- With no victim left, every resident record is pinned.
  select_none :
      (now : ℕ) (protected : Option (List Text)) (records : Map MemoryRecord)
      → select_eviction_candidate env now protected records ≡ none
      → All IsPinned records
  unfolding select_eviction_candidate contains
  select_none now none records h =
      All-mono _ IsPinned records (λ e k. ground arith)
        (pick_none false none now records none (ground arith)).1
  select_none now (some []) records h =
      All-mono _ IsPinned records (λ e k. ground arith)
        (pick_none false (some []) now records none (ground arith)).1
  select_none now (some (p ∷ ps)) records h =
      All-mono _ IsPinned records (λ e k. ground arith)
        (pick_none true (some (p ∷ ps)) now records none (ground arith)).1

  -- A victim is an unpinned record that stands under its own key.
  select_some :
      (now : ℕ) (protected : Option (List Text)) (records : Map MemoryRecord)
      (victim : MemoryRecord)
      → IsUnique records
      → All (λ (e : Entry). own_key e.1 ≡ e.0) records
      → select_eviction_candidate env now protected records ≡ some victim
      → (victim.pinned ≡ false) × (find (own_key victim) records ≡ some victim)
  unfolding select_eviction_candidate
  select_some now protected records victim unique keyed h =
      elim (Option-cases (pick_candidate env false protected now records none)) [
        | inl e ↦ victims true (ground arith)
        | inr (r, e) ↦ victims false (ground arith)
      ]
    where
      victims :
          (allow : Bool)
          → pick_candidate env allow protected now records none ≡ some victim
          → (victim.pinned ≡ false) × (find (own_key victim) records ≡ some victim)
      victims allow e =
          pick-All allow protected now
            (λ r. (r.pinned ≡ false) × (find (own_key r) records ≡ some r)) records none
            (All-mono (λ (e : Entry). (own_key e.1 ≡ e.0) × (find e.0 records ≡ some e.1)) _ records
              (λ e k u. (u, ap (λ j. find j records) k.0 ∙ k.1))
              (All-zip _ _ records keyed (All-self records unique)))
            (λ r k. cc) victim e

  -- What an enforcement of the limit leaves.
  pub record Enforced (e e' : Engine env) : Type 0 where
    pub accounted : Charged e'
    pub within :
        (e'.resident_used_bytes ≤ resident_limit_bytes env e.options) ⊎ All IsPinned e'.records
    pub pinned_kept :
        (k : Text) (r : MemoryRecord)
        → find k e.records ≡ some r
        → r.pinned ≡ true
        → find k e'.records ≡ some r
    pub only_evicts :
        (k : Text) (r : MemoryRecord) → find k e'.records ≡ some r → find k e.records ≡ some r
    pub store_kept : e'.store ≡ e.store
    pub options_kept : e'.options ≡ e.options

  -- An eviction of an unpinned resident record, and then an enforcement, is an enforcement.
  evict_then :
      (e e' : Engine env) (n : ℕ) (victim : MemoryRecord)
      → victim.pinned ≡ false
      → find (own_key victim) e.records ≡ some victim
      → Enforced (evict env (record e { clock_reads = n }) victim) e'
      → Enforced e e'
  unfolding evict
  evict_then e e' n victim unpinned there rest = record {
    accounted = rest.accounted;
    within = rest.within;
    pinned_kept = λ k r h p.
        rest.pinned_kept k r
          (ground (
            arith,
            find-erase (own_key victim) k e.records,
            text_eq_iff (own_key victim) k,
            there,
            h,
          ))
          p;
    only_evicts =
        λ k r h. ground (arith, find-erase (own_key victim) k e.records, rest.only_evicts k r h);
    store_kept = rest.store_kept;
    options_kept = rest.options_kept;
  }

  stops :
      (e : Engine env) (n : ℕ)
      → Charged e
      → (e.resident_used_bytes ≤ resident_limit_bytes env e.options) ⊎ All IsPinned e.records
      → Enforced e (record e { clock_reads = n })
  stops e n a w = record {
    accounted = a;
    within = w;
    pinned_kept = λ k r h p. h;
    only_evicts = λ k r h. h;
    store_kept = refl;
    options_kept = refl;
  }

  within_or_empty :
      (used limit : ℕ) (records : Map MemoryRecord)
      → (leb used limit || is_empty records) ≡ true
      → (used ≤ limit) ⊎ All IsPinned records
  within_or_empty used limit [] h = inr tt
  within_or_empty used limit (x ∷ records) h = inl (ground arith)

  shorter :
      (fuel : ℕ) (e : Engine env) (n : ℕ) (victim : MemoryRecord)
      → find (own_key victim) e.records ≡ some victim
      → length e.records < suc fuel
      → length (evict env (record e { clock_reads = n }) victim).records < fuel
  unfolding evict
  shorter fuel e n victim there h =
      omega (arith, length-erase (own_key victim) victim e.records there)

  evict_while_lem :
      (fuel : ℕ) (protected : Option (List Text)) (e : Engine env)
      → length e.records < fuel
      → Charged e
      → (e' : Engine env) × (evict_while env fuel protected e ≡ some e') × Enforced e e'
  unfolding evict_while now_ms
  evict_while_lem zero protected e h a = elim h [ ]
  evict_while_lem (suc fuel) protected e h a =
      elim (Bool-cases (leb e.resident_used_bytes limit || is_empty e.records)) [
        | inl stop ↦ (
          e,
          rw (stop, evict_while),
          stops e e.clock_reads a (within_or_empty _ limit e.records stop),
        )
        | inr go ↦ elim (Option-cases (select_eviction_candidate env now protected e.records)) [
          | inl none_left ↦ (
            record e { clock_reads = e.clock_reads + 1 },
            rw (go, evict_while, none_left),
            stops e (e.clock_reads + 1) a (inr (select_none now protected e.records none_left)),
          )
          | inr (victim, picked) ↦
              let (unpinned, there) =
                select_some now protected e.records victim a.records_unique a.keyed picked in
              let e1 : Engine env = record e { clock_reads = e.clock_reads + 1 } in
              let (e', runs, enforced) =
                evict_while_lem fuel protected (evict env e1 victim)
                  (shorter fuel e (e.clock_reads + 1) victim there h)
                  (evict-IsAccounted env e1 victim a) in
              (
                e',
                rw (go, evict_while, picked, there) runs,
                evict_then e e' (e.clock_reads + 1) victim unpinned there enforced,
              )
        ]
      ]
    where
      limit : ℕ
      limit = resident_limit_bytes env e.options

      now : ℕ
      now = env.clock e.clock_reads

  -- From an accounted state the enforcement always ends: the accounting still holds, the resident
  -- bytes are within the limit, or every record left is pinned, or the limit is 0 (which means no
  -- limit). No pinned record is evicted, no record is added or changed, and the store and the
  -- options stay as they were.
  pub enforce_lem :
      (protected : Option (List Text)) (e : Engine env)
      → Charged e
      → (e' : Engine env) × (enforce_resident_hard_limit env protected e ≡ some e')
        × Charged e'
        × ((resident_limit_bytes env e.options ≡ 0)
            ⊎ (e'.resident_used_bytes ≤ resident_limit_bytes env e.options)
            ⊎ All IsPinned e'.records)
        × ((k : Text) (r : MemoryRecord)
            → find k e.records ≡ some r
            → r.pinned ≡ true
            → find k e'.records ≡ some r)
        × ((k : Text) (r : MemoryRecord) → find k e'.records ≡ some r → find k e.records ≡ some r)
        × (e'.store ≡ e.store)
        × (e'.options ≡ e.options)
  unfolding enforce_resident_hard_limit
  enforce_lem protected e a = elim (Bool-cases (resident_limit_bytes env e.options == 0)) [
    | inl off ↦ (
      e,
      rw (off, enforce_resident_hard_limit),
      a,
      inl ((==_iff _ 0).0 off),
      λ k r h p. h,
      λ k r h. h,
      refl,
      refl,
    )
    | inr on ↦
        let (e', runs, x) = evict_while_lem (length e.records + 1) protected e (omega arith) a in
        (
          e',
          rw (on, enforce_resident_hard_limit) runs,
          x.accounted,
          inr x.within,
          x.pinned_kept,
          x.only_evicts,
          x.store_kept,
          x.options_kept,
        )
  ]
