-- ===== src/Metrics.antt =====
-- src/core/metrics.cpp: latency histograms of sixteen buckets and one for the rest, token and
-- fallback counters, and the snapshot of them. Each counter is an atomic `uint64_t`.
pub mod Percentile
use poorguy_mem.Common.{
  ℕ, zero, suc, ◌+◌, ◌-◌, Bool, true, false, ◌&&◌, Option, none, some, List, [], ◌∷◌, if◌then◌else◌,
  ltb, leb, ◌==◌, get_elem?, set, replicate, add64, Double, Fpu,
}

pub record Metrics : Type 0 where
  pub read_lat_hist : List ℕ
  pub write_lat_hist : List ℕ
  pub token_before : ℕ
  pub token_after : ℕ
  pub fallback_total : ℕ
  pub fallback_used : ℕ

abbrev pub latency_bucket_count : ℕ
latency_bucket_count = 16

-- The constructor.
abbrev pub cleared : Metrics
cleared = record {
  read_lat_hist = replicate (latency_bucket_count + 1) 0;
  write_lat_hist = replicate (latency_bucket_count + 1) 0;
  token_before = 0;
  token_after = 0;
  fallback_total = 0;
  fallback_used = 0;
}

-- The part of `StatsSnapshot` that the metrics fill.
pub record Snapshot : Type 0 where
  pub p95_read_ms : Double
  pub p95_write_ms : Double
  pub token_reduction_ratio : Double
  pub fallback_rate : Double

-- hist[idx].fetch_add(1)
unfoldable pub bump : List ℕ → ℕ → List ℕ
bump hist idx = elim (get_elem? hist idx) [ none ↦ hist | some n ↦ set hist idx (add64 n 1) ]

unfoldable pub sum_hist : ℕ → List ℕ → ℕ
sum_hist total [] = total
sum_hist total (n ∷ hist) = sum_hist (add64 total n) hist

-- The bucket at which the cumulative count reaches the target, if any does.
unfoldable pub reach : ℕ → ℕ → ℕ → List ℕ → Option ℕ
reach target cumulative i [] = none
reach target cumulative i (n ∷ hist) =
    let cumulative' = add64 cumulative n in
    let rest = reach target cumulative' (i + 1) hist in
    if leb target cumulative' then some i else rest

module _ (fpu : Fpu) where
  abbrev pub latency_bucket_upper_ms : List Double
  latency_bucket_upper_ms =
      fpu.literal 1 1
      ∷ fpu.literal 2 1
      ∷ fpu.literal 5 1
      ∷ fpu.literal 1 0
      ∷ fpu.literal 2 0
      ∷ fpu.literal 5 0
      ∷ fpu.literal 10 0
      ∷ fpu.literal 20 0
      ∷ fpu.literal 40 0
      ∷ fpu.literal 80 0
      ∷ fpu.literal 120 0
      ∷ fpu.literal 200 0
      ∷ fpu.literal 400 0
      ∷ fpu.literal 800 0
      ∷ fpu.literal 1600 0
      ∷ fpu.literal 3200 0
      ∷ []

  abbrev last_bucket_upper_ms : Double
  last_bucket_upper_ms = fpu.literal 3200 0

  unfoldable pub bucket_from : Double → ℕ → List Double → ℕ
  bucket_from ms i [] = latency_bucket_count
  bucket_from ms i (upper ∷ uppers) =
      let rest = bucket_from ms (i + 1) uppers in if fpu.le ms upper then i else rest

  unfoldable pub bucket_index : Double → ℕ
  bucket_index ms =
      if fpu.lt ms (fpu.literal 0 0) then 0 else bucket_from ms 0 latency_bucket_upper_ms

  unfoldable pub record_read_latency : Metrics → Double → Metrics
  record_read_latency m ms = record m { read_lat_hist = bump m.read_lat_hist (bucket_index ms) }

  unfoldable pub record_write_latency : Metrics → Double → Metrics
  record_write_latency m ms = record m { write_lat_hist = bump m.write_lat_hist (bucket_index ms) }

  unfoldable pub record_token_reduction : Metrics → ℕ → ℕ → Metrics
  record_token_reduction m before_tokens after_tokens = record m {
    token_before = add64 m.token_before before_tokens;
    token_after = add64 m.token_after after_tokens;
  }

  unfoldable pub record_fallback : Metrics → Bool → Metrics
  record_fallback m used_fallback = record m {
    fallback_total = add64 m.fallback_total 1;
    fallback_used = if used_fallback then add64 m.fallback_used 1 else m.fallback_used;
  }

  unfoldable pub compute_p95 : List ℕ → Double
  compute_p95 hist =
      let total = sum_hist 0 hist in
      if total == 0
      then fpu.literal 0 0
      else (let target = fpu.ceil (fpu.mul (fpu.of_ℕ total) (fpu.literal 95 2)) in
          elim (reach target 0 0 hist) [
            | none ↦ last_bucket_upper_ms
            | some i ↦ elim (get_elem? latency_bucket_upper_ms i) [
              | none ↦ last_bucket_upper_ms
              | some upper ↦ upper
            ]
          ])

  unfoldable pub snapshot : Metrics → Snapshot
  snapshot m = record {
    p95_read_ms = compute_p95 m.read_lat_hist;
    p95_write_ms = compute_p95 m.write_lat_hist;
    token_reduction_ratio =
        if ltb 0 m.token_before && leb m.token_after m.token_before
        then fpu.div (fpu.of_ℕ (m.token_before - m.token_after)) (fpu.of_ℕ m.token_before)
        else fpu.literal 0 0;
    fallback_rate =
        if ltb 0 m.fallback_total
        then fpu.div (fpu.of_ℕ m.fallback_used) (fpu.of_ℕ m.fallback_total)
        else fpu.literal 0 0;
  }
