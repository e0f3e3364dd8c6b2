-- ===== src/Metrics/Percentile.antt =====
-- The histograms of src/core/metrics.cpp: what a recorded latency adds, and the bucket that
-- `ComputeP95` stops at.
use mathlib.Core.Path.{subst}
use poorguy_mem.Common.{
  none, Option, sym, ap, true, set, All, ◌⊎◌, false, take, some, leb, Bool-cases, ℕ, zero, suc, ◌+◌,
  ◌<◌, ◌≤◌, ◌≡◌, refl, List, [], ◌∷◌, length, get_elem?, add64, word, arith, Option-cases, inl, inr,
  Double, Fpu,
}
use poorguy_mem.Metrics.{
  Metrics, reach, bump, bucket_from, bucket_index, record_read_latency, latency_bucket_count,
  latency_bucket_upper_ms,
}

-- The plain sum of a histogram.
abbrev pub hist_total : List ℕ → ℕ
hist_total [] = 0
hist_total (n ∷ hist) = n + hist_total hist

bump-total :
    (hist : List ℕ) (i : ℕ)
    → i < length hist
    → suc (hist_total hist) < word
    → (hist_total (bump hist i) ≡ suc (hist_total hist)) × (length (bump hist i) ≡ length hist)
unfolding bump add64
bump-total [] i h w = omega arith
bump-total (n ∷ hist) zero h w = ground arith
bump-total (n ∷ hist) (suc i) h w = elim (Option-cases (get_elem? hist i)) [
  | inl e ↦
      let (t, l) = bump-total hist i (omega (arith, h)) (omega (arith, w)) in
      rw (bump, e) (omega (arith, rw (bump, e) at t), refl)
  | inr (v, e) ↦
      let (t, l) = bump-total hist i (omega (arith, h)) (omega (arith, w)) in
      rw (bump, e) (omega (arith, rw (bump, e) at t), omega (arith, rw (bump, e) at l))
]

-- The bucket that is bumped, whose count does not wrap.
bump-set :
    (hist : List ℕ) (i : ℕ)
    → i < length hist
    → suc (hist_total hist) < word
    → (n : ℕ) × (get_elem? hist i ≡ some n) × (bump hist i ≡ set hist i (suc n))
unfolding bump add64
bump-set [] i h w = let f : ⊥ = omega (arith, h) in elim f [ ]
bump-set (n ∷ hist) zero h w = (n, refl, ground (arith, w))
bump-set (m ∷ hist) (suc i) h w =
    let (n, found, e) = bump-set hist i (omega (arith, h)) (omega (arith, w)) in
    (n, found, rw (bump, found) (ap (λ l. m ∷ l) (rw (bump, found) at e)))

module _ (fpu : Fpu) where
  -- The bound of a bucket holds the latency; the last bucket has none.
  abbrev Holds : Double → Option Double → Type 0
  Holds ms none = Unit
  Holds ms (some upper) = fpu.le ms upper ≡ true

  -- The first bucket whose bound is not below the latency, and the bucket 0 for a negative one.
  abbrev pub IsBucket : Double → ℕ → Type 0
  IsBucket ms b =
      ((fpu.lt ms (fpu.literal 0 0) ≡ true) × (b ≡ 0))
      ⊎ ((fpu.lt ms (fpu.literal 0 0) ≡ false)
          × (b ≤ latency_bucket_count)
          × All (λ upper. fpu.le ms upper ≡ false) (take b (latency_bucket_upper_ms fpu))
          × Holds ms (get_elem? (latency_bucket_upper_ms fpu) b))

  bucket_from_first :
      (ms : Double) (i : ℕ) (uppers : List Double)
      → i + length uppers ≡ latency_bucket_count
      → (k : ℕ) × (bucket_from fpu ms i uppers ≡ i + k)
        × (i + k ≤ latency_bucket_count)
        × All (λ upper. fpu.le ms upper ≡ false) (take k uppers)
        × Holds ms (get_elem? uppers k)
  unfolding bucket_from
  bucket_from_first ms i [] h = (0, omega (arith, h), omega (arith, h), tt, tt)
  bucket_from_first ms i (u ∷ us) h = elim (Bool-cases (fpu.le ms u)) [
    | inl stop ↦
        let e : i ≡ i + 0 = omega arith in (0, rw (bucket_from, stop) e, omega (arith, h), tt, stop)
    | inr more ↦
        let (k, e, le, before, at) = bucket_from_first ms (i + 1) us (omega (arith, h)) in
        (suc k, rw (bucket_from, more, e) (omega arith), omega (arith, le), (more, before), at)
  ]

  bucket_index-IsBucket : (ms : Double) → IsBucket ms (bucket_index fpu ms)
  unfolding bucket_index
  bucket_index-IsBucket ms = elim (Bool-cases (fpu.lt ms (fpu.literal 0 0))) [
    | inl negative ↦ rw (bucket_index, negative) (inl (refl, refl))
    | inr rest ↦
        let (k, e, le, before, at) = bucket_from_first ms 0 (latency_bucket_upper_ms fpu) refl in
        let plain : 0 + k ≡ k = omega arith in
        let same : bucket_index fpu ms ≡ k = rw (bucket_index, rest, e) plain in
        subst (IsBucket ms) (sym same) (inr (rest, omega (arith, le), before, at))
  ]

  bucket_index_bound : (ms : Double) → bucket_index fpu ms ≤ latency_bucket_count
  bucket_index_bound ms = elim (bucket_index-IsBucket ms) [
    | inl (negative, e) ↦ omega (arith, e)
    | inr (rest, le, before, at) ↦ le
  ]

  -- Recording a read latency, whatever it is, in a histogram of sixteen buckets and one for the rest
  -- whose total is below 2^64 - 1, adds one to the first bucket whose bound is not below the latency,
  -- or to the bucket 0 for a negative latency, and to no other; the total grows by one and the size
  -- stays.
  pub record_read_latency_counts :
      (m : Metrics) (ms : Double)
      → length m.read_lat_hist ≡ latency_bucket_count + 1
      → suc (hist_total m.read_lat_hist) < word
      → ((b : ℕ) × (n : ℕ) × IsBucket ms b
          × (get_elem? m.read_lat_hist b ≡ some n)
          × ((record_read_latency fpu m ms).read_lat_hist ≡ set m.read_lat_hist b (suc n)))
        × (hist_total (record_read_latency fpu m ms).read_lat_hist
            ≡ suc (hist_total m.read_lat_hist))
        × (length (record_read_latency fpu m ms).read_lat_hist ≡ length m.read_lat_hist)
  unfolding record_read_latency
  record_read_latency_counts m ms h w =
      let b = bucket_index fpu ms in
      let inside : b < length m.read_lat_hist = omega (arith, bucket_index_bound ms, h) in
      let (n, found, e) = bump-set m.read_lat_hist b inside w in
      let (total, size) = bump-total m.read_lat_hist b inside w in
      ((b, n, bucket_index-IsBucket ms, found, e), total, size)

reach_more :
    (n : ℕ) (hist : List ℕ) (target c i k : ℕ)
    → leb target (add64 c n) ≡ false
    → add64 c n ≡ c + n
    → reach target (c + n) (i + 1) hist ≡ some ((i + 1) + k)
    → reach target c i (n ∷ hist) ≡ some (i + suc k)
unfolding reach
reach_more n hist target c i k more s found =
    let e : i + suc k ≡ (i + 1) + k = omega arith in rw (reach, more, s, e) found

-- The loop of the percentile over a histogram whose total does not reach 2^64, with a target above
-- the count so far and within the total, stops at the first bucket at which the cumulative count
-- reaches the target: it is below the target before that bucket, and not below it with the bucket.
pub reach_first :
    (hist : List ℕ) (target cumulative i : ℕ)
    → cumulative < target
    → target ≤ cumulative + hist_total hist
    → cumulative + hist_total hist < word
    → (k : ℕ) × (reach target cumulative i hist ≡ some (i + k))
      × (cumulative + hist_total (take k hist) < target)
      × (target ≤ cumulative + hist_total (take (suc k) hist))
unfolding reach add64
reach_first [] target c i below within w = let f : ⊥ = omega (arith, below, within) in elim f [ ]
reach_first (n ∷ hist) target c i below within w = elim (Bool-cases (leb target (add64 c n))) [
  | inl stop ↦
      let e : i + 0 ≡ i = omega arith in
      (0, rw (reach, stop, e) refl, omega (arith, below), ground (arith, stop, w))
  | inr more ↦
      let s : add64 c n ≡ c + n = omega (arith, w) in
      let (k, found, before, after) =
        reach_first hist target (c + n) (i + 1) (ground (arith, more, s)) (omega (arith, within))
          (omega (arith, w)) in
      (
        suc k,
        reach_more n hist target c i k more s found,
        omega (arith, before),
        omega (arith, after),
      )
]
