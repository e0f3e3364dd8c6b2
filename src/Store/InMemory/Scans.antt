-- ===== src/Store/InMemory/Scans.antt =====
-- `Scan` of src/store/in_memory_store_adapter.cpp: the order of what it returns.
use poorguy_mem.Common.{
  ℕ, ◌≡◌, true, false, List, [], ◌∷◌, Text, text_eq, text_lt, text_lt_irrefl, text_lt_trans,
  text_lt_total, text_eq_iff, ltb, length, Pairwise, Pairwise-take, Pairwise-insert_by, Bool-cases,
  inl, inr, arith, refl, ◌&&◌,
}
use poorguy_mem.Types.{KeyValueEntry}
use poorguy_mem.Store.InMemory.{InMemoryStore, scan, sort_entries, scan_shards, entry_before}

-- The key of the second entry does not come before the key of the first.
abbrev pub InOrder : KeyValueEntry → KeyValueEntry → Type 0
InOrder e f = text_lt f.key e.key ≡ false

text_le_trans : (a b c : Text) → text_lt b a ≡ false → text_lt c b ≡ false → text_lt c a ≡ false
text_le_trans a b c h k = elim (Bool-cases (text_lt b c)) [
  | inl less ↦ ground (arith, h, text_lt_trans b c a less)
  | inr same ↦ let e : b ≡ c = text_lt_total b c same k in rw (← e) h
]

before-InOrder : (e f : KeyValueEntry) → entry_before e f ≡ true → InOrder e f
unfolding entry_before
before-InOrder e f h = elim (Bool-cases (text_eq e.key f.key)) [
  | inl same ↦
      let p : e.key ≡ f.key = (text_eq_iff e.key f.key).0 same in rw p (text_lt_irrefl f.key)
  | inr other ↦ ground (arith, h, other, text_lt_irrefl e.key, text_lt_trans e.key f.key e.key)
]

after-InOrder : (e f : KeyValueEntry) → entry_before e f ≡ false → InOrder f e
unfolding entry_before
after-InOrder e f h = elim (Bool-cases (text_eq e.key f.key)) [
  | inl same ↦
      let p : e.key ≡ f.key = (text_eq_iff e.key f.key).0 same in rw p (text_lt_irrefl f.key)
  | inr other ↦ ground (arith, h, other)
]

sort_entries-InOrder : (es : List KeyValueEntry) → Pairwise InOrder (sort_entries es)
unfolding sort_entries
sort_entries-InOrder [] = tt
sort_entries-InOrder (e ∷ es) =
    Pairwise-insert_by InOrder entry_before before-InOrder after-InOrder
      (λ x y z. text_le_trans x.key y.key z.key) e (sort_entries es) (sort_entries-InOrder es)

-- The entries that a scan of any namespace and range returns, cut to a limit or not, are in the
-- order of their keys, and no error is reported.
pub scan-InOrder :
    (s : InMemoryStore) (ns begin end : Text) (limit : ℕ)
    → Pairwise InOrder (scan s ns begin end limit).entries
      × ((scan s ns begin end limit).error ≡ [])
unfolding scan
scan-InOrder s ns begin end limit =
    let out = sort_entries (scan_shards ns begin end s.shards) in
    elim (Bool-cases (ltb 0 limit && ltb limit (length out))) [
      | inl cut ↦ rw (scan, cut) (Pairwise-take InOrder limit out (sort_entries-InOrder _), refl)
      | inr whole ↦ rw (scan, whole) (sort_entries-InOrder _, refl)
    ]
