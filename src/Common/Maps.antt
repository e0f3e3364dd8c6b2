-- ===== src/Common/Maps.antt =====
-- `std::unordered_map` and `std::map` with string keys, as association lists. The first appends a
-- new key (its iteration order is unspecified, and no theorem rests on it); the second keeps the
-- keys in their order.
use Prim.Native.Nat.{ℕ, ◌+◌}
use mathlib.Core.Path.{◌≡◌, refl}
use mathlib.Core.List.{List, [], ◌∷◌}
use mathlib.Core.Option.{Option, none, some}
use native.Mathlib.Omega.{arith}
use mathlib.Core.Path.{subst}
use mathlib.Core.Logic.{◌≢◌, inl, inr}
use Prim.Native.Nat.{◌<◌, ◌≤◌}
use poorguy_mem.Common.Tests.{if◌then◌else◌, Bool-cases}
use poorguy_mem.Common.Lists.{length, All, All-mono}
use poorguy_mem.Common.Texts.{Text, text_eq, text_lt, text_eq_iff, text_eq_refl}

abbrev pub Map {ℓ} : Type ℓ → Type ℓ
Map V = List (Text × V)

module _ {ℓ} {V : Type ℓ} where
  unfoldable pub find : Text → Map V → Option V
  find k [] = none
  find k ((j, v) ∷ m) = if text_eq j k then some v else find k m

  -- `m[k] = v`
  unfoldable pub insert : Text → V → Map V → Map V
  insert k v [] = (k, v) ∷ []
  insert k v ((j, w) ∷ m) = if text_eq j k then (k, v) ∷ m else (j, w) ∷ insert k v m

  -- `m[k] = v` of `std::map`
  unfoldable pub insert_ordered : Text → V → Map V → Map V
  insert_ordered k v [] = (k, v) ∷ []
  insert_ordered k v ((j, w) ∷ m) =
      let rest = insert_ordered k v m in
      if text_eq j k then (k, v) ∷ m else if text_lt k j then (k, v) ∷ (j, w) ∷ m else (j, w) ∷ rest

  unfoldable pub erase : Text → Map V → Map V
  erase k [] = []
  erase k ((j, v) ∷ m) = let rest = erase k m in if text_eq j k then rest else (j, v) ∷ rest

  -- No key stands twice.
  abbrev pub IsUnique : Map V → Type ℓ
  IsUnique [] = Unit
  IsUnique ((k, v) ∷ m) = (find k m ≡ none) × IsUnique m

  pub find-insert :
      (k j : Text) (v : V) (m : Map V)
      → find j (insert k v m) ≡ (if text_eq k j then some v else find j m)
  unfolding find insert
  find-insert k j v [] = refl
  find-insert k j v ((i, w) ∷ m) =
      ground (arith, text_eq_iff k j, text_eq_iff i k, text_eq_iff i j, find-insert k j v m)

  pub find-insert_ordered :
      (k j : Text) (v : V) (m : Map V)
      → find j (insert_ordered k v m) ≡ (if text_eq k j then some v else find j m)
  unfolding find insert_ordered
  find-insert_ordered k j v [] = refl
  find-insert_ordered k j v ((i, w) ∷ m) =
      ground (arith, text_eq_iff k j, text_eq_iff i k, text_eq_iff i j, find-insert_ordered k j v m)

  pub find-erase :
      (k j : Text) (m : Map V) → find j (erase k m) ≡ (if text_eq k j then none else find j m)
  unfolding find erase
  find-erase k j [] = ground arith
  find-erase k j ((i, v) ∷ m) =
      ground (arith, find-erase k j m, text_eq_iff i k, text_eq_iff i j, text_eq_iff k j)

  pub insert-IsUnique : (k : Text) (v : V) (m : Map V) → IsUnique m → IsUnique (insert k v m)
  unfolding find insert
  insert-IsUnique k v [] u = (refl, tt)
  insert-IsUnique k v ((i, w) ∷ m) u =
      ground
        (arith, text_eq_iff i k, text_eq_iff k i, find-insert k i v m, insert-IsUnique k v m u.1)

  pub erase-IsUnique : (k : Text) (m : Map V) → IsUnique m → IsUnique (erase k m)
  unfolding find erase
  erase-IsUnique k [] u = tt
  erase-IsUnique k ((i, w) ∷ m) u =
      ground (arith, text_eq_iff i k, find-erase k i m, erase-IsUnique k m u.1)

  -- The sum of a measure over the values, with the keys at hand.
  abbrev pub total : (Text → V → ℕ) → Map V → ℕ
  total f [] = 0
  total f ((k, v) ∷ m) = f k v + total f m

  abbrev pub at_key : (Text → V → ℕ) → Text → Option V → ℕ
  at_key f k none = 0
  at_key f k (some v) = f k v

  erase_absent : (k : Text) (m : Map V) → find k m ≡ none → erase k m ≡ m
  unfolding find erase
  erase_absent k [] h = refl
  erase_absent k ((i, w) ∷ m) h = ground (arith, erase_absent k m)

  pub total-insert :
      (f : Text → V → ℕ) (k : Text) (v : V) (m : Map V)
      → total f (insert k v m) + at_key f k (find k m) ≡ total f m + f k v
  unfolding find insert
  total-insert f k v [] = omega arith
  total-insert f k v ((i, w) ∷ m) = ground (arith, text_eq_iff i k, total-insert f k v m)

  pub total-erase :
      (f : Text → V → ℕ) (k : Text) (m : Map V)
      → IsUnique m
      → total f (erase k m) + at_key f k (find k m) ≡ total f m
  unfolding find erase
  total-erase f k [] u = omega arith
  total-erase f k ((i, w) ∷ m) u =
      ground (arith, text_eq_iff i k, total-erase f k m u.1, erase_absent k m)

pub ruleset map_laws = (find-insert, find-insert_ordered, find-erase)

module _ {ℓ} {V : Type ℓ} where
  length-erase_le : (k : Text) (m : Map V) → length (erase k m) ≤ length m
  unfolding erase
  length-erase_le k [] = omega arith
  length-erase_le k ((i, w) ∷ m) = ground (arith, length-erase_le k m)

  -- Erasing a key that is there makes the map shorter.
  pub length-erase :
      (k : Text) (v : V) (m : Map V) → find k m ≡ some v → length (erase k m) < length m
  unfolding find erase
  length-erase k v [] h = cc
  length-erase k v ((i, w) ∷ m) h = ground (arith, length-erase k v m, length-erase_le k m)

  pub All-erase {κ} : (P : Text × V → Type κ) (k : Text) (m : Map V) → All P m → All P (erase k m)
  unfolding erase
  All-erase P k [] a = tt
  All-erase P k ((i, w) ∷ m) a = elim (Bool-cases (text_eq i k)) [
    | inl e ↦ rw (e, erase) (All-erase P k m a.1)
    | inr e ↦ rw (e, erase) (a.0, All-erase P k m a.1)
  ]

  pub All-insert {κ} :
      (P : Text × V → Type κ) (k : Text) (v : V) (m : Map V)
      → P (k, v)
      → All P m
      → All P (insert k v m)
  unfolding insert
  All-insert P k v [] p a = (p, tt)
  All-insert P k v ((i, w) ∷ m) p a = elim (Bool-cases (text_eq i k)) [
    | inl e ↦ rw (e, insert) (p, a.1)
    | inr e ↦ rw (e, insert) (a.0, All-insert P k v m p a.1)
  ]

  pub All-find {κ} :
      (P : Text × V → Type κ) (k : Text) (v : V) (m : Map V)
      → find k m ≡ some v
      → All P m
      → P (k, v)
  unfolding find
  All-find P k v [] h a = cc
  All-find P k v ((i, w) ∷ m) h a = elim (Bool-cases (text_eq i k)) [
    | inl e ↦ subst P (cc ((text_eq_iff i k).0 e, rw e at h)) a.0
    | inr e ↦ All-find P k v m (rw e at h) a.1
  ]

  -- Every entry of a map without repeated keys is what `find` returns for its key.
  pub All-self : (m : Map V) → IsUnique m → All (λ (e : Text × V). find e.0 m ≡ some e.1) m
  unfolding find
  All-self [] u = tt
  All-self ((i, w) ∷ m) u = (
    rw (text_eq_refl i) refl,
    All-mono (λ (e : Text × V). find e.0 m ≡ some e.1)
        (λ (e : Text × V). find e.0 ((i, w) ∷ m) ≡ some e.1) m
        (λ e h. ground (arith, text_eq_iff i e.0, u.0, h)) (All-self m u.1),
  )

  -- The entries of a map without a key have other keys.
  pub All-absent : (k : Text) (m : Map V) → find k m ≡ none → All (λ (e : Text × V). k ≢ e.0) m
  unfolding find
  All-absent k [] h = tt
  All-absent k ((i, w) ∷ m) h = elim (Bool-cases (text_eq i k)) [
    | inl e ↦ cc (rw e at h)
    | inr e ↦ (λ same. ground (arith, text_eq_iff i k, e, same), All-absent k m (rw e at h))
  ]
