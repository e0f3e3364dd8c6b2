-- ===== src/Common/Ordered.antt =====
-- `std::map` with string keys: the keys stand in strictly rising order, and the operations keep
-- them so.
use Prim.Native.Nat.{ℕ, ◌+◌}
use mathlib.Core.Path.{◌≡◌, refl}
use mathlib.Core.Bool.{true}
use mathlib.Core.List.{[], ◌∷◌}
use mathlib.Core.Option.{none}
use native.Mathlib.Omega.{arith}
use poorguy_mem.Common.Texts.{
  Text, text_lt, text_eq_iff, text_lt_irrefl, text_lt_trans, text_lt_total,
}
use poorguy_mem.Common.Maps.{Map, find, insert_ordered, erase, IsUnique, total, at_key}

module _ {ℓ} {V : Type ℓ} where
  -- Every key comes after `k`.
  abbrev pub IsAbove : Text → Map V → Type 0
  IsAbove k [] = Unit
  IsAbove k ((j, v) ∷ m) = (text_lt k j ≡ true) × IsAbove k m

  abbrev pub IsOrdered : Map V → Type 0
  IsOrdered [] = Unit
  IsOrdered ((k, v) ∷ m) = IsAbove k m × IsOrdered m

  IsAbove-trans : (j k : Text) (m : Map V) → text_lt j k ≡ true → IsAbove k m → IsAbove j m
  IsAbove-trans j k [] h a = tt
  IsAbove-trans j k ((i, v) ∷ m) h a = (text_lt_trans j k i h a.0, IsAbove-trans j k m h a.1)

  pub find-IsAbove : (k : Text) (m : Map V) → IsAbove k m → find k m ≡ none
  unfolding find
  find-IsAbove k [] a = refl
  find-IsAbove k ((i, v) ∷ m) a =
      ground (arith, text_eq_iff i k, text_lt_irrefl k, find-IsAbove k m a.1)

  find_below : (j k : Text) (m : Map V) → text_lt j k ≡ true → IsAbove k m → find j m ≡ none
  find_below j k m h a = find-IsAbove j m (IsAbove-trans j k m h a)

  insert_ordered-IsAbove :
      (j k : Text) (v : V) (m : Map V)
      → text_lt j k ≡ true
      → IsAbove j m
      → IsAbove j (insert_ordered k v m)
  unfolding insert_ordered
  insert_ordered-IsAbove j k v [] h a = (h, tt)
  insert_ordered-IsAbove j k v ((i, w) ∷ m) h a =
      ground (arith, insert_ordered-IsAbove j k v m h a.1)

  pub insert_ordered-IsOrdered :
      (k : Text) (v : V) (m : Map V) → IsOrdered m → IsOrdered (insert_ordered k v m)
  unfolding insert_ordered
  insert_ordered-IsOrdered k v [] o = (tt, tt)
  insert_ordered-IsOrdered k v ((i, w) ∷ m) o = ground (
    arith,
    text_eq_iff i k,
    text_lt_total k i,
    IsAbove-trans k i m,
    insert_ordered-IsAbove i k v m,
    insert_ordered-IsOrdered k v m o.1,
  )

  erase-IsAbove : (j k : Text) (m : Map V) → IsAbove j m → IsAbove j (erase k m)
  unfolding erase
  erase-IsAbove j k [] a = tt
  erase-IsAbove j k ((i, w) ∷ m) a = ground (arith, erase-IsAbove j k m a.1)

  pub erase-IsOrdered : (k : Text) (m : Map V) → IsOrdered m → IsOrdered (erase k m)
  unfolding erase
  erase-IsOrdered k [] o = tt
  erase-IsOrdered k ((i, w) ∷ m) o =
      ground (arith, erase-IsAbove i k m o.0, erase-IsOrdered k m o.1)

  pub IsOrdered-IsUnique : (m : Map V) → IsOrdered m → IsUnique m
  IsOrdered-IsUnique [] o = tt
  IsOrdered-IsUnique ((k, v) ∷ m) o = (find-IsAbove k m o.0, IsOrdered-IsUnique m o.1)

  pub total-insert_ordered :
      (f : Text → V → ℕ) (k : Text) (v : V) (m : Map V)
      → IsOrdered m
      → total f (insert_ordered k v m) + at_key f k (find k m) ≡ total f m + f k v
  unfolding find insert_ordered
  total-insert_ordered f k v [] o = omega arith
  total-insert_ordered f k v ((i, w) ∷ m) o =
      ground (arith, text_eq_iff i k, find_below k i m, total-insert_ordered f k v m o.1)
