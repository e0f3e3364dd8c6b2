-- ===== src/Engine/Keys/Digits.antt =====
-- `ZeroPadUint64` of src/core/memory_engine.cpp: twenty digits, so that the byte order of the event
-- keys is the order of the times in them.
use poorguy_mem.Common.{
  ℕ, zero, suc, ◌+◌, ◌-◌, ◌*◌, ◌^◌, ◌/◌, ◌%◌, ◌<◌, ◌≤◌, ◌≡◌, refl, ◌∙◌, ap, ◌↔◌, ◌⊎◌, inl, inr,
  Bool-cases, true, List, [], ◌∷◌, ◌++◌, Text, text_lt, text_lt_irrefl, text_lt_trans, sym, ltb,
  leb, length, length-append, replicate, arith,
}
use poorguy_mem.Engine.Keys.{decimal_digits, digit_count, decimal, zero_pad_uint64, build_event_key}

pub length-decimal_digits : (width n : ℕ) → length (decimal_digits width n) ≡ width
unfolding decimal_digits
length-decimal_digits zero n = refl
length-decimal_digits (suc width) n = omega (
  arith,
  length-append (decimal_digits width (n / 10)) ((48 + n % 10) ∷ []),
  length-decimal_digits width (n / 10),
)

append_assoc : {A : Type 0} (xs ys zs : List A) → (xs ++ ys) ++ zs ≡ xs ++ (ys ++ zs)
append_assoc [] ys zs = refl
append_assoc (x ∷ xs) ys zs = ap (◌∷◌ x) (append_assoc xs ys zs)

append_nil : (xs : Text) → xs ++ [] ≡ xs
append_nil [] = refl
append_nil (x ∷ xs) = ap (◌∷◌ x) (append_nil xs)

abbrev zeros : ℕ → Text
zeros n = replicate n 48

zeros-snoc : (n : ℕ) → zeros (suc n) ≡ zeros n ++ 48 ∷ []
zeros-snoc zero = refl
zeros-snoc (suc n) = ap (◌∷◌ 48) (zeros-snoc n)

decimal_digits-zero : (width : ℕ) → decimal_digits width 0 ≡ zeros width
unfolding decimal_digits
decimal_digits-zero zero = refl
decimal_digits-zero (suc width) = rw (decimal_digits-zero width, zeros-snoc width) refl

-- 10 ^ width
abbrev pub ten_to : ℕ → ℕ
ten_to zero = 1
ten_to (suc width) = 10 * ten_to width

-- The zeros in front are the leading digits of a wider number.
pad-digits :
    (pad width n : ℕ)
    → n < ten_to width
    → zeros pad ++ decimal_digits width n ≡ decimal_digits (width + pad) n
unfolding decimal_digits
pad-digits pad zero n h =
    let (e, p) : (n ≡ 0) × (0 + pad ≡ pad) = (omega arith, omega arith) in
    rw (e, p, decimal_digits-zero pad) (append_nil (zeros pad))
pad-digits pad (suc width) n h =
    let e : suc width + pad ≡ suc (width + pad) = omega arith in
    rw
      (
        e,
        ← append_assoc (zeros pad) (decimal_digits width (n / 10)) ((48 + n % 10) ∷ []),
        pad-digits pad width (n / 10) (omega arith),
      )
      refl

-- A number below 10 ^ (fuel + 1) needs no more digits than that, and has room in its digits.
digit_count_fits :
    (fuel n : ℕ)
    → n < ten_to (suc fuel)
    → (digit_count (suc fuel) n ≤ suc fuel) × (n < ten_to (digit_count (suc fuel) n))
unfolding digit_count
digit_count_fits zero n h = ground arith
digit_count_fits (suc fuel) n h = elim (Bool-cases (leb n 9)) [
  | inl one ↦ rw (digit_count, one) (omega arith, ground (arith, one))
  | inr more ↦
      let (few, room) = digit_count_fits fuel (n / 10) (omega arith) in
      rw (digit_count, more) (omega (arith, few), omega (arith, room))
]

decimal_lem : (v : ℕ) → decimal v ≡ decimal_digits (digit_count 20 v) v
unfolding decimal
decimal_lem v = refl

zero_pad_uint64_lem : (v : ℕ) → zero_pad_uint64 v ≡ zeros (20 - length (decimal v)) ++ decimal v
unfolding zero_pad_uint64
zero_pad_uint64_lem v = refl

-- The padding of a `uint64_t` is its decimal expansion on twenty digits.
pub zero_pad-digits : (v : ℕ) → v < 2 ^ 64 → zero_pad_uint64 v ≡ decimal_digits 20 v
zero_pad-digits v h =
    let c = digit_count 20 v in
    let (few, room) = digit_count_fits 19 v (omega arith) in
    let e : length (decimal_digits c v) ≡ c = length-decimal_digits c v in
    let total : c + (20 - c) ≡ 20 = omega (arith, few) in
    rw (zero_pad_uint64_lem v, decimal_lem v, e, pad-digits (20 - c) c v room, total) refl

text_lt-snoc :
    (xs ys : Text) (a b : ℕ)
    → length xs ≡ length ys
    → (text_lt xs ys ≡ true → text_lt (xs ++ a ∷ []) (ys ++ b ∷ []) ≡ true)
      × (xs ≡ ys → a < b → text_lt (xs ++ a ∷ []) (ys ++ b ∷ []) ≡ true)
unfolding text_lt
text_lt-snoc [] [] a b h = (λ l. ground arith, λ e l. ground arith)
text_lt-snoc [] (y ∷ ys) a b h = ground arith
text_lt-snoc (x ∷ xs) [] a b h = ground arith
text_lt-snoc (x ∷ xs) (y ∷ ys) a b h = ground (arith, h, text_lt-snoc xs ys a b)

lt-cases : (m n : ℕ) → m < n → (m / 10 < n / 10) ⊎ ((m / 10 ≡ n / 10) × (m % 10 < n % 10))
lt-cases m n l = elim (Bool-cases (ltb (m / 10) (n / 10))) [
  | inl h ↦ inl (ground (arith, h))
  | inr h ↦ inr (ground (arith, h, l), ground (arith, h, l))
]

decimal_digits-order :
    (width m n : ℕ)
    → n < ten_to width
    → m < n
    → text_lt (decimal_digits width m) (decimal_digits width n) ≡ true
unfolding decimal_digits
decimal_digits-order zero m n h l = ground arith
decimal_digits-order (suc width) m n h l = elim (lt-cases m n l) [
  | inl higher ↦
      (text_lt-snoc _ _ _ _ same).0
        (decimal_digits-order width (m / 10) (n / 10) (omega arith) higher)
  | inr (equal, lower) ↦
      (text_lt-snoc _ _ _ _ same).1 (ap (decimal_digits width) equal) (omega (arith, lower))
]
  where
    same : length (decimal_digits width (m / 10)) ≡ length (decimal_digits width (n / 10))
    same = omega (arith, length-decimal_digits width (m / 10), length-decimal_digits width (n / 10))

-- A common beginning does not matter to the order of texts, and what follows two texts of one
-- length matters only where they are equal.
text_lt-append : (p s t : Text) → text_lt (p ++ s) (p ++ t) ≡ text_lt s t
unfolding text_lt
text_lt-append [] s t = refl
text_lt-append (x ∷ p) s t = ground (arith, text_lt-append p s t)

text_lt-extend :
    (s t u v : Text) → length s ≡ length t → text_lt s t ≡ true → text_lt (s ++ u) (t ++ v) ≡ true
unfolding text_lt
text_lt-extend [] [] u v e h = cc
text_lt-extend [] (y ∷ t) u v e h = ground arith
text_lt-extend (x ∷ s) [] u v e h = ground arith
text_lt-extend (x ∷ s) (y ∷ t) u v e h = ground (arith, e, h, text_lt-extend s t u v)

-- The padded text of a `uint64_t` has twenty characters, and the texts of two of them are in the
-- byte order exactly as the numbers are.
pub zero_pad_uint64_order :
    (m n : ℕ)
    → m < 2 ^ 64
    → n < 2 ^ 64
    → (length (zero_pad_uint64 m) ≡ 20)
      × ((text_lt (zero_pad_uint64 m) (zero_pad_uint64 n) ≡ true) ↔ (m < n))
zero_pad_uint64_order m n hm hn =
    rw (zero_pad-digits m hm, zero_pad-digits n hn)
      (
        length-decimal_digits 20 m,
        (
          λ h. elim (Bool-cases (ltb m n)) [
            | inl less ↦ ground (arith, less)
            | inr not_less ↦ elim (Bool-cases (ltb n m)) [
              | inl more ↦
                  let back = decimal_digits-order 20 n m (omega arith) (ground (arith, more)) in
                  ground (
                    arith,
                    text_lt_irrefl (decimal_digits 20 m),
                    text_lt_trans (decimal_digits 20 m) (decimal_digits 20 n) (decimal_digits 20 m)
                        h back,
                  )
              | inr not_more ↦
                  let e : n ≡ m = ground (arith, not_less, not_more) in
                  let same : text_lt (decimal_digits 20 m) (decimal_digits 20 m) ≡ true =
                    rw e at h in
                  ground (arith, same, text_lt_irrefl (decimal_digits 20 m))
            ]
          ],
          decimal_digits-order 20 m n (omega arith),
        ),
      )

-- Of two event keys of one workspace, that of the earlier time comes first in a scan, and at one
-- time that of the smaller sequence number.
pub build_event_key_order :
    (workspace_id : Text) (ts ts' seq seq' : ℕ)
    → ts < 2 ^ 64
    → ts' < 2 ^ 64
    → seq < 2 ^ 64
    → seq' < 2 ^ 64
    → (ts < ts') ⊎ ((ts ≡ ts') × (seq < seq'))
    → text_lt (build_event_key workspace_id ts seq) (build_event_key workspace_id ts' seq') ≡ true
unfolding build_event_key
build_event_key_order workspace_id ts ts' seq seq' a b c d h =
    rw (build_event_key, text_lt-append, text_lt-append, text_lt-append)
      (elim h [
        | inl earlier ↦
            text_lt-extend (zero_pad_uint64 ts) (zero_pad_uint64 ts') _ _
              ((zero_pad_uint64_order ts ts' a b).0 ∙ sym (zero_pad_uint64_order ts' ts b a).0)
              ((zero_pad_uint64_order ts ts' a b).1.1 earlier)
        | inr (e, later) ↦
            rw (e, text_lt-append, text_lt-append) ((zero_pad_uint64_order seq seq' c d).1.1 later)
      ])
