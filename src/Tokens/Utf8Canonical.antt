-- ===== src/Tokens/Utf8Canonical.antt =====
-- `DecodeUtf8At` of src/util/text.cpp against the encoding of a code point in UTF-8 (RFC 3629).
use poorguy_mem.Common.{
  ℕ, zero, suc, ◌+◌, ◌/◌, ◌%◌, ◌<◌, ◌≡◌, refl, ◌⊎◌, none, some, [], ◌∷◌, ◌++◌, Text, ltb, leb,
  if◌then◌else◌, length, take, drop, arith, sym, ◌∙◌, Bool-cases, inl, inr, true,
}
use poorguy_mem.Tokens.Utf8.{decode_utf8_at}

-- The code points that UTF-8 encodes: all but the surrogates.
abbrev pub IsScalar : ℕ → Type 0
IsScalar cp = (cp < 0xD800) ⊎ ((0xDFFF < cp) × (cp < 0x110000))

pub encode_utf8 : ℕ → Text
encode_utf8 cp =
    if ltb cp 0x80
    then cp ∷ []
    else if ltb cp 0x800
    then (0xC0 + cp / 64) ∷ (0x80 + cp % 64) ∷ []
    else if ltb cp 0x10000
    then (0xE0 + cp / 4096) ∷ (0x80 + cp / 64 % 64) ∷ (0x80 + cp % 64) ∷ []
    else (0xF0 + cp / 262144)
      ∷ (0x80 + cp / 4096 % 64)
      ∷ (0x80 + cp / 64 % 64)
      ∷ (0x80 + cp % 64)
      ∷ []

decode-cons : (b : ℕ) (s : Text) (i : ℕ) → decode_utf8_at (b ∷ s) (suc i) ≡ decode_utf8_at s i
unfolding decode_utf8_at
decode-cons b s i =
    let one : suc i + 1 ≡ suc (i + 1) = omega arith in
    let two : suc i + 2 ≡ suc (i + 2) = omega arith in
    let three : suc i + 3 ≡ suc (i + 3) = omega arith in rw (one, two, three) refl

decode-nil : (i : ℕ) → decode_utf8_at [] i ≡ none
unfolding decode_utf8_at
decode-nil i = refl

decode-append : (pre s : Text) → decode_utf8_at (pre ++ s) (length pre) ≡ decode_utf8_at s 0
decode-append [] s = refl
decode-append (b ∷ pre) s = decode-cons b (pre ++ s) (length pre) ∙ decode-append pre s

decode_front :
    (rest : Text) (cp : ℕ)
    → IsScalar cp
    → decode_utf8_at (encode_utf8 cp ++ rest) 0 ≡ some (cp, length (encode_utf8 cp))
unfolding decode_utf8_at encode_utf8
decode_front rest cp h = ground arith

-- Every code point but a surrogate is read back from its UTF-8 encoding, with the number of its
-- bytes, wherever in a text it stands.
pub decode-encode :
    (pre rest : Text) (cp : ℕ)
    → IsScalar cp
    → decode_utf8_at (pre ++ (encode_utf8 cp ++ rest)) (length pre)
      ≡ some (cp, length (encode_utf8 cp))
decode-encode pre rest cp h = decode-append pre (encode_utf8 cp ++ rest) ∙ decode_front rest cp h

-- What a successful call found at the front of a text.
abbrev Found : Text → ℕ → ℕ → Type 0
Found s cp len = IsScalar cp × (len ≡ length (encode_utf8 cp)) × (take len s ≡ encode_utf8 cp)

four_bytes_found :
    (b0 b1 b2 b3 : ℕ) (s : Text) (cp len : ℕ)
    → leb 0xF0 b0 ≡ true
    → decode_utf8_at (b0 ∷ b1 ∷ b2 ∷ b3 ∷ s) 0 ≡ some (cp, len)
    → (0xFFFF < cp)
      × (cp < 0x110000)
      × (len ≡ 4)
      × (b0 ≡ 0xF0 + cp / 262144)
      × (b1 ≡ 0x80 + cp / 4096 % 64)
      × (b2 ≡ 0x80 + cp / 64 % 64)
      × (b3 ≡ 0x80 + cp % 64)
unfolding decode_utf8_at
four_bytes_found b0 b1 b2 b3 s cp len w h = (
  ground arith,
  ground arith,
  ground arith,
  ground arith,
  ground arith,
  ground arith,
  ground arith,
)

-- So the four bytes are the encoding.
encode_four :
    {b0 b1 b2 b3 : ℕ} (s : Text) (cp len : ℕ)
    → (0xFFFF < cp)
      × (cp < 0x110000)
      × (len ≡ 4)
      × (b0 ≡ 0xF0 + cp / 262144)
      × (b1 ≡ 0x80 + cp / 4096 % 64)
      × (b2 ≡ 0x80 + cp / 64 % 64)
      × (b3 ≡ 0x80 + cp % 64)
    → Found (b0 ∷ b1 ∷ b2 ∷ b3 ∷ s) cp len
unfolding encode_utf8
encode_four s cp len h = (inr (omega arith), ground arith, ground arith)

canonical_front : (s : Text) (cp len : ℕ) → decode_utf8_at s 0 ≡ some (cp, len) → Found s cp len
unfolding decode_utf8_at encode_utf8
canonical_front [] cp len h = cc
canonical_front (b0 ∷ []) cp len h = ground arith
canonical_front (b0 ∷ b1 ∷ []) cp len h = ground arith
canonical_front (b0 ∷ b1 ∷ b2 ∷ []) cp len h = ground arith
canonical_front (b0 ∷ b1 ∷ b2 ∷ b3 ∷ s) cp len h = elim (Bool-cases (leb 0xE0 b0)) [
  | inl wide ↦ elim (Bool-cases (leb 0xF0 b0)) [
    | inl four ↦ encode_four s cp len (four_bytes_found b0 b1 b2 b3 s cp len four h)
    | inr three ↦ ground arith
  ]
  | inr narrow ↦ ground arith
]

-- Where a call succeeds, the code point is no surrogate and at most U+10FFFF, and the bytes that it
-- consumes are exactly its UTF-8 encoding, so overlong forms are refused.
pub decode_canonical :
    (s : Text) (i cp len : ℕ)
    → decode_utf8_at s i ≡ some (cp, len)
    → IsScalar cp × (len ≡ length (encode_utf8 cp)) × (take len (drop i s) ≡ encode_utf8 cp)
decode_canonical [] i cp len h = cc (decode-nil i)
decode_canonical (b ∷ s) zero cp len h = canonical_front (b ∷ s) cp len h
decode_canonical (b ∷ s) (suc i) cp len h =
    decode_canonical s i cp len (sym (decode-cons b s i) ∙ h)

pub length-encode_pos : (cp : ℕ) → 0 < length (encode_utf8 cp)
unfolding encode_utf8
length-encode_pos cp = ground arith
