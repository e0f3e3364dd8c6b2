-- ===== src/Tokens/Utf8.antt =====
-- `DecodeUtf8At` of src/util/text.cpp. The bit masks and shifts are written by `%`, `/` and `*`.
use poorguy_mem.Common.{
  ℕ, ◌+◌, ◌*◌, ◌/◌, ◌%◌, Bool, ◌&&◌, Option, none, some, Text, ltb, leb, ◌==◌, if◌then◌else◌,
  get_elem?,
}

infixl 5 ◌>>=◌
abbrev ◌>>=◌ : {A B : Type 0} → Option A → (A → Option B) → Option B
none >>= f = none
some a >>= f = f a

-- `(b & 0xC0) == 0x80`
abbrev is_continuation : ℕ → Bool
is_continuation b = b / 64 == 2

decode_two : Text → ℕ → ℕ → Option (ℕ × ℕ)
decode_two input i b0 = do
  b1 ← get_elem? input (i + 1)
  if is_continuation b1 then some (b0 % 32 * 64 + b1 % 64, 2) else none

-- Overlong forms and the UTF-16 surrogates are refused.
three_bytes : ℕ → ℕ → ℕ → Option (ℕ × ℕ)
three_bytes b0 b1 b2 =
    if b0 == 0xE0 && ltb b1 0xA0
    then none
    else if b0 == 0xED && leb 0xA0 b1
    then none
    else some (b0 % 16 * 4096 + b1 % 64 * 64 + b2 % 64, 3)

decode_three : Text → ℕ → ℕ → Option (ℕ × ℕ)
unfolding three_bytes
decode_three input i b0 = do
  b1 ← get_elem? input (i + 1)
  b2 ← get_elem? input (i + 2)
  if is_continuation b1 && is_continuation b2 then three_bytes b0 b1 b2 else none

-- Overlong forms and code points above U+10FFFF are refused.
four_bytes : ℕ → ℕ → ℕ → ℕ → Option (ℕ × ℕ)
four_bytes b0 b1 b2 b3 =
    if b0 == 0xF0 && ltb b1 0x90
    then none
    else if b0 == 0xF4 && ltb 0x8F b1
    then none
    else some (b0 % 8 * 262144 + b1 % 64 * 4096 + b2 % 64 * 64 + b3 % 64, 4)

decode_four : Text → ℕ → ℕ → Option (ℕ × ℕ)
unfolding four_bytes
decode_four input i b0 = do
  b1 ← get_elem? input (i + 1)
  b2 ← get_elem? input (i + 2)
  b3 ← get_elem? input (i + 3)
  if is_continuation b1 && is_continuation b2 && is_continuation b3
      then four_bytes b0 b1 b2 b3
      else none

decode_lead : Text → ℕ → ℕ → Option (ℕ × ℕ)
unfolding decode_two decode_three decode_four
decode_lead input i b0 =
    if ltb b0 0x80
    then some (b0, 1)
    else if leb 0xC2 b0 && leb b0 0xDF
    then decode_two input i b0
    else if leb 0xE0 b0 && leb b0 0xEF
    then decode_three input i b0
    else if leb 0xF0 b0 && leb b0 0xF4
    then decode_four input i b0
    else none

-- The code point at index `i` and the number of its bytes.
unfoldable pub decode_utf8_at : Text → ℕ → Option (ℕ × ℕ)
unfolding decode_lead
decode_utf8_at input i = do b0 ← get_elem? input i; decode_lead input i b0
