-- ===== src/Tokens.antt =====
-- src/util/text.cpp: trimming, lower case, the UTF-8 decoder, the tokenizer and the token estimate.
-- Texts are byte lists. `std::isspace`, `std::isalnum` and `std::tolower` are those of the C locale.
-- `RedactSecrets` (regular expressions of the standard library) is not modelled.
pub mod Utf8
pub mod Utf8Canonical
pub mod Runs
pub mod Terms
use poorguy_mem.Common.{
  ℕ, zero, suc, ◌+◌, ◌-◌, ◌/◌, ◌≡◌, refl, Bool, ◌&&◌, ◌||◌, Option, none, some, List, [], ◌∷◌, ◌++◌,
  map, Text, text, ltb, leb, ◌==◌, if◌then◌else◌, length, is_empty, get_elem?, take, drop,
}
use Utf8.{decode_utf8_at}

unfoldable pub is_space : ℕ → Bool
is_space c = (leb 9 c && leb c 13) || c == 32

unfoldable pub is_alnum : ℕ → Bool
is_alnum c = (leb b'0' c && leb c b'9') || (leb b'A' c && leb c b'Z') || (leb b'a' c && leb c b'z')

unfoldable pub to_lower_byte : ℕ → ℕ
to_lower_byte c = if leb b'A' c && leb c b'Z' then c + 32 else c

unfoldable pub is_ascii_word_char : ℕ → Bool
unfolding is_alnum
is_ascii_word_char c = is_alnum c || c == b'_' || c == b'-'

-- The first loop of `Trim`: the index of the first byte that is no space, or the size.
unfoldable pub trim_start : Text → ℕ
unfolding is_space
trim_start [] = 0
trim_start (c ∷ s) = let rest = suc (trim_start s) in if is_space c then rest else 0

-- The second loop of `Trim`: `end` falls while the byte before it is a space.
unfoldable pub trim_end : Text → ℕ → ℕ → ℕ
unfolding is_space
trim_end s start zero = 0
trim_end s start (suc e) =
    let rest = trim_end s start e in
    if ltb start (suc e) && elim (get_elem? s e) [ none ↦ Bool.false | some c ↦ is_space c ]
    then rest
    else suc e

unfoldable pub trim : Text → Text
unfolding trim_start trim_end
trim s =
    let start = trim_start s in
    let end = trim_end s start (length s) in take (end - start) (drop start s)

unfoldable pub to_lower : Text → Text
unfolding to_lower_byte
to_lower s = map to_lower_byte s

unfoldable pub is_cjk_codepoint : ℕ → Bool
is_cjk_codepoint cp =
    (leb 0x3400 cp && leb cp 0x4DBF)
    || (leb 0x4E00 cp && leb cp 0x9FFF)
    || (leb 0xF900 cp && leb cp 0xFAFF)
    || (leb 0x20000 cp && leb cp 0x2A6DF)
    || (leb 0x2A700 cp && leb cp 0x2B73F)
    || (leb 0x2B740 cp && leb cp 0x2B81F)
    || (leb 0x2B820 cp && leb cp 0x2CEAF)
    || (leb 0x2CEB0 cp && leb cp 0x2EBEF)
    || (leb 0x30000 cp && leb cp 0x3134F)

-- The variables of `Tokenize`.
pub record Scan : Type 0 where
  pub cur : Text
  pub cjk_run : List Text
  pub tokens : List Text

unfoldable pub flush_ascii_token : Scan → Scan
flush_ascii_token st =
    if is_empty st.cur then st else record st { cur = []; tokens = st.tokens ++ st.cur ∷ [] }

-- The loop of `FlushCjkRunAsBigrams`: each character of the run with the next.
unfoldable pub bigrams : List Text → List Text
bigrams [] = []
bigrams (a ∷ []) = []
bigrams (a ∷ (b ∷ run)) = (a ++ b) ∷ bigrams (b ∷ run)

unfoldable pub flush_cjk_run_as_bigrams : Scan → Scan
unfolding bigrams
flush_cjk_run_as_bigrams st =
    if is_empty st.cjk_run
    then st
    else if length st.cjk_run == 1
    then record st { cjk_run = []; tokens = st.tokens ++ st.cjk_run }
    else record st { cjk_run = []; tokens = st.tokens ++ bigrams st.cjk_run }

-- The branch of the loop for a byte below 0x80.
unfoldable pub scan_ascii : ℕ → Scan → Scan
scan_ascii c st =
    let st' = flush_cjk_run_as_bigrams st in
    if is_ascii_word_char c
    then record st' { cur = st'.cur ++ to_lower_byte c ∷ [] }
    else flush_ascii_token st'

-- The branch for other bytes: how far the index moves, and the new variables.
unfoldable pub scan_wide : Text → ℕ → Scan → ℕ × Scan
scan_wide input i st =
    let st' = flush_ascii_token st in
    elim (decode_utf8_at input i) [
      | none ↦ (1, flush_cjk_run_as_bigrams st')
      | some (cp, len) ↦
          if is_cjk_codepoint cp
          then (len, record st' { cjk_run = st'.cjk_run ++ take len (drop i input) ∷ [] })
          else (len, flush_cjk_run_as_bigrams st')
    ]

-- One round of the loop at index `i`, which holds the byte `c`.
unfoldable pub scan_byte : Text → ℕ → ℕ → Scan → ℕ × Scan
scan_byte input i c st = if ltb c 0x80 then (1, scan_ascii c st) else scan_wide input i st

-- The loop from index `i`; each round moves the index, so a fuel of the input's size is enough.
unfoldable pub scan_from : ℕ → Text → ℕ → Scan → ℕ × Scan
scan_from zero input i st = (i, st)
scan_from (suc fuel) input i st = elim (get_elem? input i) [
  | none ↦ (i, st)
  | some c ↦ let (moved, st') = scan_byte input i c st in scan_from fuel input (i + moved) st'
]

abbrev pub no_tokens : Scan
no_tokens = record { cur = []; cjk_run = []; tokens = [] }

unfoldable pub tokenize : Text → List Text
tokenize input =
    let (i, st) = scan_from (length input) input 0 no_tokens in
    (flush_cjk_run_as_bigrams (flush_ascii_token st)).tokens

-- size_t; the sum wraps only for texts of almost 2^64 bytes, which no machine holds.
unfoldable pub estimate_token_count : Text → ℕ
estimate_token_count s = if is_empty s then 0 else (length s + 3) / 4

tokenize_runs :
    tokenize (text "Retry-Later, with_BACKOFF 2!")
    ≡ text "retry-later" ∷ text "with_backoff" ∷ text "2" ∷ []
unfolding tokenize scan_from scan_byte scan_ascii scan_wide decode_utf8_at is_cjk_codepoint
    flush_ascii_token flush_cjk_run_as_bigrams is_ascii_word_char to_lower_byte
tokenize_runs = refl

-- Three Chinese characters between ASCII words become two bigrams.
tokenize_cjk :
    tokenize (0x61 ∷ 0xE4 ∷ 0xB8 ∷ 0xAD ∷ 0xE6 ∷ 0x96 ∷ 0x87 ∷ 0xE5 ∷ 0xAD ∷ 0x97 ∷ 0x62 ∷ [])
    ≡ (0x61 ∷ [])
      ∷ (0xE4 ∷ 0xB8 ∷ 0xAD ∷ 0xE6 ∷ 0x96 ∷ 0x87 ∷ [])
      ∷ (0xE6 ∷ 0x96 ∷ 0x87 ∷ 0xE5 ∷ 0xAD ∷ 0x97 ∷ [])
      ∷ (0x62 ∷ [])
      ∷ []
unfolding tokenize scan_from scan_byte scan_ascii scan_wide decode_utf8_at is_cjk_codepoint
    flush_ascii_token flush_cjk_run_as_bigrams is_ascii_word_char to_lower_byte
tokenize_cjk = refl
