-- ===== src/Tokens/Runs.antt =====
-- The loop of `Tokenize` in src/util/text.cpp: it reaches the end of its input, and no token is
-- empty.
use poorguy_mem.Common.{
  ℕ, zero, suc, ◌+◌, ◌≤◌, ◌<◌, ◌≡◌, refl, false, none, some, List, [], ◌∷◌, Text, ltb, length,
  is_empty, get_elem?, take, drop, All, arith, Option-cases, Bool-cases, inl, inr, All-append,
}
use poorguy_mem.Tokens.{
  Scan, scan_byte, scan_ascii, scan_wide, scan_from, flush_ascii_token, flush_cjk_run_as_bigrams,
  bigrams, is_cjk_codepoint, is_ascii_word_char, tokenize, no_tokens,
}
use poorguy_mem.Tokens.Utf8.{decode_utf8_at}
use poorguy_mem.Tokens.Utf8Canonical.{decode_canonical, length-encode_pos}

get_elem?-none : (s : Text) (i : ℕ) → get_elem? s i ≡ none → length s ≤ i
get_elem?-none [] i h = omega arith
get_elem?-none (c ∷ s) zero h = cc
get_elem?-none (c ∷ s) (suc i) h = omega (arith, get_elem?-none s i h)

-- What a successful call of the decoder consumes is not empty.
decode_pos :
    (s : Text) (i cp len : ℕ)
    → decode_utf8_at s i ≡ some (cp, len)
    → (0 < len) × (is_empty (take len (drop i s)) ≡ false)
decode_pos s i cp len h =
    let (_, size, bytes) = decode_canonical s i cp len h in
    (omega (arith, length-encode_pos cp), ground (arith, length-encode_pos cp))

pub scan_byte_moves : (input : Text) (i c : ℕ) (st : Scan) → 0 < (scan_byte input i c st).0
unfolding scan_byte scan_wide scan_ascii
scan_byte_moves input i c st = elim (Option-cases (decode_utf8_at input i)) [
  | inl e ↦ rw (e, scan_wide) (ground arith)
  | inr ((cp, len), e) ↦ rw (e, scan_wide) (ground (arith, decode_pos input i cp len e))
]

-- With a fuel of what is left of the input, the loop stops at its end.
pub scan_from_ends :
    (fuel : ℕ) (input : Text) (i : ℕ) (st : Scan)
    → length input ≤ i + fuel
    → length input ≤ (scan_from fuel input i st).0
unfolding scan_from
scan_from_ends zero input i st h = omega arith
scan_from_ends (suc fuel) input i st h = elim (Option-cases (get_elem? input i)) [
  | inl e ↦ rw (e, scan_from) (get_elem?-none input i e)
  | inr (c, e) ↦
      let (n, st') = scan_byte input i c st in
      rw (e, scan_from)
        (scan_from_ends fuel input (i + n) st' (omega (arith, scan_byte_moves input i c st)))
]

-- No piece of the run is empty, and no token.
abbrev pub NonEmpty : Text → Type 0
NonEmpty t = is_empty t ≡ false

pub record Full (st : Scan) : Type 0 where
  pub runs : All NonEmpty st.cjk_run
  pub words : All NonEmpty st.tokens

flush_ascii-Full : (st : Scan) → Full st → Full (flush_ascii_token st)
unfolding flush_ascii_token
flush_ascii-Full st f = elim (Bool-cases (is_empty st.cur)) [
  | inl e ↦ rw e f
  | inr e ↦ rw e (record {
    runs = f.runs;
    words = All-append NonEmpty st.tokens (st.cur ∷ []) f.words (e, tt);
  })
]

bigrams-NonEmpty : (run : List Text) → All NonEmpty run → All NonEmpty (bigrams run)
unfolding bigrams
bigrams-NonEmpty [] h = tt
bigrams-NonEmpty (a ∷ []) h = tt
bigrams-NonEmpty ([] ∷ (b ∷ run)) h = cc (h.0)
bigrams-NonEmpty ((c ∷ a) ∷ (b ∷ run)) h = (refl, bigrams-NonEmpty (b ∷ run) h.1)

flush_cjk-Full : (st : Scan) → Full st → Full (flush_cjk_run_as_bigrams st)
unfolding flush_cjk_run_as_bigrams
flush_cjk-Full st f = ground (
  arith,
  All-append NonEmpty st.tokens st.cjk_run f.words f.runs,
  All-append NonEmpty st.tokens (bigrams st.cjk_run) f.words (bigrams-NonEmpty st.cjk_run f.runs),
)

scan_ascii-Full : (c : ℕ) (st : Scan) → Full st → Full (scan_ascii c st)
unfolding scan_ascii
scan_ascii-Full c st f =
    let g = flush_cjk-Full st f in
    elim (Bool-cases (is_ascii_word_char c)) [
      | inl e ↦ rw e (record { runs = g.runs; words = g.words })
      | inr e ↦ rw e (flush_ascii-Full _ g)
    ]

scan_wide-Full : (input : Text) (i : ℕ) (st : Scan) → Full st → Full (scan_wide input i st).1
unfolding scan_wide
scan_wide-Full input i st f =
    let g = flush_ascii-Full st f in
    elim (Option-cases (decode_utf8_at input i)) [
      | inl e ↦ rw (e, scan_wide) (flush_cjk-Full _ g)
      | inr ((cp, len), e) ↦
          rw (e, scan_wide)
            (elim (Bool-cases (is_cjk_codepoint cp)) [
              | inl y ↦ rw y (record {
                runs =
                    All-append NonEmpty _ (take len (drop i input) ∷ []) g.runs
                      ((decode_pos input i cp len e).1, tt);
                words = g.words;
              })
              | inr n ↦ rw n (flush_cjk-Full _ g)
            ])
    ]

scan_byte-Full : (input : Text) (i c : ℕ) (st : Scan) → Full st → Full (scan_byte input i c st).1
unfolding scan_byte
scan_byte-Full input i c st f = elim (Bool-cases (ltb c 0x80)) [
  | inl e ↦ rw e (scan_ascii-Full c st f)
  | inr e ↦ rw e (scan_wide-Full input i st f)
]

scan_from-Full :
    (fuel : ℕ) (input : Text) (i : ℕ) (st : Scan) → Full st → Full (scan_from fuel input i st).1
unfolding scan_from
scan_from-Full zero input i st f = f
scan_from-Full (suc fuel) input i st f = elim (Option-cases (get_elem? input i)) [
  | inl e ↦ rw (e, scan_from) f
  | inr (c, e) ↦
      let (n, st') = scan_byte input i c st in
      rw (e, scan_from) (scan_from-Full fuel input (i + n) st' (scan_byte-Full input i c st f))
]

-- For every input the loop reaches the end within its fuel, and no token is empty.
pub tokenize_total :
    (input : Text)
    → (length input ≤ (scan_from (length input) input 0 no_tokens).0)
      × All NonEmpty (tokenize input)
unfolding tokenize
tokenize_total input =
    let st = (scan_from (length input) input 0 no_tokens).1 in
    let f = scan_from-Full (length input) input 0 no_tokens (record { runs = tt; words = tt }) in
    (
      scan_from_ends (length input) input 0 no_tokens (omega arith),
      (flush_cjk-Full _ (flush_ascii-Full st f)).words,
    )
