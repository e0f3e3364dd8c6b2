-- ===== src/Net/Framing.antt =====
-- The framing of requests in src/net/http_common.cpp: what a successful parse consumes, and that it does
-- not look past it.
use poorguy_mem.Common.{
  ℕ, zero, suc, ◌+◌, ◌<◌, ◌≤◌, ◌≡◌, refl, sym, ap, ◌∙◌, Bool, true, false, Option, none, some, List,
  [], ◌∷◌, ◌++◌, Text, text, text_eq, ltb, length, length-append, length-take, length-drop,
  is_empty, take, drop, find_text, starts_with, add64, word, arith, Option-cases, Bool-cases, inl,
  inr,
}
use mathlib.Core.Path.{subst}
use poorguy_mem.Net.{HttpRequest}
use poorguy_mem.Net.Parse.{
  Parsed, parsed, failed, Headers, take_body, parse_lines, parse_http_request, header_mark, stoull,
  header_step, word_of_digits, add_header, lines_of, drop_cr, words_from, read_headers,
}

starts_with-append : (s t more : Text) → starts_with s t ≡ true → starts_with (s ++ more) t ≡ true
unfolding starts_with
starts_with-append s [] more h = refl
starts_with-append [] (y ∷ t) more h = cc
starts_with-append (x ∷ s) (y ∷ t) more h = ground (arith, starts_with-append s t more)

-- A text that is long enough decides whether it starts with another.
starts_with-long :
    (s t more : Text) → length t ≤ length s → starts_with (s ++ more) t ≡ starts_with s t
unfolding starts_with
starts_with-long s [] more h = refl
starts_with-long [] (y ∷ t) more h = ground arith
starts_with-long (x ∷ s) (y ∷ t) more h = ground (arith, starts_with-long s t more)

starts_with_le : (s t : Text) → starts_with s t ≡ true → length t ≤ length s
unfolding starts_with
starts_with_le s [] h = omega arith
starts_with_le [] (y ∷ t) h = cc
starts_with_le (x ∷ s) (y ∷ t) h = ground (arith, starts_with_le s t)

-- A marker that is found lies within the text.
find_text_le :
    (s marker : Text) (n : ℕ) → find_text s marker ≡ some n → n + length marker ≤ length s
unfolding find_text
find_text_le [] marker n h = ground (arith, starts_with_le [] marker)
find_text_le (x ∷ s) marker n h = elim (Bool-cases (starts_with (x ∷ s) marker)) [
  | inl e ↦ ground (arith, starts_with_le (x ∷ s) marker e, rw (find_text, e) at h)
  | inr e ↦ elim (Option-cases (find_text s marker)) [
    | inl f ↦ cc (rw (find_text, e, f) at h)
    | inr (m, f) ↦ ground (arith, find_text_le s marker m f, rw (find_text, e, f) at h)
  ]
]

-- A marker that is found is found at the same place when more follows.
find_text-append :
    (s marker more : Text) (n : ℕ)
    → find_text s marker ≡ some n
    → find_text (s ++ more) marker ≡ some n
unfolding find_text starts_with
find_text-append [] [] [] n h = h
find_text-append [] [] (y ∷ more) n h = h
find_text-append [] (y ∷ marker) more n h = cc
find_text-append (x ∷ s) marker more n h = elim (Bool-cases (starts_with (x ∷ s) marker)) [
  | inl e ↦ rw (find_text, starts_with-append (x ∷ s) marker more e) (rw (find_text, e) at h)
  | inr e ↦ elim (Option-cases (find_text s marker)) [
    | inl f ↦ cc (rw (find_text, e, f) at h)
    | inr (m, f) ↦
        let fits : length marker ≤ length (x ∷ s) = omega (arith, find_text_le s marker m f) in
        rw
          (
            find_text,
            starts_with-long (x ∷ s) marker more fits ∙ e,
            find_text-append s marker more m f,
          )
          (rw (find_text, e, f) at h)
  ]
]

word_of_digits_lt :
    (negated : Bool) (s : Text) (n : ℕ) → word_of_digits negated s ≡ some n → n < word
unfolding word_of_digits
word_of_digits_lt negated [] n h = cc
word_of_digits_lt negated (c ∷ s) n h = ground arith

abbrev content_of : Option Headers → ℕ
content_of none = 0
content_of (some h) = h.content_length

add_header_lt :
    (h h' : Headers) (key value : Text)
    → h.content_length < word
    → add_header h key value ≡ some h'
    → h'.content_length < word
unfolding add_header stoull
add_header_lt h h' key value lt e = elim (Bool-cases (text_eq key (text "content-length"))) [
  | inl f ↦ elim (Option-cases (stoull value)) [
    | inl g ↦ cc (rw (add_header, f, g) at e)
    | inr (n, g) ↦
        subst (λ m. m < word) (ap content_of (rw (add_header, f, g) at e))
          (word_of_digits_lt _ _ n g)
  ]
  | inr f ↦ ground (arith, lt, rw (add_header, f) at e)
]

header_step_lt :
    (h h' : Headers) (line : Text)
    → h.content_length < word
    → header_step h line ≡ some h'
    → h'.content_length < word
unfolding header_step
header_step_lt h h' line lt e = elim (Bool-cases (is_empty (drop_cr line))) [
  | inl f ↦ ground (arith, lt, rw (header_step, f) at e)
  | inr f ↦ elim (Option-cases (find_text (drop_cr line) (text ":"))) [
    | inl g ↦ ground (arith, lt, rw (header_step, f, g) at e)
    | inr (sep, g) ↦ add_header_lt h h' _ _ lt (rw (header_step, f, g) at e)
  ]
]

read_headers_lt :
    (lines : List Text) (h h' : Headers)
    → h.content_length < word
    → read_headers h lines ≡ some h'
    → h'.content_length < word
unfolding read_headers
read_headers_lt [] h h' lt e = ground (arith, e)
read_headers_lt (line ∷ lines) h h' lt e = elim (Option-cases (header_step h line)) [
  | inl f ↦ cc (rw (read_headers, f) at e)
  | inr (h1, f) ↦
      read_headers_lt lines h1 h' (header_step_lt h h1 line lt f) (rw (read_headers, f) at e)
]

-- What a parse consumes, and the body of its request.
abbrev pub consumed_of : Parsed → ℕ
consumed_of (parsed request consumed) = consumed
consumed_of (failed error) = 0

abbrev pub body_of : Parsed → Text
body_of (parsed request consumed) = request.body
body_of (failed error) = []

-- The bytes of a request: its header, and then its body, all of them there.
pub record IsFramed (raw : Text) (body_offset : ℕ) (r : HttpRequest) (consumed : ℕ) : Type 0 where
  pub within : consumed ≤ length raw
  pub whole : consumed ≡ body_offset + length r.body
  pub body_is : r.body ≡ take (length r.body) (drop body_offset raw)

take-longer {ℓ} :
    {A : Type ℓ} (n : ℕ) (xs ys : List A) → n ≤ length xs → take n (xs ++ ys) ≡ take n xs
take-longer zero xs ys h = refl
take-longer (suc n) [] ys h = elim h [ ]
take-longer (suc n) (x ∷ xs) ys h = ap (◌∷◌ x) (take-longer n xs ys (omega (arith, h)))

drop-longer {ℓ} :
    {A : Type ℓ} (n : ℕ) (xs ys : List A) → n ≤ length xs → drop n (xs ++ ys) ≡ drop n xs ++ ys
drop-longer zero xs ys h = refl
drop-longer (suc n) [] ys h = elim h [ ]
drop-longer (suc n) (x ∷ xs) ys h = drop-longer n xs ys (omega (arith, h))

-- A parse of lines that succeeds comes to the body, whatever the input behind the header is.
parse_lines-body :
    (raw : Text) (body_offset : ℕ) (lines : List Text) (r : HttpRequest) (consumed : ℕ)
    → parse_lines raw body_offset lines ≡ parsed r consumed
    → (method path version : Text) × (h : Headers) × (h.content_length < word)
      × ((input : Text)
          → parse_lines input body_offset lines ≡ take_body input body_offset method path version h)
unfolding parse_lines
parse_lines-body raw body_offset [] r consumed e = cc
parse_lines-body raw body_offset (line ∷ lines) r consumed e =
    words (words_from false (drop_cr line)) refl
  where
    words :
        (ws : List Text)
        → words_from false (drop_cr line) ≡ ws
        → (method path version : Text) × (h : Headers) × (h.content_length < word)
          × ((input : Text)
              → parse_lines input body_offset (line ∷ lines)
                ≡ take_body input body_offset method path version h)
    words [] f = cc (rw (parse_lines, f) at e)
    words (method ∷ []) f = cc (rw (parse_lines, f) at e)
    words (method ∷ path ∷ []) f = cc (rw (parse_lines, f) at e)
    words (method ∷ path ∷ version ∷ more) f =
        elim (Option-cases (read_headers (record { headers = []; content_length = 0 }) lines)) [
          | inl g ↦ cc (rw (parse_lines, f, g) at e)
          | inr (h, g) ↦ (
            method,
            path,
            version,
            h,
            read_headers_lt lines (record { headers = []; content_length = 0 }) h (omega arith) g,
            λ input. rw (parse_lines, f, g) refl,
          )
        ]

module _ (raw : Text) (body_offset : ℕ) (r : HttpRequest) (consumed : ℕ)
    (fits : body_offset ≤ length raw) (small : length raw < word) (onward : body_offset ≤ consumed)
    (method path version : Text) (h : Headers) (lt : h.content_length < word)
    (e : take_body raw body_offset method path version h ≡ parsed r consumed) where
  -- The body ends within the input, and its end does not wrap.
  body_end :
      (consumed ≤ length raw)
      × (add64 body_offset h.content_length ≡ consumed)
      × (consumed ≡ body_offset + h.content_length)
      × (take h.content_length (drop body_offset raw) ≡ r.body)
  unfolding take_body add64
  body_end = elim (Bool-cases (ltb (length raw) (add64 body_offset h.content_length))) [
    | inl f ↦ cc (rw (take_body, f) at e)
    | inr f ↦
        let done = rw (take_body, f) at e in
        let end : add64 body_offset h.content_length ≡ consumed = ap consumed_of done in
        let within : consumed ≤ length raw = ground (arith, f, end) in
        (within, end, omega (arith, end, lt, small, fits, onward, within), ap body_of done)
  ]

  take_body-IsFramed : IsFramed raw body_offset r consumed
  take_body-IsFramed =
      let (within, end, whole, body) = body_end in
      let size : length r.body ≡ h.content_length = omega (
        arith,
        ap length body,
        length-take h.content_length (drop body_offset raw),
        length-drop body_offset raw,
        within,
        whole,
      ) in
      record {
        within = within;
        whole = omega (arith, whole, size);
        body_is = sym body ∙ ap (λ m. take m (drop body_offset raw)) (sym size);
      }

  take_body-append :
      (more : Text) → take_body (raw ++ more) body_offset method path version h ≡ parsed r consumed
  unfolding take_body
  take_body-append more =
      let (within, end, whole, body) = body_end in
      let short : ltb (length raw) (add64 body_offset h.content_length) ≡ false =
        ground (arith, within, end) in
      let longer : ltb (length (raw ++ more)) (add64 body_offset h.content_length) ≡ false =
        ground (arith, within, end, length-append raw more) in
      let same : take h.content_length (drop body_offset (raw ++ more))
          ≡ take h.content_length (drop body_offset raw) =
        ap (take h.content_length) (drop-longer body_offset raw more fits)
        ∙ take-longer h.content_length (drop body_offset raw) more
            (omega (arith, length-drop body_offset raw, within, whole)) in
      rw (take_body, longer, same) (rw (take_body, short) at e)

-- A request that is parsed without a wrap of its length lies within the input: what is consumed is the
-- header with its mark and the body, and the body is what stands there.
pub parse_http_request-IsFramed :
    (raw : Text) (header_end : ℕ) (r : HttpRequest) (consumed : ℕ)
    → length raw < word
    → find_text raw header_mark ≡ some header_end
    → parse_http_request raw ≡ parsed r consumed
    → header_end + 4 ≤ consumed
    → IsFramed raw (header_end + 4) r consumed
unfolding parse_http_request
parse_http_request-IsFramed raw header_end r consumed small found e onward =
    let o = header_end + 4 in
    let from_lines = rw (parse_http_request, found) at e in
    let (m, p, v, h, lt, body) =
      parse_lines-body raw o (lines_of (take header_end raw)) r consumed from_lines in
    take_body-IsFramed raw o r consumed (find_text_le raw header_mark header_end found) small onward
      m p v h lt (sym (body raw) ∙ from_lines)

-- Such a request is parsed in the same way when more input follows it.
pub parse_http_request-append :
    (raw more : Text) (header_end : ℕ) (r : HttpRequest) (consumed : ℕ)
    → length raw < word
    → find_text raw header_mark ≡ some header_end
    → parse_http_request raw ≡ parsed r consumed
    → header_end + 4 ≤ consumed
    → parse_http_request (raw ++ more) ≡ parsed r consumed
unfolding parse_http_request
parse_http_request-append raw more header_end r consumed small found e onward =
    let o = header_end + 4 in
    let fits = find_text_le raw header_mark header_end found in
    let from_lines = rw (parse_http_request, found) at e in
    let (m, p, v, h, lt, body) =
      parse_lines-body raw o (lines_of (take header_end raw)) r consumed from_lines in
    let header : take header_end (raw ++ more) ≡ take header_end raw =
      take-longer header_end raw more (omega (arith, fits)) in
    rw (parse_http_request, find_text-append raw header_mark more header_end found, header, body)
      (take_body-append raw o r consumed fits small onward m p v h lt (sym (body raw) ∙ from_lines)
        more)
