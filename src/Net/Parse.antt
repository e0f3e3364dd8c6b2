-- ===== src/Net/Parse.antt =====
-- `ParseHttpRequest` and `BuildHttpResponse` of src/net/http_common.cpp. The output parameters are given;
-- what a failed parse leaves in them is not modelled. `Trim` and `ToLower` are the same code as in
-- src/util/text.cpp. `std::getline` and `>>` read from the text of the header; sums of `size_t` wrap.
use poorguy_mem.Common.{
  ℕ, suc, ◌-◌, ◌+◌, ◌%◌, Bool, true, false, ◌&&◌, Option, none, some, List, [], ◌∷◌, ◌++◌, Map,
  Text, text, text_eq, if◌then◌else◌, ◌==◌, leb, ltb, length, is_empty, take, drop, find_text,
  insert_ordered, add64, word,
}
use poorguy_mem.Tokens.{trim, to_lower, is_space}
use poorguy_mem.Engine.Keys.{decimal}
use poorguy_mem.Programs.Args.{digits_from, skip_spaces, signed}
use poorguy_mem.Net.{HttpRequest, HttpResponse}

abbrev put_first : ℕ → List Text → List Text
put_first c [] = (c ∷ []) ∷ []
put_first c (line ∷ rest) = (c ∷ line) ∷ rest

-- The lines that `std::getline` reads one after the other.
unfoldable pub lines_of : Text → List Text
lines_of [] = []
lines_of (c ∷ s) = let rest = lines_of s in if c == 10 then [] ∷ rest else put_first c rest

-- `pop_back` of a carriage return
unfoldable pub drop_cr : Text → Text
drop_cr [] = []
drop_cr (c ∷ []) = if c == 13 then [] else c ∷ []
drop_cr (c ∷ d ∷ s) = c ∷ drop_cr (d ∷ s)

-- The words that `>>` reads. The flag says that a word is being read.
unfoldable pub words_from : Bool → Text → List Text
words_from reading [] = []
words_from true (c ∷ s) =
    let next = words_from true s in
    let after = words_from false s in if is_space c then [] ∷ after else put_first c next
words_from false (c ∷ s) =
    let next = words_from true s in
    let after = words_from false s in if is_space c then after else put_first c next

-- The value of digits behind a sign; `none` where there are none, or where it does not fit.
unfoldable pub word_of_digits : Bool → Text → Option ℕ
word_of_digits negated [] = none
word_of_digits negated (c ∷ rest) =
    let n = digits_from 0 (c ∷ rest) in
    if leb 48 c && leb c 57
    then if leb word n then none else some (if negated then (word - n) % word else n)
    else none

-- `std::stoull`; `none` where it throws.
unfoldable pub stoull : Text → Option ℕ
stoull s = let (negated, digits) = signed (skip_spaces s) in word_of_digits negated digits

-- The headers so far, and the length of the body.
pub record Headers : Type 0 where
  pub headers : Map Text
  pub content_length : ℕ

unfoldable pub add_header : Headers → Text → Text → Option Headers
add_header h key value =
    let headers = insert_ordered key value h.headers in
    if text_eq key (text "content-length")
    then elim (stoull value) [
      | none ↦ none
      | some n ↦ some (record { headers = headers; content_length = n })
    ]
    else some (record h { headers = headers })

-- One round of the loop over the header lines; `none` is an invalid length.
unfoldable pub header_step : Headers → Text → Option Headers
header_step h raw_line =
    let line = drop_cr raw_line in
    if is_empty line then some h else elim (find_text line (text ":")) [
      | none ↦ some h
      | some sep ↦ add_header h (to_lower (trim (take sep line))) (trim (drop (suc sep) line))
    ]

unfoldable pub read_headers : Headers → List Text → Option Headers
read_headers h [] = some h
read_headers h (line ∷ lines) = elim (header_step h line) [
  | none ↦ none
  | some h' ↦ read_headers h' lines
]

-- What a parse ends with: the request and the bytes consumed, or the text of the error.
pub data Parsed : Type 0 where
  parsed : HttpRequest → (consumed : ℕ) → Parsed
  failed : Text → Parsed

abbrev pub header_mark : Text
header_mark = text "\r\n\r\n"

-- The body, once the headers are read.
unfoldable pub take_body : Text → ℕ → Text → Text → Text → Headers → Parsed
take_body raw body_offset method path version h =
    let end = add64 body_offset h.content_length in
    if ltb (length raw) end
    then failed (text "incomplete body")
    else parsed
        (record {
          method = method;
          path = path;
          version = version;
          headers = h.headers;
          body = take h.content_length (drop body_offset raw);
        })
        end

unfoldable pub parse_lines : Text → ℕ → List Text → Parsed
parse_lines raw body_offset [] = failed (text "missing request line")
parse_lines raw body_offset (first_line ∷ lines) = elim (words_from false (drop_cr first_line)) [
  | [] ↦ failed (text "invalid request line")
  | method ∷ [] ↦ failed (text "invalid request line")
  | method ∷ path ∷ [] ↦ failed (text "invalid request line")
  | method ∷ path ∷ version ∷ more ↦
      elim (read_headers (record { headers = []; content_length = 0 }) lines) [
        | none ↦ failed (text "invalid content-length")
        | some h ↦ take_body raw body_offset method path version h
      ]
]

-- `ParseHttpRequest`
unfoldable pub parse_http_request : Text → Parsed
parse_http_request raw = elim (find_text raw header_mark) [
  | none ↦ failed (text "incomplete header")
  | some header_end ↦ parse_lines raw (header_end + 4) (lines_of (take header_end raw))
]

unfoldable pub status_text : ℕ → Text
status_text code =
    if code == 200
    then text "OK"
    else if code == 201
    then text "Created"
    else if code == 204
    then text "No Content"
    else if code == 400
    then text "Bad Request"
    else if code == 404
    then text "Not Found"
    else if code == 409
    then text "Conflict"
    else if code == 422
    then text "Unprocessable Entity"
    else if code == 429
    then text "Too Many Requests"
    else if code == 500
    then text "Internal Server Error"
    else if code == 503
    then text "Service Unavailable"
    else text "Unknown"

unfoldable pub header_lines : Map Text → Text
header_lines [] = []
header_lines ((name, value) ∷ rest) =
    name ++ (text ": " ++ (value ++ (text "\r\n" ++ header_lines rest)))

-- `BuildHttpResponse`
unfoldable pub build_http_response : HttpResponse → Text
build_http_response response =
    text "HTTP/1.1 "
    ++ (decimal response.status_code
        ++ (text " "
            ++ (status_text response.status_code
                ++ (text "\r\nContent-Type: "
                    ++ (response.content_type
                        ++ (text "\r\nContent-Length: "
                            ++ (decimal (length response.body)
                                ++ (text "\r\nConnection: close\r\n"
                                    ++ (header_lines response.headers
                                        ++ (text "\r\n" ++ response.body))))))))))
