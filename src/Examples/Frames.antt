-- ===== src/Examples/Frames.antt =====
-- Worked examples on the request parser of src/net/http_common.cpp.
use poorguy_mem.Common.{
  ◌≡◌, refl, some, [], ◌∷◌, ◌++◌, Text, text, text_eq, find_text, starts_with, insert_ordered,
  add64, arith,
}
use poorguy_mem.Tokens.{is_space, trim, trim_start, trim_end, to_lower, to_lower_byte}
use poorguy_mem.Programs.Args.{digits_from, skip_spaces, signed}
use poorguy_mem.Net.{HttpRequest}
use poorguy_mem.Net.Parse.{
  parsed, header_mark, parse_http_request, parse_lines, take_body, lines_of, drop_cr, words_from,
  read_headers, header_step, add_header, stoull, word_of_digits,
}
use poorguy_mem.Net.Framing.{IsFramed, parse_http_request-IsFramed, parse_http_request-append}

abbrev raw_request : Text
raw_request = text "POST /mcp HTTP/1.1\r\nContent-Length: 2\r\n\r\n{}"

abbrev sample_request : HttpRequest
sample_request = record {
  method = text "POST";
  path = text "/mcp";
  version = text "HTTP/1.1";
  headers = (text "content-length", text "2") ∷ [];
  body = text "{}";
}

raw_request_found : find_text raw_request header_mark ≡ some 37
unfolding find_text starts_with
raw_request_found = refl

raw_request_parsed : parse_http_request raw_request ≡ parsed sample_request 43
unfolding find_text starts_with parse_http_request parse_lines lines_of drop_cr words_from is_space
    read_headers header_step add_header stoull word_of_digits digits_from skip_spaces signed trim
    trim_start trim_end to_lower to_lower_byte text_eq insert_ordered take_body add64
raw_request_parsed = refl

-- The end of the body wraps to a place before the body, and the request is taken as complete.
wrapped_length_parsed :
    parse_http_request (text "POST /mcp HTTP/1.1\r\nContent-Length: 18446744073709551615\r\n\r\n{}")
    ≡ parsed
        (record sample_request {
          headers = (text "content-length", text "18446744073709551615") ∷ [];
        })
        59
unfolding find_text starts_with parse_http_request parse_lines lines_of drop_cr words_from is_space
    read_headers header_step add_header stoull word_of_digits digits_from skip_spaces signed trim
    trim_start trim_end to_lower to_lower_byte text_eq insert_ordered take_body add64
wrapped_length_parsed = refl

parse_http_request-IsFramed_example : IsFramed raw_request 41 sample_request 43
parse_http_request-IsFramed_example =
    parse_http_request-IsFramed raw_request 37 sample_request 43 (omega arith) raw_request_found
      raw_request_parsed (omega arith)

parse_http_request-append_example :
    parse_http_request (raw_request ++ text "GET /") ≡ parsed sample_request 43
parse_http_request-append_example =
    parse_http_request-append raw_request (text "GET /") 37 sample_request 43 (omega arith)
      raw_request_found raw_request_parsed (omega arith)
