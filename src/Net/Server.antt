-- ===== src/Net/Server.antt =====
-- src/net/http_server.cpp: the routes, the dispatch, and the request made from that of brpc. brpc's
-- server (start, stop, threads) is third-party code, and so is what its controller returns. A handler
-- acts on a state and returns a response or throws; none that is registered is an empty function.
use poorguy_mem.Common.{
  ℕ, ◌-◌, ◌&&◌, Option, none, some, List, [], ◌∷◌, ◌++◌, map, Text, text, if◌then◌else◌, leb, Map,
  find, insert_ordered, is_empty,
}
use poorguy_mem.Net.{HttpRequest, HttpResponse}

-- `std::toupper` of the C locale
unfoldable pub to_upper_byte : ℕ → ℕ
to_upper_byte c = if leb b'a' c && leb c b'z' then c - 32 else c

unfoldable pub to_upper : Text → Text
unfolding to_upper_byte
to_upper value = map to_upper_byte value

unfoldable pub route_key : Text → Text → Text
unfolding to_upper
route_key method path = to_upper method ++ (text " " ++ path)

-- What the controller of brpc says of a request.
pub record BrpcRequest : Type 0 where
  pub method_text : Option Text
  pub path : Text
  pub query : Text
  pub headers : List (Text × Text)
  pub attachment : Text

unfoldable pub set_headers : Map Text → List (Text × Text) → Map Text
set_headers headers [] = headers
set_headers headers ((name, value) ∷ rest) = set_headers (insert_ordered name value headers) rest

-- The first half of `default_method`.
unfoldable pub request_of : BrpcRequest → HttpRequest
unfolding set_headers
request_of cntl =
    let path = if is_empty cntl.path then text "/" else cntl.path in
    record {
      method = elim cntl.method_text [ none ↦ text "GET" | some method_text ↦ method_text ];
      path = if is_empty cntl.query then path else path ++ (text "?" ++ cntl.query);
      version = text "HTTP/1.1";
      headers = set_headers [] cntl.headers;
      body = cntl.attachment;
    }

-- How a handler ends.
pub data Handled : Type 0 where
  responded : HttpResponse → Handled
  -- what() of the exception
  threw : Text → Handled

module _ (S : Type 0) where
  abbrev pub Handler : Type 0
  Handler = HttpRequest → S → Handled × S

  unfoldable pub register_route : Map Handler → Text → Text → Handler → Map Handler
  unfolding route_key
  register_route routes method path handler = insert_ordered (route_key method path) handler routes

  -- The response of a handler, or that of its exception.
  unfoldable pub finish : Handled × S → HttpResponse × S
  finish (responded response, s) = (response, s)
  finish (threw what, s) = (
    record {
      status_code = 500;
      content_type = text "application/json";
      headers = [];
      body = text "{\"error\":\"" ++ (what ++ text "\"}");
    },
    s,
  )

  abbrev pub not_found : HttpResponse
  not_found = record {
    status_code = 404;
    content_type = text "application/json";
    headers = [];
    body = text "{\"error\":\"route not found\"}";
  }

  -- What `Dispatch` does once the handler has been looked up.
  unfoldable pub run_handler : Option Handler → HttpRequest → S → HttpResponse × S
  run_handler none request s = (not_found, s)
  run_handler (some handler) request s = finish (handler request s)

  unfoldable pub dispatch : Map Handler → HttpRequest → S → HttpResponse × S
  unfolding route_key
  dispatch routes request s =
      run_handler (find (route_key request.method request.path) routes) request s
