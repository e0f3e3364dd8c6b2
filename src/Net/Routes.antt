-- ===== src/Net/Routes.antt =====
-- The routes of src/net/http_server.cpp: which registration answers a request.
use poorguy_mem.Common.{
  ◌≡◌, refl, sym, text, ap, ◌∙◌, Bool, true, ◌&&◌, not, Option, none, some, List, [], ◌∷◌, ◌++◌,
  Text, text_eq, if◌then◌else◌, ◌==◌, Map, find, find-insert_ordered, arith, All,
}
use mathlib.Core.Path.{subst}
use poorguy_mem.Net.{HttpRequest, HttpResponse}
use poorguy_mem.Net.Server.{
  to_upper, to_upper_byte, route_key, Handler, register_route, run_handler, dispatch, finish,
  Handled, responded, threw,
}

abbrev pub no_space : Text → Bool
no_space [] = true
no_space (c ∷ s) = not (c == 32) && no_space s

to_upper-no_space : (s : Text) → no_space s ≡ true → no_space (to_upper s) ≡ true
unfolding to_upper to_upper_byte
to_upper-no_space [] h = refl
to_upper-no_space (c ∷ s) h = ground (arith, to_upper-no_space s)

-- Two texts with the first space at a known place.
text_eq-spaced :
    (a b p q : Text)
    → no_space a ≡ true
    → no_space b ≡ true
    → text_eq (a ++ 32 ∷ p) (b ++ 32 ∷ q) ≡ text_eq a b && text_eq p q
unfolding text_eq
text_eq-spaced [] [] p q h k = refl
text_eq-spaced [] (y ∷ b) p q h k = ground arith
text_eq-spaced (x ∷ a) [] p q h k = ground arith
text_eq-spaced (x ∷ a) (y ∷ b) p q h k = ground (arith, text_eq-spaced a b p q)

route_key-same :
    (m p m' p' : Text)
    → no_space m ≡ true
    → no_space m' ≡ true
    → text_eq (route_key m p) (route_key m' p') ≡ text_eq (to_upper m) (to_upper m') && text_eq p p'
unfolding route_key
route_key-same m p m' p' h k =
    text_eq-spaced (to_upper m) (to_upper m') p p' (to_upper-no_space m h) (to_upper-no_space m' k)

module _ (S : Type 0) where
  pub record Registration : Type 0 where
    pub method : Text
    pub path : Text
    pub handler : Handler S

  unfoldable pub register_all : Map (Handler S) → List Registration → Map (Handler S)
  register_all routes [] = routes
  register_all routes (r ∷ rs) = register_all (register_route S routes r.method r.path r.handler) rs

  -- The last registration of the path whose method is the same but for the case of its letters.
  abbrev pub route_from : Option (Handler S) → List Registration → Text → Text → Option (Handler S)
  route_from found [] method path = found
  route_from found (r ∷ rs) method path =
      route_from
        (if text_eq (to_upper r.method) (to_upper method) && text_eq r.path path
          then some r.handler
          else found)
        rs method path

  find-register_all :
      (rs : List Registration) (routes : Map (Handler S)) (method path : Text)
      → All (λ (r : Registration). no_space r.method ≡ true) rs
      → no_space method ≡ true
      → find (route_key method path) (register_all routes rs)
        ≡ route_from (find (route_key method path) routes) rs method path
  unfolding register_all register_route
  find-register_all [] routes method path a h = refl
  find-register_all (r ∷ rs) routes method path a h =
      find-register_all rs (register_route S routes r.method r.path r.handler) method path a.1 h
      ∙ ap (λ o. route_from o rs method path)
          (find-insert_ordered (route_key r.method r.path) (route_key method path) r.handler routes
            ∙ ap (λ b. if b then some r.handler else find (route_key method path) routes)
                (route_key-same r.method r.path method path a.0 h))

  -- What a client sees and the state after it: of a handler that responds its response, of one that
  -- throws the status 500 and the text of the exception, and without a handler the status 404.
  abbrev IsFinished : Handled × S → HttpResponse × S → Type 0
  IsFinished (responded response, s') out = out ≡ (response, s')
  IsFinished (threw what, s') out =
      (out.0.status_code ≡ 500)
      × (out.0.body ≡ text "{\"error\":\"" ++ (what ++ text "\"}"))
      × (out.1 ≡ s')

  abbrev pub IsReply : Option (Handler S) → HttpRequest → S → HttpResponse × S → Type 0
  IsReply none request s out = (out.0.status_code ≡ 404) × (out.1 ≡ s)
  IsReply (some handler) request s out = IsFinished (handler request s) out

  finish-IsFinished : (h : Handled × S) → IsFinished h (finish S h)
  unfolding finish
  finish-IsFinished (responded response, s) = refl
  finish-IsFinished (threw what, s) = (refl, refl, refl)

  run_handler-IsReply :
      (o : Option (Handler S)) (request : HttpRequest) (s : S)
      → IsReply o request s (run_handler S o request s)
  unfolding run_handler
  run_handler-IsReply none request s = (refl, refl)
  run_handler-IsReply (some handler) request s = finish-IsFinished (handler request s)

  -- Where no method holds a space: a request is answered by the last registration of its path whose
  -- method is that of the request but for the case of the letters: with what its handler returns, or
  -- with the status 500 and the text of the exception if it throws, and the state is that of the
  -- handler. If there is none, the status is 404 and the state is unchanged.
  pub dispatch-register_all :
      (rs : List Registration) (request : HttpRequest) (s : S)
      → All (λ (r : Registration). no_space r.method ≡ true) rs
      → no_space request.method ≡ true
      → IsReply
          (route_from none rs request.method request.path)
          request
          s
          (dispatch S (register_all [] rs) request s)
  unfolding dispatch find
  dispatch-register_all rs request s a h =
      let same = find-register_all rs [] request.method request.path a h in
      subst
        (λ o.
          IsReply (route_from none rs request.method request.path) request s
            (run_handler S o request s))
        (sym same) (run_handler-IsReply (route_from none rs request.method request.path) request s)
