-- ===== src/Edge/Laws.antt =====
-- What the outer layers do to every request.
use aegis_gateway.Prelude.{
  ℕ, ◌+◌, ◌≡◌, refl, String, ◌&&◌, Option, none, some, List, [], ◌∷◌, ◌==◌, ◌≟◌, if◌then◌else◌,
  arith, eq_iff,
}
use aegis_gateway.Edge.{
  Body, Response, Handled, returned, http, crashed, Outcome, responded, raised,
  openai_style_http_exception_handler, with_handlers, correlation_id_header, Request,
  correlation_id_of, set_header, stamped, counted, Labels, same_labels, inc, route_path, app,
}

-- The value of a header, and of a series; a series that is not there counts 0.
unfoldable pub header : String → List (String × String) → Option String
header name [] = none
header name ((n, v) ∷ headers) = let rest = header name headers in if n ≟ name then some v else rest

unfoldable pub count : Labels → List (Labels × ℕ) → ℕ
count labels [] = 0
count labels ((l, n) ∷ series) =
    let rest = count labels series in if same_labels l labels then n else rest

header-set_header :
    (name value : String) (headers : List (String × String))
    → header name (set_header name value headers) ≡ some value
unfolding header set_header
header-set_header name value [] = ground (arith, eq_iff name name)
header-set_header name value ((n, v) ∷ headers) =
    ground (arith, eq_iff n name, eq_iff name name, header-set_header name value headers)

count-inc :
    (labels l : Labels) (series : List (Labels × ℕ))
    → count l (inc labels series) ≡ (if same_labels labels l then 1 else 0) + count l series
unfolding count inc
count-inc labels l [] = ground arith
count-inc labels l ((k, n) ∷ series) = ground (
  arith,
  count-inc labels l series,
  eq_iff k.method labels.method,
  eq_iff k.route labels.route,
  eq_iff k.method l.method,
  eq_iff k.route l.route,
  eq_iff labels.method l.method,
  eq_iff labels.route l.route,
)

-- The answer that a handler's end comes to, before the outer layers; an exception that is no
-- `HTTPException` has none.
abbrev pub answer_of : Handled → Option Response
answer_of (returned r) = some r
answer_of (http exc) = some (record {
  status_code = exc.status_code;
  headers = exc.headers;
  body = (openai_style_http_exception_handler exc).body;
})
answer_of (crashed message) = none

abbrev pub increment : Request → Option String → Labels → Option Response → ℕ
increment request route l none = 0
increment request route l (some r) =
    if request.method ≟ l.method && (route_path route ≟ l.route && r.status_code == l.status)
    then 1
    else 0

abbrev pub header_of : Outcome → Option String
header_of (responded r) = header correlation_id_header r.headers
header_of (raised message) = none

abbrev pub status_of : Outcome → Option (ℕ × Body)
status_of (responded r) = some (r.status_code, r.body)
status_of (raised message) = none

layers :
    (request : Request) (route : Option String) (id : String) (series : List (Labels × ℕ))
    (l : Labels) (h : Handled)
    → let answer = answer_of h in
      let (series', outcome) = counted request route (stamped id (with_handlers h)) series in
      (count l series' ≡ increment request route l answer + count l series)
      × (header_of outcome ≡ (elim answer [ none ↦ none | some r ↦ some id ]))
      × (status_of outcome ≡ (elim answer [ none ↦ none | some r ↦ some (r.status_code, r.body) ]))
unfolding with_handlers
layers request route id series l (returned r) =
    (count-inc _ l series, header-set_header correlation_id_header id r.headers, refl)
layers request route id series l (http exc) =
    (count-inc _ l series, header-set_header correlation_id_header id exc.headers, refl)
layers request route id series l (crashed message) = (omega arith, refl, refl)

-- For any request, whatever the router and the handler do: the counter of the request's method, the
-- matched route's template and the answer's status goes up by one and no other changes, if there is an answer;
-- the answer keeps its status and body and carries the client's correlation id, or else the new one. If the
-- handler raises an exception that is no HTTPException, no counter changes and there is no answer to carry the id.
pub app_lem :
    (request : Request) (uuid4 : String) (inner : String → Option String × Handled)
    (series : List (Labels × ℕ)) (l : Labels)
    → let id : String = elim request.correlation_id [ none ↦ uuid4 | some supplied ↦ supplied ] in
      let answer = answer_of (inner id).1 in
      let (series', outcome) = app request uuid4 inner series in
      (count l series' ≡ increment request (inner id).0 l answer + count l series)
      × (header_of outcome ≡ (elim answer [ none ↦ none | some r ↦ some id ]))
      × (status_of outcome ≡ (elim answer [ none ↦ none | some r ↦ some (r.status_code, r.body) ]))
unfolding app correlation_id_of
app_lem request uuid4 inner series l =
    let id = correlation_id_of request uuid4 in layers request (inner id).0 id series l (inner id).1
