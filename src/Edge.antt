-- ===== src/Edge.antt =====
-- The outermost layers of a request: src/aegis_gateway/middleware/metrics.py,
-- middleware/request_id.py and `openai_style_http_exception_handler` of main.py, in the order in which
-- `create_app` stacks them, and api/health.py. What runs inside (the router and a handler with its
-- dependencies) is an argument. Durations are left out.
pub mod Laws
pub mod Correlation
pub mod Tests
use aegis_gateway.Prelude.{
  ℕ, suc, String, Bool, true, false, ◌&&◌, Option, none, some, List, [], ◌∷◌, ◌==◌, ◌≟◌,
  if◌then◌else◌,
}

-- The body of an answer: text that a handler wrote, the detail of an exception that has "error",
-- and another detail in FastAPI's envelope.
pub data Body : Type 0 where
  written : String → Body
  verbatim : String → Body
  enveloped : String → Body

pub record Response : Type 0 where
  pub status_code : ℕ
  pub headers : List (String × String)
  pub body : Body

-- The `detail` of an `HTTPException`: a dict, with a key "error" or without, or a text.
pub data Detail : Type 0 where
  error_dict : String → Detail
  dict : String → Detail
  text : String → Detail

pub record HttpException : Type 0 where
  pub status_code : ℕ
  pub detail : Detail
  pub headers : List (String × String)

-- How a handler ends, and how a layer does.
pub data Handled : Type 0 where
  returned : Response → Handled
  http : HttpException → Handled
  crashed : String → Handled

pub data Outcome : Type 0 where
  responded : Response → Outcome
  raised : String → Outcome

-- `openai_style_http_exception_handler`
unfoldable pub openai_style_http_exception_handler : HttpException → Response
openai_style_http_exception_handler exc = record {
  status_code = exc.status_code;
  headers = exc.headers;
  body = (elim exc.detail [
    | error_dict d ↦ verbatim d
    | dict d ↦ enveloped d
    | text d ↦ enveloped d
  ]);
}

-- The handler is registered for `HTTPException` only.
unfoldable pub with_handlers : Handled → Outcome
unfolding openai_style_http_exception_handler
with_handlers (returned r) = responded r
with_handlers (http exc) = responded (openai_style_http_exception_handler exc)
with_handlers (crashed message) = raised message

abbrev pub correlation_id_header : String
correlation_id_header = "X-Correlation-ID"

pub record Request : Type 0 where
  pub method : String
  -- The value of the header X-Correlation-ID.
  pub correlation_id : Option String

-- `request.headers.get(CORRELATION_ID_HEADER, str(uuid.uuid4()))`
unfoldable pub correlation_id_of : Request → String → String
correlation_id_of request uuid4 = elim request.correlation_id [ none ↦ uuid4 | some id ↦ id ]

-- `headers[name] = value`: the header is set, whether or not it was there.
unfoldable pub set_header : String → String → List (String × String) → List (String × String)
set_header name value [] = (name, value) ∷ []
set_header name value ((n, v) ∷ headers) =
    let rest = set_header name value headers in
    if n ≟ name then (name, value) ∷ headers else (n, v) ∷ rest

abbrev pub stamped : String → Outcome → Outcome
stamped id (responded r) =
    responded (record r { headers = set_header correlation_id_header id r.headers })
stamped id (raised message) = raised message

-- `CorrelationIdMiddleware.dispatch`; the inner layers read the id from the request's state.
unfoldable pub correlation_id_dispatch : Request → String → (String → Outcome) → Outcome
unfolding correlation_id_of set_header
correlation_id_dispatch request uuid4 call_next =
    let id = correlation_id_of request uuid4 in stamped id (call_next id)

pub record Labels : Type 0 where
  pub method : String
  pub route : String
  pub status : ℕ

abbrev pub same_labels : Labels → Labels → Bool
same_labels a b = a.method ≟ b.method && (a.route ≟ b.route && a.status == b.status)

-- `http_requests_total`: one series for each combination of labels.
unfoldable pub inc : Labels → List (Labels × ℕ) → List (Labels × ℕ)
inc labels [] = (labels, 1) ∷ []
inc labels ((l, n) ∷ series) =
    let rest = inc labels series in
    if same_labels l labels then (l, suc n) ∷ series else (l, n) ∷ rest

-- The matched route's template.
abbrev pub route_path : Option String → String
route_path none = "unmatched"
route_path (some path) = path

abbrev pub counted :
    Request → Option String → Outcome → List (Labels × ℕ) → List (Labels × ℕ) × Outcome
counted request route (responded r) series = (
  inc (record { method = request.method; route = route_path route; status = r.status_code }) series,
  responded r,
)
counted request route (raised message) series = (series, raised message)

-- `PrometheusMiddleware.dispatch`: an exception passes it.
unfoldable pub prometheus_dispatch :
    Request → Option String → Outcome → List (Labels × ℕ) → List (Labels × ℕ) × Outcome
unfolding inc
prometheus_dispatch request route outcome series = counted request route outcome series

-- The layers as `create_app` adds them: the middleware that is added last is the outermost.
unfoldable pub app :
    Request
    → String
    → (String → Option String × Handled)
    → List (Labels × ℕ)
    → List (Labels × ℕ) × Outcome
unfolding correlation_id_of correlation_id_dispatch with_handlers prometheus_dispatch
app request uuid4 inner series =
    let route = (inner (correlation_id_of request uuid4)).0 in
    prometheus_dispatch request route
      (correlation_id_dispatch request uuid4 (λ id. with_handlers (inner id).1)) series

-- The answer of `healthz`; a check is `none` if it is "ok", and otherwise the text of what was raised.
pub record Health : Type 0 where
  pub status_code : ℕ
  pub status : String
  pub database : Option String
  pub redis : Option String

abbrev pub is_ok : Option String → Bool
is_ok none = true
is_ok (some exc) = false

-- A check is "ok", or "error: " and the exception's text, which is never "ok".
unfoldable pub healthz : Option String → Option String → Health
healthz database redis =
    let healthy = is_ok database && is_ok redis in
    record {
      status_code = if healthy then 200 else 503;
      status = if healthy then "ok" else "degraded";
      database = database;
      redis = redis;
    }
