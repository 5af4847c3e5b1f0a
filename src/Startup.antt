-- ===== src/Startup.antt =====
-- The life of a process: `create_app` and `lifespan` of src/aegis_gateway/main.py, the getters of api/deps.py, and
-- `startup` and `shutdown` of workers/tasks.py. A resource is what has to be closed; an attribute is what
-- `app.state` keeps for the handlers. What a step raises is an argument, `none` if it succeeds.
pub mod Laws
use aegis_gateway.Prelude.{
  ℕ, String, Bool, true, false, Option, none, some, List, [], ◌∷◌, ◌++◌, ◌==◌, if◌then◌else◌,
}

pub data Resource : Type 0 where
  tracer_provider http_client redis_client redis_pool engine : Resource

pub data Attribute : Type 0 where
  settings sessionmaker redis providers token_bucket_script budget_script : Attribute
  pii_redactor injection_detector : Attribute

-- The resources that are open, the attributes that are set, whether requests were served, and the
-- exception that ended the process.
pub record Process : Type 0 where
  pub open_ : List Resource
  pub attributes : List Attribute
  pub served : Bool
  pub raised : Option String

-- `configure_tracing` in `create_app`
abbrev pub created : Process
created = record { open_ = tracer_provider ∷ []; attributes = []; served = false; raised = none }

abbrev pub after_close :
    Option String
    → Resource
    → List Resource
    → List Resource × Option String
    → List Resource × Option String
after_close none r rest closed = closed
after_close (some exc) r rest closed = (r ∷ rest, some exc)

-- The resources in the order in which `finally` closes them, each open until its close returns: the
-- first one that raises ends the block.
unfoldable pub close_all :
    (Resource → Option String) → List Resource → List Resource × Option String
close_all close [] = ([], none)
close_all close (r ∷ rest) =
    let closed = close_all close rest in after_close (close r) r rest closed

abbrev pub shutdown_order : List Resource
shutdown_order = tracer_provider ∷ http_client ∷ redis_client ∷ redis_pool ∷ engine ∷ []

abbrev pub ended : List Resource × Option String → Process → Process
ended (left, exc) p = record p { open_ = left; raised = exc }

-- From `yield` on; requests are served, and the resources are closed.
unfoldable pub serve_and_stop : (Resource → Option String) → Process → Process
unfolding close_all
serve_and_stop close p = ended (close_all close shutdown_order) (record p { served = true })

-- The clients that the start-up opens first.
abbrev pub opened : Process → Process
opened p = record p {
  open_ = tracer_provider ∷ http_client ∷ redis_client ∷ redis_pool ∷ engine ∷ [];
}

-- The start-up: the clients are opened, then the redactor is loaded and the detector warmed up, and only
-- then `app.state` is set. Both of these steps stand before the `try`.
unfoldable pub start : Option String → Option String → Process → Process
start (some exc) warm_up_raises p = record (opened p) { raised = some exc }
start none (some exc) p = record (opened p) { raised = some exc }
start none none p = record (opened p) {
  attributes =
      settings ∷ sessionmaker ∷ redis ∷ providers ∷ token_bucket_script ∷ budget_script
      ∷ pii_redactor ∷ injection_detector ∷ [];
}

abbrev pub continued : (Resource → Option String) → Option String → Process → Process
continued close none p = serve_and_stop close p
continued close (some exc) p = p

unfoldable pub lifespan : Option String → Option String → (Resource → Option String) → Process
unfolding start serve_and_stop
lifespan pii_redactor_raises warm_up_raises close =
    let started = start pii_redactor_raises warm_up_raises created in
    continued close started.raised started

-- What the getters of api/deps.py read.
abbrev pub dependencies : List Attribute
dependencies =
    settings ∷ sessionmaker ∷ redis ∷ providers ∷ token_bucket_script ∷ budget_script ∷ pii_redactor
    ∷ injection_detector ∷ []

-- The worker: `startup` opens two of the resources, and `shutdown` closes them.
abbrev pub worker_shutdown_order : List Resource
worker_shutdown_order = redis_client ∷ engine ∷ []

unfoldable pub worker : (Resource → Option String) → List Resource × Option String
unfolding close_all
worker close = close_all close worker_shutdown_order
