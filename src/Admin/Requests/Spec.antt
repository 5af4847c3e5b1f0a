-- ===== src/Admin/Requests/Spec.antt =====
-- What the admin API promises: a machine on two maps, and that the handlers implement it.
use mathlib.Core.Path.{subst}
use aegis_gateway.Prelude.{
  Bool, true, false, List, [], ◌∷◌, ◌≡◌, refl, sym, ◌∙◌, if◌then◌else◌, arith,
}
use aegis_gateway.Admin.{Plane, Tools, By}
use aegis_gateway.Admin.Requests.{Request, handle, run, verdicts, Registry, view, effect}
use aegis_gateway.Admin.Requests.Steps.{handle-Step}
use aegis_gateway.Admin.Requests.Refinement.{step_refines}
use aegis_gateway.Admin.Requests.Success.{handle_succeeds}
use aegis_gateway.Admin.Requests.Invariant.{IsValid, step-IsValid, requests-IsValid}
use aegis_gateway.Admin.Requests.Allowed.{Allowed, permitted-Allowed, Allowed-permitted}

-- One request: it succeeds with its effect if it is allowed, and else fails with none.
pub data Answers (tools : Tools) (by : By) (request : Request) (r : Registry)
    : Bool → Registry → Type 0 where
  accepted : Allowed by request r → Answers tools by request r true (effect tools request r)
  rejected : ¬ Allowed by request r → Answers tools by request r false r

-- A run of the machine, with the verdict on each request.
pub data Runs (tools : Tools) : List (By × Request) → List Bool → Registry → Registry → Type 0 where
  ended : (r : Registry) → Runs tools [] [] r r
  next :
      (by : By) (request : Request) (requests : List (By × Request)) (ok : Bool) (oks : List Bool)
      (r r' r'' : Registry)
      → Answers tools by request r ok r'
      → Runs tools requests oks r' r''
      → Runs tools ((by, request) ∷ requests) (ok ∷ oks) r r''

module _ (tools : Tools) where
  answers_of :
      (by : By) (request : Request) (r r' : Registry) (ok : Bool)
      → (ok ≡ true → Allowed by request r)
      → (Allowed by request r → ok ≡ true)
      → r' ≡ (if ok then effect tools request r else r)
      → Answers tools by request r ok r'
  answers_of by request r r' true sound complete e =
      subst (λ s. Answers tools by request r true s) (sym e) (accepted (sound refl))
  answers_of by request r r' false sound complete e =
      subst (λ s. Answers tools by request r false s) (sym e)
        (rejected (λ a. absurd (ground (arith, complete a))))

  handle-Answers :
      (by : By) (request : Request) (p : Plane)
      → IsValid p
      → Answers tools by request
          (view p)
          (handle tools (by, request) p).1
          (view (handle tools (by, request) p).0)
  handle-Answers by request p v =
      let verdict = handle_succeeds tools by p request in
      let (_, after) =
        step_refines tools by p request (handle tools (by, request) p) v.keys
          (handle-Step tools by p request) in
      answers_of by request (view p) (view (handle tools (by, request) p).0)
        (handle tools (by, request) p).1 (λ ok. permitted-Allowed by p v request (sym verdict ∙ ok))
        (λ a. verdict ∙ Allowed-permitted by p v request a) after

  run-Runs :
      (requests : List (By × Request)) (p : Plane)
      → IsValid p
      → Runs tools requests (verdicts tools requests p) (view p) (view (run tools requests p))
  unfolding run verdicts
  run-Runs [] p v = ended (view p)
  run-Runs ((by, request) ∷ requests) p v =
      next by request requests _ _ (view p) (view (handle tools (by, request) p).0) _
        (handle-Answers by request p v)
        (run-Runs requests (handle tools (by, request) p).0 (
          step-IsValid tools by p request (handle tools (by, request) p) v
            (handle-Step tools by p request)))

  -- On consistent tables (distinct tenant ids, tenant names and key ids, and for every key a tenant that
  -- owns it), any sequence of requests to the handlers is a run of the machine on the two maps, tenants by
  -- id and keys by key id: each request succeeds, with its effect, exactly if the maps allow it and, where
  -- it records an event, its correlation id has at most 64 characters; it has no effect otherwise. The
  -- sequence leaves the tables consistent.
  pub run_refines :
      (requests : List (By × Request)) (p : Plane)
      → IsValid p
      → Runs tools requests (verdicts tools requests p) (view p) (view (run tools requests p))
        × IsValid (run tools requests p)
  run_refines requests p v = (run-Runs requests p v, requests-IsValid tools requests p v)
