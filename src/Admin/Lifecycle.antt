-- ===== src/Admin/Lifecycle.antt =====
-- A key's life: src/aegis_gateway/api/admin.py issues and revokes keys, middleware/auth.py accepts them, on the
-- same tables, in requests that come one after the other.
pub mod Revoked
pub mod Live
pub mod Issued
pub mod Generated
pub mod Tests
use aegis_gateway.Prelude.{ℕ, String, Option, none, some, List, [], ◌∷◌, ◌++◌}
use aegis_gateway.Authentication.{Accounts, Outcome, get_current_tenant}
use aegis_gateway.Admin.{Plane, Tools, By, find_tenant}
use aegis_gateway.Admin.Requests.{Request, handle}

-- `get_current_tenant` on the tables of the plane.
unfoldable pub authenticate : Tools → ℕ → Option String → List ℕ → Plane → Plane × Outcome
authenticate tools now correlation_id auth_header p =
    let (accounts, outcome) =
      get_current_tenant tools.hash_api_key_secret (λ id. find_tenant id p.tenants)
        tools.print_key_id now correlation_id auth_header
        (record { db = p.db; api_keys = p.api_keys }) in
    (record p { db = accounts.db; api_keys = accounts.api_keys }, outcome)

-- A request to the admin API that changes the accounts, or one to the proxy, at a time.
pub data Event : Type 0 where
  administer : By → Request → Event
  arrive : ℕ → Option String → List ℕ → Event

unfoldable pub serve : Tools → Event → Plane → Plane
serve tools (administer by request) p = (handle tools (by, request) p).0
serve tools (arrive now correlation_id auth_header) p =
    (authenticate tools now correlation_id auth_header p).0

unfoldable pub serve_all : Tools → List Event → Plane → Plane
serve_all tools [] p = p
serve_all tools (event ∷ events) p = serve_all tools events (serve tools event p)

-- What a client sends that has the key.
abbrev pub bearer_header : List ℕ → List ℕ
bearer_header key = b'B' ∷ b'e' ∷ b'a' ∷ b'r' ∷ b'e' ∷ b'r' ∷ b' ' ∷ key
