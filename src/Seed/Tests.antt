-- ===== src/Seed/Tests.antt =====
-- A seeded, empty database.
use aegis_gateway.Prelude.{String, [], refl}
use aegis_gateway.CodePoints.{lstrip}
use aegis_gateway.Authentication.{full_key}
use aegis_gateway.Scenario.{trail}
use aegis_gateway.Admin.{Plane}
use aegis_gateway.Admin.Tenants.{id_taken, name_taken}
use aegis_gateway.Admin.Keys.{key_taken}
use aegis_gateway.Admin.Tests.{key_id, secret_part, tools}
use aegis_gateway.Admin.Tests.Access.{settings, libraries, libraries-IsJwt}
use aegis_gateway.Seed.{Drawn, account_taken, seed}
use aegis_gateway.Seed.Laws.{IsSeeded, seed-IsSeeded}

abbrev empty : Plane
empty = record { db = trail.db; tenants = []; api_keys = [] }

abbrev drawn : Drawn
drawn = record {
  tenant_id = "t1";
  admin_id = "u1";
  key_id = key_id;
  secret_part = secret_part;
  now = 1;
}

abbrev hash_password : String → String
hash_password s = "hash"

seed-IsSeeded_example :
    IsSeeded tools libraries settings hash_password drawn "Demo" "a@b.org" "pw" empty [] 5 trail.db
      (seed tools hash_password drawn "Demo" "a@b.org" "pw" (empty, []))
unfolding id_taken name_taken key_taken account_taken lstrip full_key
seed-IsSeeded_example =
    seed-IsSeeded tools libraries settings hash_password drawn "Demo" "a@b.org" "pw" empty [] 5
      trail.db refl refl refl refl
      (record { no_dot = (refl, (refl, tt)); id_given = refl; secret_given = refl; trimmed = refl })
      refl refl refl libraries-IsJwt
