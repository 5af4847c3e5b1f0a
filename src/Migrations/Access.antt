-- ===== src/Migrations/Access.antt =====
-- What the application's role may do, and which rows it sees, in the schema that the migrations build.
use aegis_gateway.Prelude.{
  ◌≡◌, refl, true, false, ◌&&◌, ◌||◌, some, List, [], ◌∷◌, String, Bool, arith, ◌≟◌, All,
}
use aegis_gateway.Migrations.{
  Privilege, select, insert, update, delete, connect, usage, table, Grant, Schema,
}
use aegis_gateway.Migrations.Execution.{granted_to, same_object}
use aegis_gateway.Migrations.Common.{app_role}
use aegis_gateway.Migrations.Versions.{r0005, upgrade_head}
use aegis_gateway.Migrations.Described.{schema_at, IsFresh}
use aegis_gateway.Migrations.Laws.{upgrade_head_lem}

abbrev pub same_privilege : Privilege → Privilege → Bool
same_privilege select select = true
same_privilege insert insert = true
same_privilege update update = true
same_privilege delete delete = true
same_privilege connect connect = true
same_privilege usage usage = true
same_privilege _ _ = false

abbrev pub includes : Privilege → List Privilege → Bool
includes p [] = false
includes p (q ∷ privileges) = same_privilege p q || includes p privileges

-- The role holds the privilege on the table.
unfoldable pub may : String → Privilege → String → List Grant → Bool
may role p name [] = false
may role p name (g ∷ grants) =
    (g.role ≟ role && same_object g.object (table name) && includes p g.privileges)
    || may role p name grants

pub may-absent :
    (role : String) (p : Privilege) (name : String) (grants : List Grant)
    → granted_to role grants ≡ false
    → may role p name grants ≡ false
unfolding may granted_to
may-absent role p name [] h = refl
may-absent role p name (g ∷ grants) h = ground (arith, may-absent role p name grants)

-- The statements that the gateway, its worker and its admin API issue, by table.
abbrev pub issued : List (String × Privilege)
issued =
    ("tenants", select)
    ∷ ("tenants", insert)
    ∷ ("tenants", update)
    ∷ ("api_keys", select)
    ∷ ("api_keys", insert)
    ∷ ("api_keys", update)
    ∷ ("admin_users", select)
    ∷ ("audit_log", select)
    ∷ ("audit_log", insert)
    ∷ ("usage_records", select)
    ∷ ("usage_records", insert)
    ∷ ("usage_rollups", select)
    ∷ ("usage_rollups", insert)
    ∷ ("usage_rollups", update)
    ∷ []

-- In the schema at the head the application's role may do everything that the code issues. It may
-- delete from no table whatever, it cannot create an admin, and the audit log and the usage records
-- are append-only for it.
pub least_privilege :
    (s t : Schema) (name : String)
    → IsFresh s
    → upgrade_head s ≡ some t
    → All (λ (n, p). may app_role p n t.grants ≡ true) issued
      × (may app_role delete name t.grants ≡ false)
      × (may app_role insert "admin_users" t.grants ≡ false)
      × (may app_role update "audit_log" t.grants ≡ false)
      × (may app_role update "usage_records" t.grants ≡ false)
unfolding may schema_at
least_privilege s t name fresh built =
    let is_head : t ≡ schema_at r0005 s = cc (upgrade_head_lem s fresh) in
    let none_to = λ (p : Privilege) (n : String). may-absent app_role p n s.grants fresh.2 in
    rw is_head (
      (
        (
          refl,
          (
            refl,
            (
              refl,
              (
                refl,
                (refl, (refl, (refl, (refl, (refl, (refl, (refl, (refl, (refl, (refl, tt)))))))))),
              ),
            ),
          ),
        ),
        ground (arith, none_to delete name),
        simp none_to (refl),
        simp none_to (refl),
        simp none_to (refl),
      ))
