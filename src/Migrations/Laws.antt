-- ===== src/Migrations/Laws.antt =====
-- Each migration builds its schema, and its downgrade takes it back.
use aegis_gateway.Prelude.{◌≡◌, refl, ap, ◌∙◌, false, some, List, [], ◌∷◌, String, arith}
use aegis_gateway.Migrations.{Schema, Grant, Object, table}
use aegis_gateway.Migrations.Execution.{
  defines, indexed, referenced, without_table, alter, granted_to, granted_on, revoked,
  without_object, has_role, without_role, execute, run, and_then,
}
use aegis_gateway.Migrations.Versions.{
  Revision, r0001, r0002, r0003, r0004, r0005, down_revision, upgrade, downgrade, upgrade_head,
  downgrade_base,
}
use aegis_gateway.Migrations.Described.{schema_at, schema_before, IsFresh}

-- Each upgrade turns the schema of the revision before into the described one.
upgrade-builds :
    (r : Revision) (s : Schema)
    → IsFresh s
    → run (upgrade r) (schema_before (down_revision r) s) ≡ some (schema_at r s)
unfolding run execute upgrade schema_at defines indexed alter has_role
upgrade-builds r0001 s ((a, (b, (c, (d, _)))), role, _, (i, (j, (k, (l, (m, (n, _))))))) =
    simp
      (
        a.0, b.0, c.0, d.0, a.3, b.3, c.3, d.3, role, i.0, i.1, j.0, j.1, k.0, k.1, l.0, l.1, m.0,
        m.1, n.0, n.1,
      )
      (refl)
upgrade-builds r0002 s h = refl
upgrade-builds r0003 s h = refl
upgrade-builds r0004 s h = refl
upgrade-builds r0005 s ((_, (_, (_, (_, (e, (f, _)))))), _, _, named) =
    let (i, (j, (k, (l, (u, _))))) = named.1.1.1.1.1.1 in
    simp (e.0, f.0, e.3, f.3, i.0, i.1, j.0, j.1, k.0, k.1, l.0, l.1, u.0, u.1) (refl)

-- Filters on the grants, the tables and the roles that were there before.
revoked-absent :
    (role : String) (object : Object) (grants : List Grant)
    → granted_to role grants ≡ false
    → revoked role object grants ≡ grants
unfolding granted_to revoked
revoked-absent role object [] h = refl
revoked-absent role object (g ∷ grants) h = ground (arith, revoked-absent role object grants)

without_object-absent :
    (object : Object) (grants : List Grant)
    → granted_on object grants ≡ false
    → without_object object grants ≡ grants
unfolding granted_on without_object
without_object-absent object [] h = refl
without_object-absent object (g ∷ grants) h = ground (arith, without_object-absent object grants)

without_role-absent :
    (role : String) (roles : List String)
    → has_role role roles ≡ false
    → without_role role roles ≡ roles
unfolding has_role without_role
without_role-absent role [] h = refl
without_role-absent role (r ∷ roles) h = ground (arith, without_role-absent role roles)

downgrade-undoes :
    (r : Revision) (s : Schema)
    → IsFresh s
    → run (downgrade r) (schema_at r s) ≡ some (schema_before (down_revision r) s)
unfolding run execute downgrade schema_at defines alter has_role without_table referenced revoked
    without_object granted_to without_role
downgrade-undoes r0001 s ((a, (b, (c, (d, _)))), role, none_to, _) =
    let gone = λ (o : Object). revoked-absent "aegis_app" o s.grants none_to in
    simp
      (
        gone,
        none_to,
        without_role-absent "aegis_app" s.roles role,
        a.1,
        b.1,
        c.1,
        d.1,
        without_object-absent (table "tenants") s.grants a.2,
        without_object-absent (table "api_keys") s.grants b.2,
        without_object-absent (table "admin_users") s.grants c.2,
        without_object-absent (table "audit_log") s.grants d.2,
      )
      (refl)
downgrade-undoes r0002 s h = refl
downgrade-undoes r0003 s h = refl
downgrade-undoes r0004 s h = refl
downgrade-undoes r0005 s ((_, (_, (_, (_, (e, (f, _)))))), role, none_to, _) =
    let gone = λ (o : Object). revoked-absent "aegis_app" o s.grants none_to in
    simp
      (
        gone,
        e.1,
        f.1,
        without_object-absent (table "usage_records") s.grants e.2,
        without_object-absent (table "usage_rollups") s.grants f.2,
      )
      (refl)

pub upgrade_head_lem : (s : Schema) → IsFresh s → upgrade_head s ≡ some (schema_at r0005 s)
unfolding upgrade_head
upgrade_head_lem s fresh =
    simp
      (
        upgrade-builds r0001 s fresh,
        upgrade-builds r0002 s fresh,
        upgrade-builds r0003 s fresh,
        upgrade-builds r0004 s fresh,
        upgrade-builds r0005 s fresh,
      )
      (refl)

-- On a database that has nothing of the gateway's, every statement of the five upgrades succeeds and
-- they build the schema that is written out; the five downgrades succeed too and give back the
-- database exactly as it was; and each downgrade gives back what its upgrade started from.
pub upgrades_invert :
    (s : Schema) (r : Revision)
    → IsFresh s
    → (upgrade_head s ≡ some (schema_at r0005 s))
      × (and_then downgrade_base (upgrade_head s) ≡ some s)
      × (and_then (run (downgrade r)) (run (upgrade r) (schema_before (down_revision r) s))
          ≡ some (schema_before (down_revision r) s))
unfolding downgrade_base
upgrades_invert s r fresh = (
  upgrade_head_lem s fresh,
  simp
      (
        upgrade_head_lem s fresh,
        downgrade-undoes r0001 s fresh,
        downgrade-undoes r0002 s fresh,
        downgrade-undoes r0003 s fresh,
        downgrade-undoes r0004 s fresh,
        downgrade-undoes r0005 s fresh,
      )
      (refl),
  ap (and_then (run (downgrade r))) (upgrade-builds r s fresh) ∙ downgrade-undoes r s fresh,
)
