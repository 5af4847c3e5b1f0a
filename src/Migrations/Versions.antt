-- ===== src/Migrations/Versions.antt =====
-- The chain of the revisions of alembic/versions.
use aegis_gateway.Prelude.{Option, none, some, List}
use aegis_gateway.Migrations.{Schema, Statement}
use aegis_gateway.Migrations.Execution.{run, and_then}
use aegis_gateway.Migrations.Initial
use aegis_gateway.Migrations.RateLimits
use aegis_gateway.Migrations.SecurityPolicy
use aegis_gateway.Migrations.CacheToggle
use aegis_gateway.Migrations.UsageTracking

pub data Revision : Type 0 where
  r0001 r0002 r0003 r0004 r0005 : Revision

abbrev pub down_revision : Revision → Option Revision
down_revision r0001 = none
down_revision r0002 = some r0001
down_revision r0003 = some r0002
down_revision r0004 = some r0003
down_revision r0005 = some r0004

unfoldable pub upgrade : Revision → List Statement
unfolding Initial.upgrade RateLimits.upgrade SecurityPolicy.upgrade CacheToggle.upgrade
    UsageTracking.upgrade
upgrade r0001 = Initial.upgrade
upgrade r0002 = RateLimits.upgrade
upgrade r0003 = SecurityPolicy.upgrade
upgrade r0004 = CacheToggle.upgrade
upgrade r0005 = UsageTracking.upgrade

unfoldable pub downgrade : Revision → List Statement
unfolding Initial.downgrade RateLimits.downgrade SecurityPolicy.downgrade CacheToggle.downgrade
    UsageTracking.downgrade
downgrade r0001 = Initial.downgrade
downgrade r0002 = RateLimits.downgrade
downgrade r0003 = SecurityPolicy.downgrade
downgrade r0004 = CacheToggle.downgrade
downgrade r0005 = UsageTracking.downgrade

-- `alembic downgrade base`, from the head.
unfoldable pub downgrade_base : Schema → Option Schema
unfolding downgrade run
downgrade_base s = and_then (run (downgrade r0001)) (
    and_then (run (downgrade r0002)) (
      and_then (run (downgrade r0003))
        (and_then (run (downgrade r0004)) (run (downgrade r0005) s))))

-- `alembic upgrade head`, from the base.
unfoldable pub upgrade_head : Schema → Option Schema
unfolding upgrade run
upgrade_head s = and_then (run (upgrade r0005)) (
    and_then (run (upgrade r0004))
      (and_then (run (upgrade r0003)) (and_then (run (upgrade r0002)) (run (upgrade r0001) s))))
