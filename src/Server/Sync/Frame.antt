-- ===== src/Server/Sync/Frame.antt =====
-- The tables before and after syncResources of internal/server/server.go.
use net_bird_audit.Prelude.{List, Option, none, some, refl}
use net_bird_audit.Time.{Time}
use net_bird_audit.Db.Collation.{Collation}
use net_bird_audit.Db.Tables.{Db, NetBirdResource}
use net_bird_audit.Db.Monad.{Result, ok, err}
use net_bird_audit.Db.Queries.{KeepsRecords}
use net_bird_audit.Db.Resources.Frame.{replace_netbird_resources-KeepsRecords}
use net_bird_audit.Db.Resources.{replace_netbird_resources}
use net_bird_audit.Server.Types.{Server}
use net_bird_audit.Server.Sync.{mark_resources, sync_resources}

module _ ⦃c : Collation⦄ where
  mark_resources-KeepsRecords :
      (now : Time) (s : Server) (d : Db) (out : Result (Unit {0}) × Db)
      → KeepsRecords d out.1
      → KeepsRecords d (mark_resources now s out).1.1
  unfolding mark_resources
  mark_resources-KeepsRecords now s d (ok u, e) h = h
  mark_resources-KeepsRecords now s d (err x, e) h = h

  pub sync_resources-KeepsRecords :
      (now : Time) (rs : Option (List NetBirdResource)) (s : Server) (d : Db)
      → KeepsRecords d (sync_resources now rs (s, d)).1.1
  unfolding sync_resources
  sync_resources-KeepsRecords now none s d = refl
  sync_resources-KeepsRecords now (some rs) s d =
      mark_resources-KeepsRecords now s d (replace_netbird_resources rs d)
        (replace_netbird_resources-KeepsRecords rs d)
