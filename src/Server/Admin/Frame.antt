-- ===== src/Server/Admin/Frame.antt =====
-- The records before and after the handlers of internal/server/server.go that change the audited
-- resources.
use net_bird_audit.Prelude.{
  Text, codes, List, [], Option, none, some, ◌++◌, ◌==◌, text_eq, refl, inl, inr, Bool-cases,
}
use net_bird_audit.Time.{Time}
use net_bird_audit.Text.{trim_space, to_lower}
use net_bird_audit.Db.Collation.{Collation}
use net_bird_audit.Db.Tables.{Db, NetBirdResource}
use net_bird_audit.Db.Monad.{Result, ok, err, statement, answer, Result-cases}
use net_bird_audit.Db.Audit.{log_admin_audit}
use net_bird_audit.Db.Queries.{KeepsRecords, KeepsRecords-trans}
use net_bird_audit.Db.Resources.{enable_audit}
use net_bird_audit.Db.Resources
use net_bird_audit.Db.Resources.Frame.{enable_audit-KeepsRecords}
use net_bird_audit.Db.Resources.Frame
use net_bird_audit.Server.Types.{Server, World, Request}
use net_bird_audit.Server.Sync.{SyncError, sync_resources}
use net_bird_audit.Server.Sync.Frame.{sync_resources-KeepsRecords}
use net_bird_audit.Server.Admin.{
  post_only, audited_action, or_default, enabled, synced, parse_int64, print_int, enable_resource,
  delete_resource, sync_resources_handler,
}

log_admin_audit-KeepsRecords :
    (now : Time) (user action detail remote : Text) (d : Db)
    → KeepsRecords d (log_admin_audit now user action detail remote d).1
unfolding log_admin_audit statement
log_admin_audit-KeepsRecords now user action detail remote d =
    elim (Result-cases (answer d.outcomes)) [ inl good ↦ rw good refl | inr (e, bad) ↦ rw bad refl ]

audited_action-KeepsRecords :
    (t : Time) (action detail : Text) (r : Request) (s : Server) (d e : Db)
    → KeepsRecords d e
    → KeepsRecords d (audited_action t action detail r s e).1.1
unfolding audited_action
audited_action-KeepsRecords t action detail r s d e h =
    KeepsRecords-trans d e _ h (log_admin_audit-KeepsRecords t _ action detail _ e)

pub delete_resource-KeepsRecords :
    (t : Time) (r : Request) (s : Server) (d : Db) → KeepsRecords d (delete_resource t r (s, d)).1.1
unfolding delete_resource post_only
delete_resource-KeepsRecords t r s d =
    let id = parse_int64 (r.form (codes "id")) in
    elim (Bool-cases (r.method == codes "POST")) [
      | inr other ↦ rw other refl
      | inl post ↦ rw post (
          audited_action-KeepsRecords t (codes "resource_audit_disable") (print_int id) r s d
            (Resources.delete_resource id d).1 (Frame.delete_resource-KeepsRecords id d))
    ]

module _ ⦃c : Collation⦄ where
  enabled-KeepsRecords :
      (t : Time) (detail : Text) (r : Request) (s : Server) (d : Db) (out : Result (Unit {0}) × Db)
      → KeepsRecords d out.1
      → KeepsRecords d (enabled t detail r s out).1.1
  unfolding enabled
  enabled-KeepsRecords t detail r s d (ok u, e) h =
      audited_action-KeepsRecords t (codes "resource_audit_enable") detail r s d e h
  enabled-KeepsRecords t detail r s d (err x, e) h = h

  pub enable_resource-KeepsRecords :
      (t : Time) (r : Request) (s : Server) (d : Db)
      → KeepsRecords d (enable_resource t r (s, d)).1.1
  unfolding enable_resource post_only
  enable_resource-KeepsRecords t r s d =
      let id = r.form (codes "netbird_id") in
      let proto = or_default (to_lower (trim_space (r.form (codes "protocol")))) (codes "tcp") in
      let ports = or_default (trim_space (r.form (codes "ports"))) (codes "*") in
      elim (Bool-cases (r.method == codes "POST")) [
        | inr other ↦ rw other refl
        | inl post ↦ rw post (
            enabled-KeepsRecords t (id ++ codes " " ++ proto ++ codes "/" ++ ports) r s d
              (enable_audit id proto ports d) (enable_audit-KeepsRecords id proto ports d))
      ]

  synced-KeepsRecords :
      (t : Time) (r : Request) (d : Db) (out : Option SyncError × World)
      → KeepsRecords d out.1.1
      → KeepsRecords d (synced t r out).1.1
  unfolding synced
  synced-KeepsRecords t r d (some x, (s, e)) h = h
  synced-KeepsRecords t r d (none, (s, e)) h =
      audited_action-KeepsRecords t (codes "netbird_resources_sync") [] r s d e h

  pub sync_resources_handler-KeepsRecords :
      (now t : Time) (rs : Option (List NetBirdResource)) (r : Request) (s : Server) (d : Db)
      → KeepsRecords d (sync_resources_handler now t rs r (s, d)).1.1
  unfolding sync_resources_handler post_only
  sync_resources_handler-KeepsRecords now t rs r s d =
      elim (Bool-cases (r.method == codes "POST")) [
        | inr other ↦ rw other refl
        | inl post ↦ rw post (
            synced-KeepsRecords t r d (sync_resources now rs (s, d))
              (sync_resources-KeepsRecords now rs s d))
      ]
