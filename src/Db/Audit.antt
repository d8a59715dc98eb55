-- ===== src/Db/Audit.antt =====
-- AdminAudit of internal/db/db.go.
use net_bird_audit.Prelude.{Text, [], ◌∷◌, ◌++◌}
use net_bird_audit.Time.{Time}
use net_bird_audit.Db.Tables.{AuditRow}
use net_bird_audit.Db.Monad.{M, ◌>>◌, modify, statement, ignore_error}

audit_row : Time → Text → Text → Text → Text → AuditRow
audit_row now user action detail remote = record {
  occurred_at = now;
  admin_user = user;
  action = action;
  detail = detail;
  remote_ip = remote;
}

-- AdminAudit: `now` is the time of NOW(6), and an error is dropped.
unfoldable pub log_admin_audit : Time → Text → Text → Text → Text → M Unit
unfolding audit_row
log_admin_audit now user action detail remote = ignore_error (do
  statement
  modify (λ s. record s {
    admin_audit = s.admin_audit ++ audit_row now user action detail remote ∷ [];
  }))
