-- ===== src/Server/Admin.antt =====
-- The handlers of internal/server/server.go that change the audited resources.
pub mod Laws
pub mod Frame
pub mod Numbers
use net_bird_audit.Prelude.{
  ℕ, ◌+◌, ◌-◌, ◌^◌, Text, codes, Bool, true, false, not, List, [], ◌∷◌, ◌++◌, Option, none, some,
  if◌then◌else◌, ◌==◌, text_eq, nat_eq, ltb, leb,
}
use net_bird_audit.Prelude.Int.{ℤ, pos, negsuc, minus}
use net_bird_audit.Time.{Time}
use net_bird_audit.Text.{trim_space, to_lower}
use net_bird_audit.Text.Decimal.{print}
use net_bird_audit.Text.Decimal.Scan.{scan, starts_digit}
use net_bird_audit.Db.Collation.{Collation}
use net_bird_audit.Db.Tables.{Db, NetBirdResource}
use net_bird_audit.Db.Monad.{Result, ok, err, DbError}
use net_bird_audit.Db.Audit.{log_admin_audit}
use net_bird_audit.Db.Resources.{enable_audit}
use net_bird_audit.Db.Resources
use net_bird_audit.Server.Types.{
  Server, World, Request, Response, Handler, http_error, redirect, message, failure,
  netbird_failure,
}
use net_bird_audit.Server.RateLimit.{client_ip}
use net_bird_audit.Server.Sync.{SyncError, netbird_error, db_error, sync_resources}

post_only : Handler → Handler
post_only next r w =
    if r.method == codes "POST" then next r w else (http_error (message (codes "method")) 405, w)

-- The end of a handler: the entry in the audit table and the way back to the page.
audited_action : Time → Text → Text → Request → Server → Db → Response × World
audited_action db_time action detail r s d = (
  redirect (codes "/resources") [],
  (s, (log_admin_audit db_time s.cfg.admin_user action detail (client_ip r.remote_addr) d).1),
)

pub or_default : Text → Text → Text
or_default s fallback = if s == [] then fallback else s

enabled : Time → Text → Request → Server → Result (Unit {0}) × Db → Response × World
enabled db_time detail r s (ok u, d) =
    audited_action db_time (codes "resource_audit_enable") detail r s d
enabled db_time detail r s (err e, d) = (http_error (failure e) 400, (s, d))

-- The number that digits and nothing else stand for.
read_digits : Text → Option ℕ
read_digits s =
    let (n, rest) = scan s 0 in
    if starts_digit s then (if rest == [] then some n else none) else none

-- The sign bounds the range: a number outside of it is the nearest one in it.
signed : Bool → Option ℕ → ℤ
signed negative none = pos 0
signed false (some n) = if ltb n (2 ^ 63) then pos n else pos (2 ^ 63 - 1)
signed true (some n) = if leb n (2 ^ 63) then minus n else minus (2 ^ 63)

-- strconv.ParseInt(s, 10, 64) with the error dropped: 0 for what is no number.
unfoldable pub parse_int64 : Text → ℤ
unfolding read_digits signed
parse_int64 [] = pos 0
parse_int64 (c ∷ s) =
    if c == b'-'
    then signed true (read_digits s)
    else if c == b'+'
    then signed false (read_digits s)
    else signed false (read_digits (c ∷ s))

unfoldable pub print_int : ℤ → Text
print_int (pos n) = print n
print_int (negsuc n) = b'-' ∷ print (n + 1)

-- deleteResource; an error of the DELETE is dropped.
unfoldable pub delete_resource : Time → Handler
unfolding post_only audited_action
delete_resource db_time = post_only (λ r (s, d).
    let id = parse_int64 (r.form (codes "id")) in
    audited_action db_time (codes "resource_audit_disable") (print_int id) r s
      (Resources.delete_resource id d).1)

sync_failed : SyncError → Response
sync_failed netbird_error = http_error netbird_failure 502
sync_failed (db_error e) = http_error (failure e) 502

synced : Time → Request → Option SyncError × World → Response × World
synced db_time r (some e, w) = (sync_failed e, w)
synced db_time r (none, (s, d)) = audited_action db_time (codes "netbird_resources_sync") [] r s d

module _ ⦃c : Collation⦄ where
  unfoldable pub enable_resource : Time → Handler
  unfolding post_only audited_action or_default enabled
  enable_resource db_time = post_only (λ r (s, d).
      let id = r.form (codes "netbird_id") in
      let proto = or_default (to_lower (trim_space (r.form (codes "protocol")))) (codes "tcp") in
      let ports = or_default (trim_space (r.form (codes "ports"))) (codes "*") in
      enabled db_time (id ++ codes " " ++ proto ++ codes "/" ++ ports) r s
        (enable_audit id proto ports d))

  -- syncResourcesHandler; `resources` is what the NetBird client returns.
  unfoldable pub sync_resources_handler : Time → Time → Option (List NetBirdResource) → Handler
  unfolding post_only audited_action sync_failed synced
  sync_resources_handler now db_time resources =
      post_only (λ r w. synced db_time r (sync_resources now resources w))
