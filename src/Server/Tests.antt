-- ===== src/Server/Tests.antt =====
-- Runs of the login and its limit, and the theorems at concrete inputs.
pub mod Routes
pub mod Polls
pub mod Views
pub mod System
use net_bird_audit.Prelude.{
  ℕ, ◌+◌, ◌*◌, ◌^◌, ◌≤◌, ◌<◌, ◌≡◌, ◌≢◌, ◌⊎◌, inl, inr, refl, codes, Text, Bool, true, false, [],
  ◌∷◌, ◌++◌, Option, none, some, arith, List, if◌then◌else◌, In, length, keep, ltb, ◌==◌, text_eq,
  text_beq,
}
use net_bird_audit.Prelude.Int.{pos, negsuc}
use net_bird_audit.Time.{Time, second, hour, minute, unix_epoch, unix_half_minutes}
use net_bird_audit.GoMap
use net_bird_audit.Text.{trim_space, to_lower, to_upper, last_index}
use net_bird_audit.Text.Decimal.{print, print_padded}
use net_bird_audit.Crypto.Hex.{hex}
use net_bird_audit.Auth.Sessions.{SessionStore, new_session_store, new, valid}
use net_bird_audit.Crypto.Base32
use net_bird_audit.Crypto.Sha1.{big_endian}
use net_bird_audit.Crypto.Hmac.{hmac_sha1}
use net_bird_audit.Auth.Totp.Window.{validate_totp-drift}
use net_bird_audit.Auth.Totp.{verify_password, validate_totp, totp_code, truncate}
use net_bird_audit.Db.Collation.{Collation, binary, byte_le, same}
use net_bird_audit.Db.Tables.{Db, User, Peer, NetBirdResource, FlowRow, empty_db}
use net_bird_audit.Db.Query.{find, any}
use net_bird_audit.Db.Query.Keyed.{IsUnique}
use net_bird_audit.Db.Monad.{Result, ok, err, statement, answer, answers_left}
use net_bird_audit.Db.Audit.{log_admin_audit}
use net_bird_audit.Db.VpnSessions.Invariant.{IsValid, open_count}
use net_bird_audit.Db.Resources.{netbird_row, enable_audit, add_resource, normalize_audit_cidr}
use net_bird_audit.Db.Resources.Enable.{Enables}
use net_bird_audit.Db.Flows.Rows.{key_of, flow_at, Continues}
use net_bird_audit.Netip.{parse_addr, parse_prefix}
use net_bird_audit.Server.Types.{Config, Server, World, Request, Response, Handler}
use net_bird_audit.Server.RateLimit.{Failures, client_ip, split_host, rate_ok, recent, failures_of}
use net_bird_audit.Server.RateLimit.Laws.{Event, attempt, failure, run, failures_in, rate_ok-run}
use net_bird_audit.Server.Login.{Surroundings, login, credentials_ok, session_cookie}
use net_bird_audit.Server.Login.Laws.{
  Admits, Opens, login-cases, login-opens_session, login-locked_out,
}
use net_bird_audit.Server.Access.{require_auth, needs_csrf, csrf_ok}
use net_bird_audit.Server.Access.Laws.{Admitted, HasCsrf, TurnedAway, require_auth-cases}
use net_bird_audit.Server.Sync.{sync}
use net_bird_audit.Server.Sync.Laws.{sync-IsValid, sync-open_count}
use net_bird_audit.Server.Admin.{enable_resource, parse_int64, print_int}
use net_bird_audit.Server.Admin.Laws.{
  Action, enabling, action_handler, action_handler-guarded, enable_resource-Enables, protocol_of,
  ports_of,
}
use net_bird_audit.Server.Admin.Numbers.{parse_int64-print_int}
use net_bird_audit.Server.SensorApi.{SensorFlow, sensor_flows}
use net_bird_audit.Server.SensorApi.Laws.{
  Accepts, Refuses, sensor_flows-cases, sensor_flows-Continues, sensor_flows-IsUnique,
}
use net_bird_audit.Server.Format.{human_bytes, unit_letter}
use net_bird_audit.Server.Format.Laws.{unit_size, human_bytes-unit}

instance abbrev pub binary_collation : Collation
binary_collation = binary

ip4 : client_ip (codes "10.0.0.7:51234") ≡ codes "10.0.0.7"
unfolding client_ip split_host last_index
ip4 = refl

ip6 : client_ip (codes "[fe80::1%wt0]:51234") ≡ codes "fe80::1%wt0"
unfolding client_ip split_host last_index
ip6 = refl

no_port : client_ip (codes "fe80::1") ≡ codes "fe80::1"
unfolding client_ip split_host last_index
no_port = refl

abbrev here : Text
here = codes "10.0.0.7"

abbrev eight : List Event
eight =
    failure here 100
    ∷ failure here 101
    ∷ failure here 102
    ∷ failure here 103
    ∷ attempt here 104
    ∷ failure here 105
    ∷ failure here 106
    ∷ failure here 107
    ∷ failure here 108
    ∷ []

rate_ok-run_example :
    (rate_ok here 200 (run eight GoMap.empty)).0
    ≡ ltb (length (keep (recent 200) (failures_in here eight))) 8
rate_ok-run_example = rate_ok-run here 200 eight (omega arith)

abbrev cfg : Config
cfg = record {
  listen = [];
  sensor_listen = [];
  cert_file = [];
  key_file = [];
  admin_user = codes "admin";
  admin_hash = codes "hash";
  totp_secret = codes "GEZDGNBVGY3TQOJQGEZDGNBVGY3TQOJQ";
  sensor_key = codes "key";
  secure_cookie = true;
  poll_interval = pos (10 * second);
}

abbrev fresh : Server
fresh = record {
  cfg = cfg;
  sessions = new_session_store (pos (8 * hour));
  failures = GoMap.empty;
  last_netbird_sync = 0;
  last_resource_sync = 0;
  last_sensor_seen = 0;
  sensor_interface = [];
}

abbrev always : Text → Text → Bool
always hash password = true

login_form : Text → Text
login_form name =
    if name == codes "username"
    then codes "admin"
    else if name == codes "totp"
    then codes "287082"
    else []

abbrev login_request : Request
login_request = record {
  method = codes "POST";
  remote_addr = codes "10.0.0.7:51234";
  cookie = λ name. none;
  form = login_form;
  header = λ name. [];
}

abbrev start : Time
start = (unix_epoch + 59) * second

abbrev pub surroundings : Surroundings
surroundings = record {
  limit_time = start;
  code_time = start;
  record_time = start;
  db_time = start;
  token_bytes = some (1 ∷ 171 ∷ []);
  csrf_bytes = 7 ∷ [];
}

secret_key :
    Base32.decode (to_upper (trim_space cfg.totp_secret)) ≡ some (codes "12345678901234567890")
unfolding Base32.decode to_upper trim_space
secret_key = refl

code_at_start : totp_code cfg.totp_secret start ≡ some (codes "287082")
unfolding totp_code Base32.decode to_upper trim_space truncate hmac_sha1 big_endian
    unix_half_minutes print_padded
code_at_start = refl

code_accepted : validate_totp cfg.totp_secret (codes "287082") start ≡ true
code_accepted =
    validate_totp-drift cfg.totp_secret (codes "12345678901234567890") start start (codes "287082")
      secret_key (omega arith) (omega arith) (omega arith) code_at_start

right_credentials : credentials_ok always cfg start login_request ≡ true
unfolding credentials_ok text_beq login_form verify_password
right_credentials = code_accepted

login_done : (login always surroundings login_request (fresh, empty_db)).0.status ≡ 303
unfolding login text_beq rate_ok failures_of GoMap.lookup GoMap.empty new
login_done = rw right_credentials refl

not_get : codes "POST" ≢ codes "GET"
not_get e = cc

login-cases_example :
    ((b : Text) × Admits always surroundings login_request fresh empty_db b
      × Opens always surroundings login_request fresh empty_db b)
    ⊎ ((b : Text) → ¬ Admits always surroundings login_request fresh empty_db b)
      × ((login always surroundings login_request (fresh, empty_db)).0.status ≢ 303)
      × ((login always surroundings login_request (fresh, empty_db)).1.0.sessions ≡ fresh.sessions)
login-cases_example = login-cases always surroundings login_request fresh empty_db

login-opens_session_example :
    (token : Text) × In
      (session_cookie cfg token)
      (login always surroundings login_request (fresh, empty_db)).0.cookies
    × ((valid token
          (start + hour)
          (start + hour)
          (login always surroundings login_request (fresh, empty_db)).1.0.sessions).0
        ≡ true)
unfolding new_session_store
login-opens_session_example =
    login-opens_session always surroundings login_request fresh empty_db (8 * hour) (start + hour)
      (start + hour) refl login_done (omega arith)

abbrev hasty : Server
hasty = record fresh { failures = run eight GoMap.empty }

abbrev early : Surroundings
early = record surroundings { limit_time = 200 }

eight_failures :
    length
      (keep (recent early.limit_time) (failures_in (client_ip login_request.remote_addr) eight))
    ≡ 8
unfolding failures_in text_beq client_ip split_host last_index
eight_failures = refl

login-locked_out_example :
    ((login always early login_request (hasty, empty_db)).0.status ≡ 429)
    × ((login always early login_request (hasty, empty_db)).1.0.sessions ≡ hasty.sessions)
    × ((login always early login_request (hasty, empty_db)).1.1 ≡ empty_db)
login-locked_out_example =
    login-locked_out always early login_request hasty empty_db eight refl (omega arith) not_get
      (omega (arith, eight_failures))
