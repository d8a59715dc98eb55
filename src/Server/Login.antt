-- ===== src/Server/Login.antt =====
-- login and logout of internal/server/server.go.
pub mod Laws
pub mod Frame
use net_bird_audit.Prelude.{
  ℕ, Text, codes, Bool, true, false, not, ◌&&◌, ◌||◌, List, [], ◌∷◌, Option, none, some,
  if◌then◌else◌, ◌==◌, text_eq,
}
use net_bird_audit.Prelude.Int.{pos, negsuc}
use net_bird_audit.Time.{Time}
use net_bird_audit.Crypto.Hex.{hex}
use net_bird_audit.Auth.Sessions.{SessionStore, new, delete}
use net_bird_audit.Auth.Totp.{verify_password, validate_totp}
use net_bird_audit.Db.Tables.{Db}
use net_bird_audit.Db.Audit.{log_admin_audit}
use net_bird_audit.Server.Types.{
  Config, Server, World, Request, Response, Cookie, Handler, http_error, redirect, message,
  login_page,
}
use net_bird_audit.Server.RateLimit.{client_ip, rate_ok, fail}

-- What a login reads from outside: the clock at rateOK, at ValidateTOTP, and at fail or New; NOW(6)
-- of the database; and the random bytes, where those of the session may fail.
pub record Surroundings : Type 0 where
  pub limit_time : Time
  pub code_time : Time
  pub record_time : Time
  pub db_time : Time
  pub token_bytes : Option Text
  pub csrf_bytes : Text

pub session_cookie : Config → Text → Cookie
session_cookie cfg token = record {
  name = codes "nba_session";
  value = token;
  http_only = true;
  secure = cfg.secure_cookie;
  same_site_strict = true;
  max_age = pos 28800;
}

pub csrf_cookie : Config → Text → Cookie
csrf_cookie cfg token = record {
  name = codes "nba_csrf";
  value = token;
  http_only = false;
  secure = cfg.secure_cookie;
  same_site_strict = true;
  max_age = pos 28800;
}

-- `compare` is the bcrypt comparison.
unfoldable pub credentials_ok : (Text → Text → Bool) → Config → Time → Request → Bool
credentials_ok compare cfg now r =
    r.form (codes "username") == cfg.admin_user
    && verify_password compare cfg.admin_hash (r.form (codes "password"))
    && validate_totp cfg.totp_secret (r.form (codes "totp")) now

refuse : Surroundings → Text → Handler
refuse out ip r (s, d) = (
  http_error (message (codes "invalid credentials")) 401,
  (
    record s { failures = fail ip out.record_time s.failures },
    (log_admin_audit out.db_time (r.form (codes "username")) (codes "login_failed") [] ip d).1,
  ),
)

admit : Surroundings → Text → Server → Db → Option Text × SessionStore → Response × World
admit out ip s d (none, store) =
    (http_error (message (codes "session error")) 500, (record s { sessions = store }, d))
admit out ip s d (some token, store) = (
  redirect (codes "/") (session_cookie s.cfg token ∷ csrf_cookie s.cfg (hex out.csrf_bytes) ∷ []),
  (
    record s { sessions = store },
    (log_admin_audit out.db_time s.cfg.admin_user (codes "login_success") [] ip d).1,
  ),
)

-- What follows the test of the limit.
try_credentials : (Text → Text → Bool) → Surroundings → Text → Handler
try_credentials compare out ip r (s, d) =
    if credentials_ok compare s.cfg out.code_time r
    then admit out ip s d (new out.token_bytes out.record_time s.sessions)
    else refuse out ip r (s, d)

limited : (Text → Text → Bool) → Surroundings → Text → Handler
limited compare out ip r (s, d) =
    let (ok, failures) = rate_ok ip out.limit_time s.failures in
    let t = record s { failures = failures } in
    if ok
    then try_credentials compare out ip r (t, d)
    else (http_error (message (codes "too many failed attempts")) 429, (t, d))

unfoldable pub login : (Text → Text → Bool) → Surroundings → Handler
unfolding session_cookie csrf_cookie refuse admit try_credentials limited
login compare out r (s, d) =
    if r.method == codes "GET"
    then (record { status = 200; location = none; cookies = []; body = login_page }, (s, d))
    else limited compare out (client_ip r.remote_addr) r (s, d)

expired : Text → Cookie
expired name = record {
  name = name;
  value = [];
  http_only = false;
  secure = false;
  same_site_strict = false;
  max_age = negsuc 0;
}

forget : Option Text → SessionStore → SessionStore
forget none store = store
forget (some token) store = delete token store

unfoldable pub logout : Handler
unfolding expired forget
logout r (s, d) = (
  redirect (codes "/login") (expired (codes "nba_session") ∷ expired (codes "nba_csrf") ∷ []),
  (record s { sessions = forget (r.cookie (codes "nba_session")) s.sessions }, d),
)
