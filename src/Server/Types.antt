-- ===== src/Server/Types.antt =====
-- The configuration and the state of internal/server/server.go, and what its handlers take and
-- answer.
use net_bird_audit.Prelude.{ℕ, Text, Bool, List, Option, none, some, []}
use net_bird_audit.Prelude.Int.{ℤ}
use net_bird_audit.Time.{Time, Duration}
use net_bird_audit.GoMap.{GoMap}
use net_bird_audit.Auth.Sessions.{SessionStore}
use net_bird_audit.Db.Tables.{Db}
use net_bird_audit.Server.PageData.{DashData}
use net_bird_audit.Db.Monad.{DbError}

pub record Config : Type 0 where
  pub listen : Text
  pub sensor_listen : Text
  pub cert_file : Text
  pub key_file : Text
  pub admin_user : Text
  pub admin_hash : Text
  pub totp_secret : Text
  pub sensor_key : Text
  pub secure_cookie : Bool
  pub poll_interval : Duration

-- The state that requests change; the database stands beside it.
pub record Server : Type 0 where
  pub cfg : Config
  pub sessions : SessionStore
  pub failures : GoMap (List Time)
  pub last_netbird_sync : Time
  pub last_resource_sync : Time
  pub last_sensor_seen : Time
  pub sensor_interface : Text

abbrev pub World : Type 0
World = Server × Db

-- What a handler reads of a request: `cookie` is r.Cookie, `form` is r.FormValue after ParseForm,
-- and `header` is r.Header.Get.
pub record Request : Type 0 where
  pub method : Text
  pub remote_addr : Text
  pub cookie : Text → Option Text
  pub form : Text → Text
  pub header : Text → Text

pub record Cookie : Type 0 where
  pub name : Text
  pub value : Text
  pub http_only : Bool
  pub secure : Bool
  pub same_site_strict : Bool
  pub max_age : ℤ

-- The text of http.Error, the text of an error that a method returned, the data of a page, whose
-- HTML is not modelled, a script, or a CSV file; `nothing` stands for the short body that
-- http.Redirect may add, too.
pub data Body : Type 0 where
  nothing login_page login_script app_script : Body
  message : Text → Body
  failure : DbError → Body
  netbird_failure : Body
  stored : ℕ → Body
  page : DashData → Body
  csv_file : Text → Body

pub record Response : Type 0 where
  pub status : ℕ
  pub location : Option Text
  pub cookies : List Cookie
  pub body : Body

abbrev pub http_error : Body → ℕ → Response
http_error body status = record { status = status; location = none; cookies = []; body = body }

abbrev pub redirect : Text → List Cookie → Response
redirect url cookies = record {
  status = 303;
  location = some url;
  cookies = cookies;
  body = nothing;
}

abbrev pub Handler : Type 0
Handler = Request → World → Response × World
