-- ===== src/Server/Routes.antt =====
-- The tables of routes in Run, http.ServeMux as far as Run uses it, and securityHeaders, all of
-- internal/server/server.go. Bytes of a path that stand for others are left as they are.
pub mod Laws
pub mod Sensor
use mathlib.Core.List.{reverse}
use net_bird_audit.Prelude.{
  ℕ, Text, codes, Bool, true, false, not, ◌&&◌, List, [], ◌∷◌, ◌++◌, Option, none, some,
  if◌then◌else◌, ◌==◌, text_eq, nat_eq,
}
use net_bird_audit.Time.{Time}
use net_bird_audit.Text.{split}
use net_bird_audit.Db.Collation.{Collation}
use net_bird_audit.Db.Tables.{NetBirdResource}
use net_bird_audit.Server.Types.{
  World, Request, Response, Handler, Body, http_error, message, nothing, login_script, app_script,
}
use net_bird_audit.Server.Access.{require_auth}
use net_bird_audit.Server.Login.{Surroundings, login, logout}
use net_bird_audit.Server.Admin.{enable_resource, delete_resource, sync_resources_handler}
use net_bird_audit.Server.SensorApi.{SensorFlow, sensor_flows, sensor_heartbeat}
use net_bird_audit.Server.Csv.{export_flows_csv}
use net_bird_audit.Server.Views.{
  ViewClock, overview, access_logs, vpn_sessions, resources_page, peers_page, system_health_page,
}

-- `path` is the escaped path, and `query` is Query().Get.
pub record Url : Type 0 where
  pub path : Text
  pub raw_query : Text
  pub query : Text → Text

-- The elements of a path without empty ones and dots; two dots take the one before away.
clean_elements : List Text → List Text → List Text
clean_elements seen [] = reverse seen
clean_elements seen (e ∷ es) =
    clean_elements
      (if e == []
        then seen
        else if e == codes "."
        then seen
        else if e == codes ".."
        then elim seen [ [] ↦ [] | last ∷ before ↦ before ]
        else e ∷ seen)
      es

join_elements : List Text → Text
join_elements [] = []
join_elements (e ∷ es) = b'/' ∷ (e ++ join_elements es)

ends_in_slash : Text → Bool
ends_in_slash [] = false
ends_in_slash (c ∷ []) = c == b'/'
ends_in_slash (c ∷ d ∷ s) = ends_in_slash (d ∷ s)

-- cleanPath of net/http: a slash at the end stays there.
unfoldable pub clean_path : Text → Text
unfolding clean_elements join_elements ends_in_slash
clean_path path = elim (clean_elements [] (split path b'/')) [
  | [] ↦ b'/' ∷ []
  | e ∷ es ↦
      let cleaned = join_elements (e ∷ es) in
      if ends_in_slash path then cleaned ++ b'/' ∷ [] else cleaned
]

-- The pages and actions behind requireAuth.
pub data View : Type 0 where
  overview_view logs_view sessions_view resources_view peers_view health_view : View
  sync_view enable_view delete_view export_view : View

pub data Route : Type 0 where
  health_check login_asset app_asset sign_in sign_out : Route
  protected : View → Route

-- The pattern `/` takes every path that no other pattern takes.
unfoldable pub public_route : Text → Route
public_route path =
    if path == codes "/healthz"
    then health_check
    else if path == codes "/assets/login.js"
    then login_asset
    else if path == codes "/assets/app.js"
    then app_asset
    else if path == codes "/login"
    then sign_in
    else if path == codes "/logout"
    then sign_out
    else if path == codes "/access-logs"
    then protected logs_view
    else if path == codes "/vpn-sessions"
    then protected sessions_view
    else if path == codes "/resources"
    then protected resources_view
    else if path == codes "/peers"
    then protected peers_view
    else if path == codes "/system-health"
    then protected health_view
    else if path == codes "/resources/sync"
    then protected sync_view
    else if path == codes "/resources/enable"
    then protected enable_view
    else if path == codes "/resources/delete"
    then protected delete_view
    else if path == codes "/export/flows.csv"
    then protected export_view
    else protected overview_view

-- What the public handlers read from outside: the clock twice in Valid, and what each handler reads.
pub record Outside : Type 0 where
  pub valid_time : Time
  pub valid_later : Time
  pub signing_in : Surroundings
  pub view : ViewClock
  pub export_time : Time
  pub db_time : Time
  pub sync_time : Time
  pub netbird_resources : Option (List NetBirdResource)

pub answer_200 : Body → Handler
answer_200 body r w = (record { status = 200; location = none; cookies = []; body = body }, w)

with_query : Url → Text → Text
with_query url path = if url.raw_query == [] then path else path ++ b'?' ∷ url.raw_query

-- ServeMux sends a client whose path is not clean to the clean one, unless the method is CONNECT.
pub redirects : Url → Request → Bool
redirects url r = not (r.method == codes "CONNECT") && not (clean_path url.path == url.path)

moved : Url → Response
unfolding with_query
moved url = record {
  status = 301;
  location = some (with_query url (clean_path url.path));
  cookies = [];
  body = nothing;
}

pub with_clean_path : Url → Handler → Handler
unfolding redirects moved
with_clean_path url next r w = if redirects url r then (moved url, w) else next r w

module _ ⦃c : Collation⦄ where
  unfoldable pub view_handler : Outside → Url → View → Handler
  view_handler out url overview_view = overview out.view
  view_handler out url logs_view = access_logs out.view url.query
  view_handler out url sessions_view = vpn_sessions out.view
  view_handler out url resources_view = resources_page out.view
  view_handler out url peers_view = peers_page out.view
  view_handler out url health_view = system_health_page out.view
  view_handler out url sync_view =
      sync_resources_handler out.sync_time out.db_time out.netbird_resources
  view_handler out url enable_view = enable_resource out.db_time
  view_handler out url delete_view = delete_resource out.db_time
  view_handler out url export_view = export_flows_csv out.export_time

  -- `compare` is the bcrypt comparison.
  unfoldable pub route_handler : (Text → Text → Bool) → Outside → Url → Route → Handler
  unfolding answer_200
  route_handler compare out url health_check = answer_200 (message (codes "ok"))
  route_handler compare out url login_asset = answer_200 login_script
  route_handler compare out url app_asset = answer_200 app_script
  route_handler compare out url sign_in = login compare out.signing_in
  route_handler compare out url sign_out = logout
  route_handler compare out url (protected v) =
      require_auth out.valid_time out.valid_later (view_handler out url v)

  -- The handler of the public server.
  unfoldable pub public_mux : (Text → Text → Bool) → Outside → Url → Handler
  unfolding with_clean_path
  public_mux compare out url =
      with_clean_path url (route_handler compare out url (public_route url.path))

  sensor_route : Option (List SensorFlow) → Time → Text → Text → Handler
  unfolding answer_200
  sensor_route body now interface path =
      if path == codes "/healthz"
      then answer_200 (message (codes "ok"))
      else if path == codes "/api/v1/flows"
      then sensor_flows body
      else if path == codes "/api/v1/sensor-heartbeat"
      then sensor_heartbeat now interface
      else λ r w. (http_error (message (codes "404 page not found")) 404, w)

  -- The handler of the sensor's server. `body` and `interface` are what the decoder of JSON makes of
  -- the request.
  unfoldable pub sensor_mux : Option (List SensorFlow) → Time → Text → Url → Handler
  unfolding with_clean_path sensor_route
  sensor_mux body now interface url = with_clean_path url (sensor_route body now interface url.path)

abbrev pub Header : Type 0
Header = Text × Text

pub security_headers : List Header
security_headers =
    (codes "X-Frame-Options", codes "DENY")
    ∷ (codes "X-Content-Type-Options", codes "nosniff")
    ∷ (codes "Referrer-Policy", codes "no-referrer")
    ∷ (codes "Strict-Transport-Security", codes "max-age=31536000; includeSubDomains")
    ∷ (codes "Permissions-Policy", codes "camera=(), microphone=(), geolocation=()")
    ∷ (codes "Cache-Control", codes "no-store")
    ∷ (
      codes "Content-Security-Policy",
      codes
          "default-src 'self'; script-src 'self'; style-src 'self' 'unsafe-inline'; img-src 'self' data:; form-action 'self'; frame-ancestors 'none'; base-uri 'none'; object-src 'none'",
    )
    ∷ []

-- securityHeaders: they stand before whatever the handler writes.
unfoldable pub with_security_headers : Handler → Request → World → List Header × Response × World
unfolding security_headers
with_security_headers next r w = let (answer, v) = next r w in (security_headers, answer, v)
