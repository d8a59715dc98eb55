-- ===== src/Server/SensorApi.antt =====
-- sensorFlows and sensorHeartbeat of internal/server/server.go. The decoder of JSON is a parameter:
-- `body` is what it makes of the request.
pub mod Laws
use net_bird_audit.Prelude.{
  ℕ, ◌+◌, suc, Text, codes, Bool, true, false, not, List, [], ◌∷◌, Option, none, some,
  if◌then◌else◌, ◌==◌, text_eq, nat_eq,
}
use net_bird_audit.Time.{Time}
use net_bird_audit.Db.Collation.{Collation}
use net_bird_audit.Db.Tables.{Db, FlowUpsert}
use net_bird_audit.Db.Monad.{Result, ok, err}
use net_bird_audit.Db.Flows.{upsert_flow}
use net_bird_audit.Server.Types.{
  Server, World, Request, Response, Handler, http_error, message, nothing, stored,
}

pub record SensorFlow : Type 0 where
  pub flow_key : Text
  pub started_at : Time
  pub last_seen_at : Time
  pub src_ip : Text
  pub dst_ip : Text
  pub protocol : Text
  pub src_port : ℕ
  pub dst_port : ℕ
  pub bytes_tx : ℕ
  pub bytes_rx : ℕ
  pub packets_tx : ℕ
  pub packets_rx : ℕ
  pub ended : Bool

pub upsert_of : SensorFlow → FlowUpsert
upsert_of f = record {
  flow_key = f.flow_key;
  started_at = f.started_at;
  last_seen_at = f.last_seen_at;
  src_ip = f.src_ip;
  dst_ip = f.dst_ip;
  protocol = f.protocol;
  src_port = f.src_port;
  dst_port = f.dst_port;
  bytes_tx = f.bytes_tx;
  bytes_rx = f.bytes_rx;
  packets_tx = f.packets_tx;
  packets_rx = f.packets_rx;
  ended = f.ended;
}

counts : Result Bool → ℕ
counts (ok true) = 1
counts (ok false) = 0
counts (err e) = 0

-- hmac.Equal tells whether the texts are the same.
unfoldable pub key_ok : Server → Request → Bool
key_ok s r = r.header (codes "X-Sensor-Key") == s.cfg.sensor_key

unfoldable pub with_key : Handler → Handler
with_key next r (s, d) =
    if r.method == codes "POST"
    then (if key_ok s r
        then next r (s, d)
        else (http_error (message (codes "unauthorized")) 401, (s, d)))
    else (http_error (message (codes "method")) 405, (s, d))

module _ ⦃c : Collation⦄ where
  -- The loop over the reports: how many were stored, and the database after them.
  unfoldable pub store_flows : List SensorFlow → Db → ℕ × Db
  unfolding counts upsert_of
  store_flows [] d = (0, d)
  store_flows (f ∷ fs) d =
      let (out, e) = upsert_flow (upsert_of f) d in
      let (n, last) = store_flows fs e in (counts out + n, last)

  -- An answer with a body has the status 200.
  take_flows : Option (List SensorFlow) → Handler
  take_flows none r w = (http_error (message (codes "bad json")) 400, w)
  take_flows (some fs) r (s, d) =
      let (n, e) = store_flows fs d in
      (record { status = 200; location = none; cookies = []; body = stored n }, (s, e))

  unfoldable pub sensor_flows : Option (List SensorFlow) → Handler
  unfolding with_key take_flows
  sensor_flows body = with_key (take_flows body)

-- `interface` is the field of the body, empty if the decoder did not set it.
unfoldable pub sensor_heartbeat : Time → Text → Handler
unfolding with_key
sensor_heartbeat now interface = with_key (λ r (s, d). (
  record { status = 204; location = none; cookies = []; body = nothing },
  (
    record s {
      last_sensor_seen = now;
      sensor_interface = if interface == [] then s.sensor_interface else interface;
    },
    d,
  ),
))
