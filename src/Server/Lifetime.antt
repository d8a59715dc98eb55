-- ===== src/Server/Lifetime.antt =====
-- New, pollNetBird and Run of internal/server/server.go, and everything that may happen to a server
-- and its database.
pub mod Laws
use net_bird_audit.Prelude.{
  ℕ, ◌*◌, ltb, Text, Bool, true, false, List, [], ◌∷◌, Option, none, some, if◌then◌else◌,
}
use net_bird_audit.Prelude.Int.{pos, negsuc}
use net_bird_audit.Time.{Time, Duration, second, hour}
use net_bird_audit.GoMap
use net_bird_audit.Auth.Sessions.{new_session_store}
use net_bird_audit.Db.Collation.{Collation}
use net_bird_audit.Db.Tables.{Db, User, Peer, NetBirdResource}
use net_bird_audit.Server.Types.{Config, Server, World, Request}
use net_bird_audit.Server.Sync.{sync}
use net_bird_audit.Server.SensorApi.{SensorFlow}
use net_bird_audit.Server.Routes.{Url, Outside, public_mux, sensor_mux}

-- New; the template of the pages is parsed without an error.
unfoldable pub new_server : Config → Server
new_server cfg = record {
  cfg = cfg;
  sessions = new_session_store (pos (8 * hour));
  failures = GoMap.empty;
  last_netbird_sync = 0;
  last_resource_sync = 0;
  last_sensor_seen = 0;
  sensor_interface = [];
}

-- The http.Server of each listener, without the handler.
pub record HttpServer : Type 0 where
  pub addr : Text
  pub read_header_timeout : Duration
  pub read_timeout : Duration
  pub write_timeout : Duration
  pub idle_timeout : Duration

http_server : Text → HttpServer
http_server addr = record {
  addr = addr;
  read_header_timeout = pos (10 * second);
  read_timeout = pos (30 * second);
  write_timeout = pos (30 * second);
  idle_timeout = pos (60 * second);
}

unfoldable pub public_server : Config → HttpServer
unfolding http_server
public_server cfg = http_server cfg.listen

unfoldable pub sensor_server : Config → HttpServer
unfolding http_server
sensor_server cfg = http_server cfg.sensor_listen

-- What the select of Run waits for, in the order in which it comes: the end of the context, or the
-- end of a listener, with whether its error is http.ErrServerClosed.
pub data ServerEvent : Type 0 where
  context_done : ServerEvent
  listener_ended : Bool → ServerEvent

-- What Run returns: `none` while it waits, else whether it returns without an error.
unfoldable pub run_result : List ServerEvent → Option Bool
run_result [] = none
run_result (context_done ∷ es) = some true
run_result (listener_ended closed ∷ es) =
    let rest = run_result es in if closed then rest else some false

unfoldable pub is_positive : Duration → Bool
is_positive (pos n) = ltb 0 n
is_positive (negsuc n) = false

-- What a round of the poll reads from outside.
pub record Round : Type 0 where
  pub db_time : ℕ → Time
  pub now : Time
  pub since : Time
  pub later : Time
  pub users : Option (List User)
  pub peers : Option (List Peer)
  pub resources : Option (List NetBirdResource)

module _ ⦃c : Collation⦄ where
  -- One round; an error is only written to the log.
  pub poll_round : Round → World → World
  poll_round round w =
      (sync round.db_time round.now round.since round.later round.users round.peers round.resources
        w).1

  -- pollNetBird: a round at the start and one for each tick, until the context is done.
  unfoldable pub poll_netbird : Round → List Round → World → World
  unfolding poll_round
  poll_netbird first [] w = poll_round first w
  poll_netbird first (tick ∷ ticks) w = poll_netbird tick ticks (poll_round first w)

  -- pollNetBird with its ticker: time.NewTicker panics if the interval is not positive, which ends the
  -- process, and is `none`.
  unfoldable pub start_poll : Round → List Round → World → Option World
  start_poll first ticks w =
      if is_positive w.0.cfg.poll_interval then some (poll_netbird first ticks w) else none

  -- What can happen: requests to either server, a poll, a start of a new process on the database,
  -- and a change of what the database will answer.
  pub data Step : World → World → Type 0 where
    public_request :
        (compare : Text → Text → Bool) (out : Outside) (url : Url) (r : Request) (w : World)
        → Step w (public_mux compare out url r w).1
    sensor_request :
        (body : Option (List SensorFlow)) (now : Time) (interface : Text) (url : Url) (r : Request)
        (w : World)
        → Step w (sensor_mux body now interface url r w).1
    polled : (first : Round) (ticks : List Round) (w : World) → Step w (poll_netbird first ticks w)
    started : (cfg : Config) (s : Server) (d : Db) → Step (s, d) (new_server cfg, d)
    answers :
        (s : Server) (d : Db) (outcomes : List Bool)
        → Step (s, d) (s, record d { outcomes = outcomes })

  pub data Reach (w : World) : World → Type 0 where
    here : Reach w w
    next : {u v : World} → Reach w u → Step u v → Reach w v
