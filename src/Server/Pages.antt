-- ===== src/Server/Pages.antt =====
-- baseData of internal/server/server.go, and the searches of its pages.
pub mod Laws
use net_bird_audit.Prelude.{
  ℕ, suc, ◌+◌, ◌-◌, ◌*◌, ◌/◌, ◌%◌, ◌^◌, Text, codes, Bool, true, false, List, [], ◌∷◌, Option, none,
  some, if◌then◌else◌, ◌==◌, text_eq, nat_eq, ltb,
}
use net_bird_audit.Prelude.Int.{ℤ, pos, negsuc, minus, ltz, int64}
use net_bird_audit.Time.{Time, Duration, add, sub, second, hour}
use net_bird_audit.Text.{trim_space}
use net_bird_audit.Db.Collation.{Collation}
use net_bird_audit.Db.Tables.{Db}
use net_bird_audit.Db.Monad.{Result, ok, err, statement}
use net_bird_audit.Db.Search.{FlowFilter}
use net_bird_audit.Db.Statistics.{
  Totals, counts, failed_logins_24h, unique_users_24h, active_flows_24h,
}
use net_bird_audit.Server.Types.{Server, Request}
use net_bird_audit.Server.PageData.{Heading, DashData}
use net_bird_audit.Server.Format.{max_duration}

-- What baseData reads of clocks: NOW() of each query, and the two times of time.Since.
pub record PageClock : Type 0 where
  pub sessions_time : Time
  pub flows_time : Time
  pub logins_time : Time
  pub users_time : Time
  pub active_time : Time
  pub sensor_time : Time
  pub netbird_time : Time

or_empty : Option Text → Text
or_empty none = []
or_empty (some t) = t

-- o*100/p, for a p that is not 0.
percentage : ℕ → ℕ → ℕ
percentage o p = if p == 0 then 0 else o * 100 / p

-- The product of an int64 with 3, which wraps.
triple : Duration → Duration
triple (pos n) = int64 (n * 3 % 2 ^ 64)
triple (negsuc n) = int64 ((2 ^ 64 - suc n) * 3 % 2 ^ 64)

answered : Result (Unit {0}) → Bool
answered (ok u) = true
answered (err e) = false

-- time.Since(t) < limit
fresh_within : Duration → Time → Time → Bool
fresh_within limit t now = ltz (sub now t) limit

pub heartbeat_limit : Duration
heartbeat_limit = pos (45 * second)

module _ ⦃c : Collation⦄ where
  unfoldable pub base_data : PageClock → Heading → Request → Server → Db → DashData × Db
  unfolding or_empty percentage triple answered fresh_within heartbeat_limit
  base_data clock heading r s d =
      let (totals, d1) = counts clock.sessions_time clock.flows_time d in
      let (alerts, d2) = failed_logins_24h clock.logins_time d1 in
      let (unique_users, d3) = unique_users_24h clock.users_time d2 in
      let (active, d4) = active_flows_24h clock.active_time d3 in
      let (ping, d5) = statement d4 in
      (
        record {
          heading = heading;
          csrf = or_empty (r.cookie (codes "nba_csrf"));
          admin_user = s.cfg.admin_user;
          online = totals.online;
          peers = totals.peers;
          sessions = totals.sessions;
          flows = totals.flows;
          alerts = alerts;
          peer_pct = percentage totals.online totals.peers;
          unique_users = unique_users;
          active_flows = active;
          sessions_list = [];
          flows_list = [];
          resources = [];
          resource_views = [];
          peers_list = [];
          top_resources = [];
          hourly = [];
          filter_users = [];
          filter_resources = [];
          filter_period = [];
          filter_user = [];
          filter_resource = [];
          filter_protocol = [];
          filter_query = [];
          sensor_ok = fresh_within heartbeat_limit s.last_sensor_seen clock.sensor_time;
          mysql_ok = answered ping;
          netbird_ok =
              fresh_within (max_duration (triple s.cfg.poll_interval) heartbeat_limit)
                s.last_netbird_sync clock.netbird_time;
          last_sensor_seen = s.last_sensor_seen;
          last_netbird_sync = s.last_netbird_sync;
          last_resource_sync = s.last_resource_sync;
          sensor_interface = s.sensor_interface;
        },
        d5,
      )

-- The start of the period of accessLogs: a day, for a period that it does not know.
unfoldable pub period_start : Time → Text → Time
period_start now period =
    if period == codes "1h"
    then add now (minus hour)
    else if period == codes "7d"
    then add now (minus (7 * 24 * hour))
    else if period == codes "30d"
    then add now (minus (30 * 24 * hour))
    else add now (minus (24 * hour))

-- The search of accessLogs: `query` is r.URL.Query().Get.
unfoldable pub access_logs_filter : Time → (Text → Text) → FlowFilter
access_logs_filter now query =
    let given = query (codes "period") in
    let period = if given == [] then codes "24h" else given in
    record {
      since = period_start now period;
      user = query (codes "user");
      resource = query (codes "resource");
      protocol = query (codes "protocol");
      query = trim_space (query (codes "q"));
      limit = pos 500;
    }

-- The search of overview.
unfoldable pub overview_filter : Time → FlowFilter
overview_filter now = record {
  since = add now (minus (24 * hour));
  user = [];
  resource = [];
  protocol = [];
  query = [];
  limit = pos 5;
}

-- The search of exportFlowsCSV.
unfoldable pub export_filter : Time → FlowFilter
export_filter now = record {
  since = add now (minus (30 * 24 * hour));
  user = [];
  resource = [];
  protocol = [];
  query = [];
  limit = pos 1000;
}
