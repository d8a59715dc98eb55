-- ===== src/Server/PageData.antt =====
-- dashData of internal/server/server.go: what the templates of the pages are given.
use net_bird_audit.Prelude.{ℕ, Text, Bool, List}
use net_bird_audit.Time.{Time}
use net_bird_audit.Db.Tables.{Resource, ResourceView}
use net_bird_audit.Db.Identity.{PeerRow}
use net_bird_audit.Db.VpnSessions.{Session}
use net_bird_audit.Db.Search.{Flow}
use net_bird_audit.Db.Reports.{ResourceStat, HourStat}

-- The first three arguments of baseData that do not depend on the state.
pub record Heading : Type 0 where
  pub page : Text
  pub title : Text
  pub subtitle : Text

pub record DashData : Type 0 where
  pub heading : Heading
  pub csrf : Text
  pub admin_user : Text
  pub online : ℕ
  pub peers : ℕ
  pub sessions : ℕ
  pub flows : ℕ
  pub alerts : ℕ
  pub peer_pct : ℕ
  pub unique_users : ℕ
  pub active_flows : ℕ
  pub sessions_list : List Session
  pub flows_list : List Flow
  pub resources : List Resource
  pub resource_views : List ResourceView
  pub peers_list : List PeerRow
  pub top_resources : List ResourceStat
  pub hourly : List HourStat
  pub filter_users : List Text
  pub filter_resources : List Text
  pub filter_period : Text
  pub filter_user : Text
  pub filter_resource : Text
  pub filter_protocol : Text
  pub filter_query : Text
  pub sensor_ok : Bool
  pub mysql_ok : Bool
  pub netbird_ok : Bool
  pub last_sensor_seen : Time
  pub last_netbird_sync : Time
  pub last_resource_sync : Time
  pub sensor_interface : Text
