-- ===== src/Server/Views/Frame.antt =====
-- The tables before and after the pages of internal/server/server.go that only read.
use net_bird_audit.Prelude.{Text, List, ◌≡◌, refl}
use net_bird_audit.Prelude.Int.{pos}
use net_bird_audit.Time.{Time}
use net_bird_audit.Db.Collation.{Collation}
use net_bird_audit.Db.Tables.{Db}
use net_bird_audit.Db.Monad.{M, Result, ok, err, statement}
use net_bird_audit.Db.Queries.{
  SameTables, SameTables-trans, list_peers-SameTables, list_resources-SameTables,
  list_resource_views-SameTables, search_flows-SameTables, flow_users-SameTables,
  flow_resources-SameTables, recent_sessions-SameTables,
}
use net_bird_audit.Db.Identity.{list_peers}
use net_bird_audit.Db.VpnSessions.{recent_sessions}
use net_bird_audit.Db.Resources.{list_resources, list_resource_views}
use net_bird_audit.Db.Search.{search_flows}
use net_bird_audit.Db.Names.{flow_users, flow_resources}
use net_bird_audit.Db.Reports.{top_resources_24h, hourly_flows_24h}
use net_bird_audit.Db.Statistics.{counts, failed_logins_24h, unique_users_24h, active_flows_24h}
use net_bird_audit.Db.Statistics.Laws.{
  counts-SameTables, active_flows_24h-SameTables, failed_logins_24h-SameTables,
  unique_users_24h-SameTables,
}
use net_bird_audit.Db.Reports.Laws.Tables.{
  hourly_flows_24h-SameTables, top_resources_24h-SameTables,
}
use net_bird_audit.Server.PageData.{Heading}
use net_bird_audit.Server.Types.{Server, Request, Handler}
use net_bird_audit.Server.Pages.{
  PageClock, base_data, overview_filter, access_logs_filter, export_filter,
}
use net_bird_audit.Server.Csv.{export_flows_csv}
use net_bird_audit.Server.Views.{
  ViewClock, or_nil, fetch, overview_heading, logs_heading, sessions_heading, resources_heading,
  peers_heading, health_heading, overview, access_logs, vpn_sessions, resources_page, peers_page,
  system_health_page,
}

-- A method after which the tables are as before.
abbrev OnlyReads : {A : Type 0} → M A → Type 0
OnlyReads m = (d : Db) → SameTables d (m d).1

or_nil-tables : {A : Type 0} (out : Result (List A) × Db) → (or_nil out).1 ≡ out.1
unfolding or_nil
or_nil-tables (ok xs, s) = refl
or_nil-tables (err e, s) = refl

fetch-tables : {A : Type 0} (m : M (List A)) (d : Db) → (fetch m d).1 ≡ (m d).1
unfolding fetch
fetch-tables m d = or_nil-tables (m d)

fetch-SameTables :
    {A : Type 0} (m : M (List A)) → OnlyReads m → (d : Db) → SameTables d (fetch m d).1
fetch-SameTables m reads d = rw (fetch-tables m d) (reads d)

abbrev pub ReadsOnly : Handler → Type 0
ReadsOnly h = (r : Request) (s : Server) (d : Db) → SameTables d (h r (s, d)).1.1

module _ ⦃c : Collation⦄ where
  base_data-SameTables :
      (clock : PageClock) (heading : Heading) (r : Request) (s : Server) (d : Db)
      → SameTables d (base_data clock heading r s d).1
  unfolding base_data statement
  base_data-SameTables clock heading r s d =
      let d1 = (counts clock.sessions_time clock.flows_time d).1 in
      let d2 = (failed_logins_24h clock.logins_time d1).1 in
      let d3 = (unique_users_24h clock.users_time d2).1 in
      let d4 = (active_flows_24h clock.active_time d3).1 in
      SameTables-trans d d1 _ (counts-SameTables clock.sessions_time clock.flows_time d) (
        SameTables-trans d1 d2 _ (failed_logins_24h-SameTables clock.logins_time d1) (
          SameTables-trans d2 d3 _ (unique_users_24h-SameTables clock.users_time d2)
            (SameTables-trans d3 d4 _ (active_flows_24h-SameTables clock.active_time d3) refl)))

  pub overview-ReadsOnly : (clock : ViewClock) → ReadsOnly (overview clock)
  unfolding overview overview_heading
  overview-ReadsOnly clock r s d =
      let d1 = (base_data clock.base (overview_heading s.cfg.admin_user) r s d).1 in
      let d2 = (fetch (recent_sessions 5) d1).1 in
      let d3 = (fetch (search_flows (overview_filter clock.search_time)) d2).1 in
      let d4 = (fetch (top_resources_24h (pos 5) clock.top_time) d3).1 in
      SameTables-trans d d1 _
        (base_data-SameTables clock.base (overview_heading s.cfg.admin_user) r s d)
        (SameTables-trans d1 d2 _
          (fetch-SameTables (recent_sessions 5) (recent_sessions-SameTables 5) d1)
          (SameTables-trans d2 d3 _
            (fetch-SameTables (search_flows (overview_filter clock.search_time))
              (search_flows-SameTables _) d2)
            (SameTables-trans d3 d4 _
              (fetch-SameTables (top_resources_24h (pos 5) clock.top_time)
                (top_resources_24h-SameTables (pos 5) clock.top_time) d3)
              (fetch-SameTables (hourly_flows_24h clock.hourly_time)
                (hourly_flows_24h-SameTables clock.hourly_time) d4))))

  pub access_logs-ReadsOnly :
      (clock : ViewClock) (query : Text → Text) → ReadsOnly (access_logs clock query)
  unfolding access_logs
  access_logs-ReadsOnly clock query r s d =
      let d1 = (base_data clock.base logs_heading r s d).1 in
      let d2 = (fetch (search_flows (access_logs_filter clock.search_time query)) d1).1 in
      let d3 = (fetch flow_users d2).1 in
      SameTables-trans d d1 _ (base_data-SameTables clock.base logs_heading r s d) (
        SameTables-trans d1 d2 _
          (fetch-SameTables (search_flows (access_logs_filter clock.search_time query))
            (search_flows-SameTables _) d1)
          (SameTables-trans d2 d3 _ (fetch-SameTables flow_users flow_users-SameTables d2)
            (fetch-SameTables flow_resources flow_resources-SameTables d3)))

  pub vpn_sessions-ReadsOnly : (clock : ViewClock) → ReadsOnly (vpn_sessions clock)
  unfolding vpn_sessions
  vpn_sessions-ReadsOnly clock r s d =
      let d1 = (base_data clock.base sessions_heading r s d).1 in
      SameTables-trans d d1 _ (base_data-SameTables clock.base sessions_heading r s d)
        (fetch-SameTables (recent_sessions 300) (recent_sessions-SameTables 300) d1)

  pub resources_page-ReadsOnly : (clock : ViewClock) → ReadsOnly (resources_page clock)
  unfolding resources_page
  resources_page-ReadsOnly clock r s d =
      let d1 = (base_data clock.base resources_heading r s d).1 in
      let d2 = (fetch list_resource_views d1).1 in
      SameTables-trans d d1 _ (base_data-SameTables clock.base resources_heading r s d) (
        SameTables-trans d1 d2 _
          (fetch-SameTables list_resource_views list_resource_views-SameTables d1)
          (fetch-SameTables list_resources list_resources-SameTables d2))

  pub peers_page-ReadsOnly : (clock : ViewClock) → ReadsOnly (peers_page clock)
  unfolding peers_page
  peers_page-ReadsOnly clock r s d =
      let d1 = (base_data clock.base peers_heading r s d).1 in
      SameTables-trans d d1 _ (base_data-SameTables clock.base peers_heading r s d)
        (fetch-SameTables list_peers list_peers-SameTables d1)

  pub system_health_page-ReadsOnly : (clock : ViewClock) → ReadsOnly (system_health_page clock)
  unfolding system_health_page
  system_health_page-ReadsOnly clock r s d = base_data-SameTables clock.base health_heading r s d

  pub export_flows_csv-ReadsOnly : (now : Time) → ReadsOnly (export_flows_csv now)
  unfolding export_flows_csv
  export_flows_csv-ReadsOnly now r s d = search_flows-SameTables (export_filter now) d
