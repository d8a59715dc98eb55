-- ===== src/Server/Views.antt =====
-- The handlers of the pages that only read, in internal/server/server.go. A list whose query fails
-- is empty on the page.
pub mod Frame
use net_bird_audit.Prelude.{
  ℕ, ◌*◌, Text, codes, Bool, List, [], ◌∷◌, ◌++◌, Option, none, some, if◌then◌else◌, ◌==◌, text_eq,
}
use net_bird_audit.Prelude.Int.{pos}
use net_bird_audit.Time.{Time, hour}
use net_bird_audit.Text.{trim_space}
use net_bird_audit.Db.Collation.{Collation}
use net_bird_audit.Db.Tables.{Db}
use net_bird_audit.Db.Identity.{list_peers}
use net_bird_audit.Db.VpnSessions.{recent_sessions}
use net_bird_audit.Db.Resources.{list_resources, list_resource_views}
use net_bird_audit.Db.Search.{FlowFilter, search_flows}
use net_bird_audit.Db.Reports.{top_resources_24h, hourly_flows_24h}
use net_bird_audit.Db.Names.{flow_users, flow_resources}
use net_bird_audit.Db.Monad.{M, Result, ok, err}
use net_bird_audit.Server.PageData.{Heading, DashData}
use net_bird_audit.Server.Types.{Server, World, Request, Response, Handler, page}
use net_bird_audit.Server.Pages.{PageClock, base_data, access_logs_filter, overview_filter}

-- The clocks that a page reads besides those of baseData.
pub record ViewClock : Type 0 where
  pub base : PageClock
  pub search_time : Time
  pub top_time : Time
  pub hourly_time : Time

or_nil : {A : Type 0} → Result (List A) × Db → List A × Db
or_nil (ok xs, s) = (xs, s)
or_nil (err e, s) = ([], s)

-- xs, _ = …
pub fetch : {A : Type 0} → M (List A) → Db → List A × Db
unfolding or_nil
fetch m s = or_nil (m s)

-- render, without the HTML; an error of the template is only written to the log.
render : DashData → Response
render d = record { status = 200; location = none; cookies = []; body = page d }

abbrev pub heading_of : Text → Text → Text → Heading
heading_of name title subtitle = record { page = name; title = title; subtitle = subtitle }

-- The greeting ends with the code of a waving hand in UTF-8.
pub overview_heading : Text → Heading
overview_heading admin =
    heading_of (codes "overview")
      (codes "Good day, " ++ admin ++ b' ' ∷ 0xf0 ∷ 0x9f ∷ 0x91 ∷ 0x8b ∷ [])
      (codes "Monitor, audit and analyze NetBird access to your internal resources.")

pub logs_heading : Heading
logs_heading =
    heading_of (codes "logs") (codes "Access Logs")
      (codes "Audit and track NetBird access to internal resources.")

pub sessions_heading : Heading
sessions_heading =
    heading_of (codes "sessions") (codes "VPN Sessions")
      (codes "See who is connected, from which device, and for how long.")

pub resources_heading : Heading
resources_heading =
    heading_of (codes "resources") (codes "Resources")
      (codes "NetBird is the source of truth. Choose which routed resources should be audited.")

pub peers_heading : Heading
peers_heading =
    heading_of (codes "peers") (codes "Peers")
      (codes "Identity and connection status synchronized from NetBird.")

pub health_heading : Heading
health_heading =
    heading_of (codes "health") (codes "System Health")
      (codes "Audit server, eBPF sensor, MySQL and NetBird synchronization status.")

module _ ⦃c : Collation⦄ where
  unfoldable pub overview : ViewClock → Handler
  unfolding render fetch overview_heading
  overview clock r (s, d) =
      let (base, d1) = base_data clock.base (overview_heading s.cfg.admin_user) r s d in
      let (sessions, d2) = fetch (recent_sessions 5) d1 in
      let (flows, d3) = fetch (search_flows (overview_filter clock.search_time)) d2 in
      let (top, d4) = fetch (top_resources_24h (pos 5) clock.top_time) d3 in
      let (hourly, d5) = fetch (hourly_flows_24h clock.hourly_time) d4 in
      (
        render (record base {
          sessions_list = sessions;
          flows_list = flows;
          top_resources = top;
          hourly = hourly;
        }),
        (s, d5),
      )

  -- `query` is r.URL.Query().Get.
  unfoldable pub access_logs : ViewClock → (Text → Text) → Handler
  unfolding render fetch logs_heading
  access_logs clock query r (s, d) =
      let (base, d1) = base_data clock.base logs_heading r s d in
      let given = query (codes "period") in
      let (flows, d2) = fetch (search_flows (access_logs_filter clock.search_time query)) d1 in
      let (users, d3) = fetch flow_users d2 in
      let (resources, d4) = fetch flow_resources d3 in
      (
        render (record base {
          filter_period = if given == [] then codes "24h" else given;
          filter_user = query (codes "user");
          filter_resource = query (codes "resource");
          filter_protocol = query (codes "protocol");
          filter_query = trim_space (query (codes "q"));
          flows_list = flows;
          filter_users = users;
          filter_resources = resources;
        }),
        (s, d4),
      )

  unfoldable pub vpn_sessions : ViewClock → Handler
  unfolding render fetch sessions_heading
  vpn_sessions clock r (s, d) =
      let (base, d1) = base_data clock.base sessions_heading r s d in
      let (sessions, d2) = fetch (recent_sessions 300) d1 in
      (render (record base { sessions_list = sessions }), (s, d2))

  unfoldable pub resources_page : ViewClock → Handler
  unfolding render fetch resources_heading
  resources_page clock r (s, d) =
      let (base, d1) = base_data clock.base resources_heading r s d in
      let (views, d2) = fetch list_resource_views d1 in
      let (resources, d3) = fetch list_resources d2 in
      (render (record base { resource_views = views; resources = resources }), (s, d3))

  unfoldable pub peers_page : ViewClock → Handler
  unfolding render fetch peers_heading
  peers_page clock r (s, d) =
      let (base, d1) = base_data clock.base peers_heading r s d in
      let (peers, d2) = fetch list_peers d1 in
      (render (record base { peers_list = peers }), (s, d2))

  unfoldable pub system_health_page : ViewClock → Handler
  unfolding render health_heading
  system_health_page clock r (s, d) =
      let (base, d1) = base_data clock.base health_heading r s d in (render base, (s, d1))
