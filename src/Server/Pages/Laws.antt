-- ===== src/Server/Pages/Laws.antt =====
-- What the pages show of the state.
use net_bird_audit.Prelude.{
  ℕ, ◌+◌, ◌*◌, ◌≤◌, ◌<◌, Text, codes, true, List, [], ◌∷◌, map, ◌==◌, text_eq, nat_eq, text_beq_iff,
  ltb, In, map-In, length, ◌≡◌, ◌≢◌, ◌⊎◌, inl, inr, refl, ◌∙◌, ap, arith, Bool-cases,
}
use native.Mathlib.Nat.{div-lt_iff_lt-mul}
use net_bird_audit.Time.{Time, second, hour}
use net_bird_audit.Db.Collation.{Collation}
use net_bird_audit.Db.Tables.{Db, FlowRow}
use net_bird_audit.Db.Monad.{ok}
use net_bird_audit.Db.Search.{Flow, flow_of_row, page_size, search_flows}
use net_bird_audit.Db.Search.Laws.{search_flows-Page}
use net_bird_audit.Db.Statistics.Laws.{online-counts}
use net_bird_audit.Server.Types.{Server, Request}
use net_bird_audit.Server.PageData.{Heading}
use net_bird_audit.Server.SensorApi.{key_ok, with_key, sensor_heartbeat}
use net_bird_audit.Server.SensorApi.Laws.{Authorized}
use net_bird_audit.Server.Pages.{
  PageClock, percentage, fresh_within, heartbeat_limit, base_data, period_start, access_logs_filter,
}

percentage_le : (o p : ℕ) → (o ≤ p) ⊎ (p ≡ 0) → percentage o p ≤ 100
unfolding percentage
percentage_le o p h = elim (Bool-cases (p == 0)) [
  | inl none_there ↦ rw none_there (omega arith)
  | inr some_there ↦
      let positive : 0 < p = ground arith in
      let small : o * 100 < 101 * p = ground arith in
      rw some_there (omega (arith, (div-lt_iff_lt-mul positive).1 small))
]

module _ ⦃c : Collation⦄ where
  -- The percentage of peers that are online is at most 100, whatever the table has and whichever
  -- queries fail.
  pub peer_pct-base_data :
      (clock : PageClock) (heading : Heading) (r : Request) (s : Server) (d : Db)
      → (base_data clock heading r s d).0.peer_pct ≤ 100
  unfolding base_data
  peer_pct-base_data clock heading r s d =
      percentage_le _ _ (online-counts clock.sessions_time clock.flows_time d)

  -- After a heartbeat with the sensor's key at `t` the pages show its interface, if it names one,
  -- and show the sensor as healthy for the next 45 seconds and no longer.
  pub sensor_ok-heartbeat :
      (t : Time) (interface : Text) (beat : Request) (clock : PageClock) (heading : Heading)
      (r : Request) (s : Server) (d : Db)
      → Authorized s beat
      → t ≤ clock.sensor_time
      → ((base_data clock heading r (sensor_heartbeat t interface beat (s, d)).1.0 d).0.sensor_ok
          ≡ ltb clock.sensor_time (t + 45 * second))
        × (interface ≢ []
            → (base_data clock heading r
                (sensor_heartbeat t interface beat (s, d)).1.0
                d).0.sensor_interface
              ≡ interface)
  unfolding base_data sensor_heartbeat with_key key_ok fresh_within heartbeat_limit
  sensor_ok-heartbeat t interface beat clock heading r s d (post, key) later =
      let e : (beat.method == codes "POST") ≡ true =
        (text_beq_iff beat.method (codes "POST")).1 post in
      let k : (beat.header (codes "X-Sensor-Key") == s.cfg.sensor_key) ≡ true =
        (text_beq_iff (beat.header (codes "X-Sensor-Key")) s.cfg.sensor_key).1 key in
      (rw (e, k) (ground arith), λ given. rw (e, k) (ground (arith, text_beq_iff interface [])))

  length-map : (rows : List FlowRow) → length (map flow_of_row rows) ≡ length rows
  length-map [] = refl
  length-map (r ∷ rows) = omega (arith, length-map rows)

  started_at-flow_of_row : (r : FlowRow) → (flow_of_row r).started_at ≡ r.started_at
  unfolding flow_of_row
  started_at-flow_of_row r = refl

  month_before :
      (now : Time) (query : Text → Text)
      → now ≤ (access_logs_filter now query).since + 30 * 24 * hour
  unfolding access_logs_filter period_start
  month_before now query = ground arith

  five_hundred :
      (now : Time) (query : Text → Text) → page_size (access_logs_filter now query).limit ≡ 500
  unfolding access_logs_filter page_size
  five_hundred now query = refl

  -- Whatever the request asks for, the page of the access logs has at most 500 flows, and each of
  -- them has started in the last 30 days.
  pub access_logs-window :
      (now : Time) (query : Text → Text) (s : Db) (out : List Flow)
      → (search_flows (access_logs_filter now query) s).0 ≡ ok out
      → (length out ≤ 500) × ((x : Flow) → In x out → now ≤ x.started_at + 30 * 24 * hour)
  access_logs-window now query s out h =
      let f = access_logs_filter now query in
      let (rows, e, shown) = search_flows-Page f s out h in
      (
        rw e (omega (arith, length-map rows, shown.bounded, five_hundred now query)),
        λ x m.
            (let (r, member, from) = map-In flow_of_row x rows (rw e at m) in
              let (_, wanted) = shown.wanted r member in
              omega (
                arith,
                ap (λ (y : Flow). y.started_at) from ∙ started_at-flow_of_row r,
                wanted.since,
                month_before now query,
              )),
      )
