-- ===== src/Server/Tests/Views.antt =====
-- The theorems on searches and pages at concrete inputs.
use net_bird_audit.Prelude.{
  ◌+◌, ◌*◌, text_beq, ◌≤◌, ◌≡◌, ◌≢◌, refl, codes, Text, true, false, [], ◌∷◌, none, arith, List, In,
  map, ltb,
}
use net_bird_audit.Prelude.Int.{pos}
use net_bird_audit.Time.{second, hour}
use net_bird_audit.Text.{trim_space}
use net_bird_audit.Db.Tables.{Db, FlowRow, empty_db}
use net_bird_audit.Db.Monad.{ok, statement, answer}
use net_bird_audit.Db.Search.{Flow, FlowFilter, flow_of_row, search_flows, page_size}
use net_bird_audit.Db.Search.Laws.{Page, search_flows-Page}
use net_bird_audit.Db.Query.{sort_by}
use net_bird_audit.Db.Collation.{same, byte_le}
use net_bird_audit.Server.Types.{Request}
use net_bird_audit.Server.PageData.{Heading}
use net_bird_audit.Server.SensorApi.{sensor_heartbeat}
use net_bird_audit.Server.Pages.{PageClock, base_data, access_logs_filter, period_start}
use net_bird_audit.Server.Pages.Laws.{peer_pct-base_data, sensor_ok-heartbeat, access_logs-window}
use net_bird_audit.Server.Tests.{binary_collation, fresh}

abbrev old_row : FlowRow
old_row = record {
  id = 1;
  flow_key = codes "k1";
  started_at = 10;
  last_seen_at = 15;
  ended_at = none;
  user_id = [];
  user_email = codes "ann@x";
  user_name = [];
  peer_id = [];
  peer_name = [];
  src_ip = codes "100.64.0.1";
  src_port = 40000;
  resource_id = 1;
  resource_name = codes "web";
  dst_ip = codes "10.0.0.9";
  dst_port = 443;
  protocol = codes "tcp";
  bytes_tx = 50;
  bytes_rx = 60;
  packets_tx = 1;
  packets_rx = 1;
}

abbrev new_row : FlowRow
new_row = record old_row {
  id = 2;
  flow_key = codes "k2";
  started_at = 20;
  last_seen_at = 30;
  protocol = codes "udp";
}

abbrev pub with_rows : Db
with_rows = record empty_db { flows = old_row ∷ new_row ∷ []; next_flow = 3 }

abbrev everything : FlowFilter
everything = record {
  since = 5;
  user = [];
  resource = codes "web";
  protocol = [];
  query = [];
  limit = pos 0;
}

both_found : (search_flows everything with_rows).0 ≡ ok (map flow_of_row (new_row ∷ old_row ∷ []))
unfolding search_flows statement answer page_size sort_by text_beq same byte_le
both_found = refl

search_flows-Page_example :
    (rows : List FlowRow) × (map flow_of_row (new_row ∷ old_row ∷ []) ≡ map flow_of_row rows)
    × Page everything (old_row ∷ new_row ∷ []) rows
search_flows-Page_example =
    search_flows-Page everything with_rows (map flow_of_row (new_row ∷ old_row ∷ [])) both_found

abbrev asked : Text → Text
asked name = []

one_day :
    (search_flows (access_logs_filter (24 * hour + 15) asked) with_rows).0
    ≡ ok (flow_of_row new_row ∷ [])
unfolding search_flows statement answer page_size access_logs_filter sort_by period_start text_beq
    trim_space
one_day = refl

inside_window :
    (1 ≤ 500)
    × ((x : Flow)
        → In x (flow_of_row new_row ∷ [])
        → 24 * hour + 15 ≤ x.started_at + 30 * 24 * hour)
inside_window =
    access_logs-window (24 * hour + 15) asked with_rows (flow_of_row new_row ∷ []) one_day

abbrev pub clock : PageClock
clock = record {
  sessions_time = 9;
  flows_time = 9;
  logins_time = 9;
  users_time = 9;
  active_time = 9;
  sensor_time = 40 * second;
  netbird_time = 9;
}

abbrev heading : Heading
heading = record { page = codes "health"; title = codes "System Health"; subtitle = [] }

abbrev visitor : Request
visitor = record {
  method = codes "POST";
  remote_addr = codes "10.0.0.7:51234";
  cookie = λ name. none;
  form = λ name. [];
  header = λ name. codes "key";
}

percentage_in_range :
    (base_data clock heading visitor fresh
      (record empty_db { outcomes = true ∷ false ∷ [] })).0.peer_pct
    ≤ 100
percentage_in_range =
    peer_pct-base_data clock heading visitor fresh
      (record empty_db { outcomes = true ∷ false ∷ [] })

sensor_alive :
    ((base_data clock heading visitor
        (sensor_heartbeat 7 (codes "wt0") visitor (fresh, empty_db)).1.0
        empty_db).0.sensor_ok
      ≡ ltb (40 * second) (7 + 45 * second))
    × (codes "wt0" ≢ []
        → (base_data clock heading visitor
            (sensor_heartbeat 7 (codes "wt0") visitor (fresh, empty_db)).1.0
            empty_db).0.sensor_interface
          ≡ codes "wt0")
sensor_alive =
    sensor_ok-heartbeat 7 (codes "wt0") visitor clock heading visitor fresh empty_db (refl, refl)
      (omega arith)
