-- ===== src/Server/Tests/Routes.antt =====
-- The theorems on the routes behind the login and on the sensor's at concrete inputs.
use net_bird_audit.Prelude.{
  ℕ, ◌+◌, ◌/◌, ◌-◌, ◌^◌, ◌≤◌, ◌<◌, ◌≡◌, ◌⊎◌, refl, codes, Text, true, [], ◌∷◌, ◌++◌, none, some,
  arith, if◌then◌else◌, ◌==◌, text_eq, text_beq,
}
use net_bird_audit.Prelude.Int.{pos, negsuc}
use net_bird_audit.Text.{trim_space, to_lower}
use net_bird_audit.Text.Decimal.{print}
use net_bird_audit.Auth.Sessions.{valid}
use net_bird_audit.Db.Collation.{byte_le, same}
use net_bird_audit.Db.Tables.{Db, NetBirdResource, FlowRow, empty_db}
use net_bird_audit.Db.Query.{find}
use net_bird_audit.Db.Query.Keyed.{IsUnique}
use net_bird_audit.Db.Monad.{statement, answer, answers_left}
use net_bird_audit.Db.Resources.{netbird_row, enable_audit, add_resource, normalize_audit_cidr}
use net_bird_audit.Db.Resources.Enable.{Enables}
use net_bird_audit.Db.Flows.Rows.{key_of, flow_at, Continues}
use net_bird_audit.Netip.{parse_prefix}
use net_bird_audit.Server.Types.{Request}
use net_bird_audit.Server.Access.{require_auth}
use net_bird_audit.Server.Access.Laws.{Admitted, HasCsrf, TurnedAway, require_auth-cases}
use net_bird_audit.Server.Admin.{enable_resource, parse_int64, print_int}
use net_bird_audit.Server.Admin.Laws.{
  enabling, action_handler, action_handler-guarded, enable_resource-Enables, protocol_of, ports_of,
}
use net_bird_audit.Server.Admin.Numbers.{parse_int64-print_int}
use net_bird_audit.Server.SensorApi.{SensorFlow, sensor_flows}
use net_bird_audit.Server.SensorApi.Laws.{
  Accepts, Refuses, sensor_flows-cases, sensor_flows-Continues, sensor_flows-IsUnique,
}
use net_bird_audit.Server.Format.{human_bytes, unit_letter}
use net_bird_audit.Server.Format.Laws.{unit_size, human_bytes-unit}
use net_bird_audit.Text.Decimal.Scan.{scan, starts_digit}
use net_bird_audit.Server.Tests.{binary_collation, fresh}

abbrev pub visitor : Request
visitor = record {
  method = codes "POST";
  remote_addr = codes "10.0.0.7:51234";
  cookie = λ name. none;
  form = λ name. [];
  header = λ name. [];
}

require_auth-cases_example :
    Admitted 5 6 fresh visitor
      × ((token : Text) × (none ≡ some token)
          × (require_auth 5 6 (action_handler (enabling 7)) visitor (fresh, empty_db)
              ≡ action_handler
                  (enabling 7)
                  visitor
                  (record fresh { sessions = (valid token 5 6 fresh.sessions).1 }, empty_db)))
    ⊎ (¬ Admitted 5 6 fresh visitor)
      × TurnedAway empty_db
          (require_auth 5 6 (action_handler (enabling 7)) visitor (fresh, empty_db))
require_auth-cases_example =
    require_auth-cases 5 6 (action_handler (enabling 7)) visitor fresh empty_db

action_handler-guarded_example :
    ((require_auth 5 6 (action_handler (enabling 7)) visitor (fresh, empty_db)).1.1 ≡ empty_db)
    ⊎ (codes "POST" ≡ codes "POST") × Admitted 5 6 fresh visitor × HasCsrf visitor
action_handler-guarded_example = action_handler-guarded 5 6 (enabling 7) visitor fresh empty_db

abbrev pub site : NetBirdResource
site = record {
  id = codes "r1";
  network_id = codes "n1";
  network_name = codes "office";
  name = codes "db";
  address = codes "10.0.0.9";
  kind = codes "host";
  enabled = true;
}

abbrev with_site : Db
with_site = record empty_db { netbird_resources = site ∷ [] }

site_form : Text → Text
site_form name =
    if name == codes "netbird_id"
    then codes "r1"
    else if name == codes "protocol"
    then codes " UDP"
    else []

abbrev enabling_request : Request
enabling_request = record visitor { form = site_form }

enabled_site : (enable_resource 7 enabling_request (fresh, with_site)).0.status ≡ 303
unfolding enable_resource text_beq enable_audit statement answer find same byte_le site_form
    normalize_audit_cidr parse_prefix trim_space to_lower add_resource answers_left
enabled_site = refl

enable_resource-Enables_example :
    (n : NetBirdResource) × (netbird_row (site_form (codes "netbird_id")) with_site ≡ some n)
    × Enables
        (protocol_of enabling_request)
        (ports_of enabling_request)
        n
        with_site
        (enable_resource 7 enabling_request (fresh, with_site)).1.1
enable_resource-Enables_example =
    enable_resource-Enables 7 enabling_request fresh with_site enabled_site

negative_read_back : parse_int64 (print_int (negsuc 41)) ≡ negsuc 41
negative_read_back = parse_int64-print_int (negsuc 41) (omega arith)

largest : parse_int64 (codes "+99999999999999999999") ≡ pos (2 ^ 63 - 1)
unfolding parse_int64 starts_digit text_beq scan
largest = refl

human_bytes-unit_example :
    (5000000 < 1024)
      × (human_bytes (λ n d. print (n / d)) 5000000 ≡ some (print 5000000 ++ codes " B"))
    ⊎ ((k : ℕ) × (letter : ℕ) × (unit_letter k ≡ some letter)
        × (unit_size k ≤ 5000000)
        × (5000000 < unit_size (k + 1))
        × (human_bytes (λ n d. print (n / d)) 5000000
            ≡ some (print (5000000 / unit_size k) ++ b' ' ∷ letter ∷ codes "iB")))
human_bytes-unit_example = human_bytes-unit 5000000 (λ n d. print (n / d)) (omega arith)

abbrev key_request : Request
key_request = record visitor { header = λ name. codes "key" }

abbrev pub report : SensorFlow
report = record {
  flow_key = codes "k1";
  started_at = 10;
  last_seen_at = 20;
  src_ip = codes "100.64.0.1";
  dst_ip = codes "10.0.0.9";
  protocol = codes "tcp";
  src_port = 40000;
  dst_port = 443;
  bytes_tx = 100;
  bytes_rx = 200;
  packets_tx = 1;
  packets_rx = 2;
  ended = true;
}

sensor_flows-cases_example :
    Accepts (some (report ∷ [])) key_request fresh empty_db
    ⊎ Refuses (some (report ∷ [])) key_request fresh empty_db
sensor_flows-cases_example = sensor_flows-cases (some (report ∷ [])) key_request fresh empty_db

abbrev old_row : FlowRow
old_row = record {
  id = 1;
  flow_key = codes "k1";
  started_at = 10;
  last_seen_at = 15;
  ended_at = none;
  user_id = [];
  user_email = codes "ann@x";
  user_name = [];
  peer_id = [];
  peer_name = [];
  src_ip = codes "100.64.0.1";
  src_port = 40000;
  resource_id = 1;
  resource_name = codes "web";
  dst_ip = codes "10.0.0.9";
  dst_port = 443;
  protocol = codes "tcp";
  bytes_tx = 50;
  bytes_rx = 60;
  packets_tx = 1;
  packets_rx = 1;
}

abbrev with_row : Db
with_row = record empty_db { flows = old_row ∷ []; next_flow = 2 }

row_stands : flow_at (codes "k1") with_row ≡ some old_row
unfolding find same byte_le
row_stands = refl

sensor_flows-Continues_example :
    (q : FlowRow) × (flow_at
        (codes "k1")
        (sensor_flows (some (report ∷ [])) key_request (fresh, with_row)).1.1
      ≡ some q)
    × Continues old_row q
sensor_flows-Continues_example =
    sensor_flows-Continues (some (report ∷ [])) key_request fresh with_row (codes "k1") old_row
      row_stands

no_rows : IsUnique key_of []
no_rows k = omega arith

one_key_each :
    IsUnique key_of (sensor_flows (some (report ∷ [])) key_request (fresh, empty_db)).1.1.flows
one_key_each = sensor_flows-IsUnique (some (report ∷ [])) key_request fresh empty_db no_rows
