-- ===== src/Db/Tests/Reports.antt =====
-- The theorems on reports of flows at concrete inputs.
use net_bird_audit.Prelude.{
  ◌≡◌, ◌≢◌, ◌⊎◌, refl, codes, Text, true, false, [], ◌∷◌, none, some, arith,
}
use net_bird_audit.Db.Collation.{byte_le, same}
use net_bird_audit.Db.Tables.{Db, Resource, FlowRow, FlowUpsert}
use net_bird_audit.Db.Query.{find}
use net_bird_audit.Db.Query.Keyed.{IsUnique}
use net_bird_audit.Db.Monad.{ok}
use net_bird_audit.Db.Flows.{upsert_flow}
use net_bird_audit.Db.Flows.Rows.{key_of, flow_at, matched, Continues}
use net_bird_audit.Db.Flows.Reports.{
  Reflects, upsert_flow-Continues, upsert_flow-stored, upsert_flow-IsUnique,
}
use net_bird_audit.Db.Tests.{binary_collation, with_web}

abbrev report : FlowUpsert
report = record {
  flow_key = codes "k1";
  started_at = 10;
  last_seen_at = 20;
  src_ip = codes "100.64.0.1";
  dst_ip = codes "10.0.0.9";
  protocol = codes "tcp";
  src_port = 40000;
  dst_port = 443;
  bytes_tx = 100;
  bytes_rx = 200;
  packets_tx = 1;
  packets_rx = 2;
  ended = false;
}

abbrev pub old_row : FlowRow
old_row = record {
  id = 1;
  flow_key = codes "k1";
  started_at = 10;
  last_seen_at = 15;
  ended_at = none;
  user_id = codes "u1";
  user_email = codes "ann@x";
  user_name = codes "Ann";
  peer_id = codes "p1";
  peer_name = codes "laptop";
  src_ip = codes "100.64.0.1";
  src_port = 40000;
  resource_id = 0;
  resource_name = codes "web";
  dst_ip = codes "10.0.0.9";
  dst_port = 443;
  protocol = codes "tcp";
  bytes_tx = 50;
  bytes_rx = 60;
  packets_tx = 1;
  packets_rx = 1;
}

abbrev with_flow : Db
with_flow = record with_web { flows = old_row ∷ []; next_flow = 2 }

old_row_stands : flow_at (codes "k1") with_flow ≡ some old_row
unfolding find same byte_le
old_row_stands = refl

continued_row :
    (q : FlowRow) × (flow_at (codes "k1") (upsert_flow report with_flow).1 ≡ some q)
    × Continues old_row q
continued_row = upsert_flow-Continues report with_flow (codes "k1") old_row old_row_stands

upsert_flow-stored_example :
    ((upsert_flow report with_web).0 ≢ ok true) × ((upsert_flow report with_web).1.flows ≡ [])
    ⊎ ((r : Resource) × (q : FlowRow) × (matched report with_web ≡ some r)
        × ((upsert_flow report with_web).0 ≡ ok true)
        × (flow_at (codes "k1") (upsert_flow report with_web).1 ≡ some q)
        × Reflects report q
        × ((k : Text)
            → same (codes "k1") k ≡ false
            → flow_at k (upsert_flow report with_web).1 ≡ flow_at k with_web))
upsert_flow-stored_example = upsert_flow-stored report with_web

no_flows : IsUnique key_of []
no_flows k = omega arith

one_key : IsUnique key_of (upsert_flow report with_web).1.flows
one_key = upsert_flow-IsUnique report with_web no_flows
