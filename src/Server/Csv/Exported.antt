-- ===== src/Server/Csv/Exported.antt =====
-- The file that exportFlowsCSV of internal/server/server.go makes of the flows.
use net_bird_audit.Prelude.{
  ◌+◌, ◌*◌, ◌%◌, ◌^◌, Text, codes, List, [], ◌∷◌, ◌++◌, Option, none, some, map, length, All, ◌==◌,
  nat_eq, text_eq, text_beq, if◌then◌else◌, ◌≡◌, refl, arith,
}
use net_bird_audit.Prelude.Int.{pos, minus}
use net_bird_audit.Time.{Time, add, hour}
use net_bird_audit.Time.Calendar.{rfc3339}
use net_bird_audit.Text.Decimal.{print}
use net_bird_audit.Db.Collation.{Collation}
use net_bird_audit.Db.Tables.{Db}
use net_bird_audit.Db.Search.{Flow, search_flows}
use net_bird_audit.Server.Types.{World, Request, csv_file}
use net_bird_audit.Server.Pages.{export_filter}
use net_bird_audit.Server.Template.{add_uint64}
use net_bird_audit.Server.Csv.{
  write_all, header, user_of, flow_record, flows_or_none, export_flows_csv,
}
use net_bird_audit.Server.Csv.RoundTrip.{read_csv, record_start, HasField, read_csv-write_all}

header-HasField : HasField header
unfolding header
header-HasField e = absurd (ground arith)

-- The field of a record that stands in the column of a name.
pub field : Text → List Text → List Text → Option Text
field name [] r = none
field name (c ∷ cs) [] = none
field name (c ∷ cs) (v ∷ vs) = let rest = field name cs vs in if c == name then some v else rest

module _ (columns : List Text) where
  -- The record tells of the flow what the names of the columns say: a user by the e-mail address if
  -- there is one, the sums as uint64, and whether the flow has ended.
  pub record Shows (f : Flow) (r : List Text) : Type 0 where
    pub started_at : field (codes "started_at") columns r ≡ some (rfc3339 f.started_at)
    pub last_seen_at : field (codes "last_seen_at") columns r ≡ some (rfc3339 f.last_seen_at)
    pub user :
        field (codes "user") columns r
        ≡ some (if f.user_email == [] then f.user_name else f.user_email)
    pub device : field (codes "device") columns r ≡ some f.peer_name
    pub source_ip : field (codes "source_ip") columns r ≡ some f.src_ip
    pub resource : field (codes "resource") columns r ≡ some f.resource_name
    pub destination :
        field (codes "destination") columns r ≡ some (f.dst_ip ++ codes ":" ++ print f.dst_port)
    pub protocol : field (codes "protocol") columns r ≡ some f.protocol
    pub traffic_bytes :
        field (codes "traffic_bytes") columns r ≡ some (print ((f.bytes_tx + f.bytes_rx) % 2 ^ 64))
    pub packets :
        field (codes "packets") columns r ≡ some (print ((f.packets_tx + f.packets_rx) % 2 ^ 64))
    pub status :
        field (codes "status") columns r ≡ some (if f.ended then codes "ended" else codes "active")

  -- One record for each flow, in order.
  abbrev pub AllShow : List Flow → List (List Text) → Type 0
  AllShow [] [] = Unit
  AllShow [] (r ∷ rs) = ⊥
  AllShow (f ∷ fs) [] = ⊥
  AllShow (f ∷ fs) (r ∷ rs) = Shows f r × AllShow fs rs

flow_record-Shows : (f : Flow) → Shows header f (flow_record f)
unfolding header flow_record user_of field add_uint64 text_beq
flow_record-Shows f = record {
  started_at = refl;
  last_seen_at = refl;
  user = refl;
  device = refl;
  source_ip = refl;
  resource = refl;
  destination = refl;
  protocol = refl;
  traffic_bytes = refl;
  packets = refl;
  status = refl;
}

flow_records-AllShow : (fs : List Flow) → AllShow header fs (map flow_record fs)
flow_records-AllShow [] = tt
flow_records-AllShow (f ∷ fs) = (flow_record-Shows f, flow_records-AllShow fs)

module _ ⦃c : Collation⦄ where
  flow_records-HasField : (fs : List Flow) → All HasField (map flow_record fs)
  unfolding flow_record
  flow_records-HasField [] = tt
  flow_records-HasField (f ∷ fs) = (λ e. absurd (ground arith), flow_records-HasField fs)

  -- The flows of the last 30 days, at most 1000 of them; none if the search fails.
  abbrev pub exported : Time → Db → List Flow
  exported now d =
      flows_or_none
        (search_flows
          (record {
            since = add now (minus (30 * 24 * hour));
            user = [];
            resource = [];
            protocol = [];
            query = [];
            limit = pos 1000;
          })
          d).0

  -- Whatever the flows have in their texts, quotes, commas and line feeds included, a CSV reader
  -- reads the file of the export as a first record with eleven names of columns and then one record
  -- for each flow that the search of the last 30 days found, in their order. The record tells, under
  -- the names, the two times, the e-mail address of the user or else the name, the device, the source,
  -- the resource, the destination with its port, the protocol, the sums of the bytes and of the
  -- packets modulo 2 ^ 64, and whether the flow has ended.
  pub read_csv-export_flows_csv :
      (now : Time) (r : Request) (w : World)
      → (text : Text) × ((export_flows_csv now r w).0.body ≡ csv_file text)
        × ((columns : List Text) × (rows : List (List Text)) × (read_csv record_start text
              ≡ columns ∷ rows)
            × (length columns ≡ 11)
            × AllShow columns (exported now w.1) rows)
  unfolding export_flows_csv export_filter header
  read_csv-export_flows_csv now r (s, d) =
      let found = exported now d in
      (
        write_all (header ∷ map flow_record found),
        refl,
        (
          header,
          map flow_record found,
          read_csv-write_all (header ∷ map flow_record found)
              (header-HasField, flow_records-HasField found),
          refl,
          flow_records-AllShow found,
        ),
      )
