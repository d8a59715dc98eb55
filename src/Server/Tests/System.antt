-- ===== src/Server/Tests/System.antt =====
-- The theorems on the servers as a whole, their routes and the export at concrete inputs.
use net_bird_audit.Prelude.{
  length, List, ◌≡◌, refl, codes, Text, true, false, [], ◌∷◌, none, some, Bool, ◌*◌, arith,
  text_beq,
}
use net_bird_audit.Time.{second}
use net_bird_audit.Text.{split}
use net_bird_audit.Text.Decimal.{print_padded}
use net_bird_audit.Time.Calendar.{rfc3339, date_of_day, clock_text}
use net_bird_audit.Db.Tables.{empty_db}
use net_bird_audit.Db.Queries.{SameTables, KeepsRecords}
use net_bird_audit.Server.Types.{World, Request, csv_file}
use net_bird_audit.Server.Access.Laws.{Admitted}
use net_bird_audit.Server.Csv.{export_flows_csv}
use net_bird_audit.Server.Csv.RoundTrip.{read_csv, record_start}
use net_bird_audit.Server.Csv.Exported.{AllShow, exported, read_csv-export_flows_csv}
use net_bird_audit.Server.Routes.{Url, Outside, clean_path, public_mux, sensor_mux}
use net_bird_audit.Server.Routes.Laws.{
  KeptOut, public_mux-SameTables, public_mux-KeepsRecords, public_mux-KeptOut,
}
use net_bird_audit.Server.Lifetime.{
  Round, poll_netbird, here, next, public_request, sensor_request, polled, listener_ended,
  context_done, run_result,
}
use net_bird_audit.Server.Lifetime.Laws.{Sound, Preserves, Reach-Keeps}
use net_bird_audit.Server.Tests.{binary_collation, fresh, surroundings}
use net_bird_audit.Server.Tests.Routes.{visitor, report}
use net_bird_audit.Server.Tests.Polls.{ann, laptop, empty-IsValid}
use net_bird_audit.Server.Tests.Views.{clock, with_rows}

abbrev no_query : Text → Text
no_query name = []

abbrev url_of : Text → Url
url_of path = record { path = path; raw_query = []; query = no_query }

abbrev outside : Outside
outside = record {
  valid_time = 10;
  valid_later = 11;
  signing_in = surroundings;
  view = record { base = clock; search_time = 12; top_time = 13; hourly_time = 14 };
  export_time = 15;
  db_time = 16;
  sync_time = 17;
  netbird_resources = none;
}

abbrev same_hash : Text → Text → Bool
same_hash a b = true

abbrev reading : Request
reading = record visitor { method = codes "GET" }

public_mux-SameTables_example :
    SameTables with_rows
      (public_mux same_hash outside (url_of (codes "/access-logs")) reading (fresh, with_rows)).1.1
public_mux-SameTables_example =
    public_mux-SameTables same_hash outside (url_of (codes "/access-logs")) reading fresh with_rows
      refl

records_kept :
    KeepsRecords with_rows
      (public_mux same_hash outside
        (url_of (codes "/resources/delete"))
        visitor
        (fresh, with_rows)).1.1
records_kept =
    public_mux-KeepsRecords same_hash outside (url_of (codes "/resources/delete")) visitor fresh
      with_rows

no_token : ¬ Admitted 10 11 fresh reading
no_token (token, has, _, _) = absurd (ground arith)

public_mux-KeptOut_example :
    KeptOut with_rows
      (public_mux same_hash outside (url_of (codes "/export/flows.csv")) reading (fresh, with_rows))
public_mux-KeptOut_example =
    public_mux-KeptOut same_hash outside (url_of (codes "/export/flows.csv")) reading fresh
      with_rows no_token

read_csv-export_flows_csv_example :
    (text : Text) × ((export_flows_csv 15 reading (fresh, with_rows)).0.body ≡ csv_file text)
    × ((columns : List Text) × (rows : List (List Text)) × (read_csv record_start text
          ≡ columns ∷ rows)
        × (length columns ≡ 11)
        × AllShow columns (exported 15 with_rows) rows)
read_csv-export_flows_csv_example = read_csv-export_flows_csv 15 reading (fresh, with_rows)

-- A sensor reports, NetBird is polled twice, and a visitor tries to delete a resource.

abbrev w0 : World
w0 = (fresh, empty_db)

abbrev w1 : World
w1 = (sensor_mux (some (report ∷ [])) 20 [] (url_of (codes "/api/v1/flows")) visitor w0).1

abbrev poll : Round
poll = record {
  db_time = λ n. 50;
  now = 60;
  since = 61;
  later = 62;
  users = some (ann ∷ []);
  peers = some (laptop ∷ []);
  resources = none;
}

abbrev w2 : World
w2 = poll_netbird poll (poll ∷ []) w1

abbrev w3 : World
w3 = (public_mux same_hash outside (url_of (codes "/resources/delete")) visitor w2).1

empty-Sound : Sound empty_db
empty-Sound = record { sessions = empty-IsValid; flow_keys = λ k. omega arith }

Reach-Keeps_example : Sound w3.1 × Preserves empty_db w3.1
Reach-Keeps_example =
    Reach-Keeps {u = w0} {v = w3}
      (next
        (next
          (next here
            (sensor_request (some (report ∷ [])) 20 [] (url_of (codes "/api/v1/flows")) visitor w0))
          (polled poll (poll ∷ []) w1))
        (public_request same_hash outside (url_of (codes "/resources/delete")) visitor w2))
      empty-Sound

dots : clean_path (codes "//access-logs/./x/..") ≡ codes "/access-logs"
unfolding clean_path split text_beq
dots = refl

listener_error :
    run_result (listener_ended true ∷ listener_ended false ∷ context_done ∷ []) ≡ some false
unfolding run_result
listener_error = refl

new_year : rfc3339 (second * 86400 * 365) ≡ codes "0002-01-01T00:00:00Z"
unfolding rfc3339 print_padded date_of_day clock_text
new_year = refl
