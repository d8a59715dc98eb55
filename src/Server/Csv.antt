-- ===== src/Server/Csv.antt =====
-- exportFlowsCSV of internal/server/server.go, with the writer of encoding/csv.
pub mod RoundTrip
pub mod Exported
use net_bird_audit.Prelude.{
  ℕ, ◌+◌, ◌%◌, ◌^◌, Text, codes, Bool, true, false, ◌||◌, List, [], ◌∷◌, ◌++◌, map, ◌==◌, nat_eq,
  text_eq, none, if◌then◌else◌,
}
use net_bird_audit.Time.{Time}
use net_bird_audit.Time.Calendar.{rfc3339}
use net_bird_audit.Text.{is_space}
use net_bird_audit.Text.Decimal.{print}
use net_bird_audit.Db.Collation.{Collation}
use net_bird_audit.Db.Tables.{Db}
use net_bird_audit.Db.Monad.{Result, ok, err}
use net_bird_audit.Db.Search.{Flow, search_flows}
use net_bird_audit.Server.Types.{World, Handler, csv_file}
use net_bird_audit.Server.Pages.{export_filter}
use net_bird_audit.Server.Template.{add_uint64}

pub has_special : Text → Bool
has_special [] = false
has_special (c ∷ s) = c == 10 || c == 13 || c == b'"' || c == b',' || has_special s

starts_space : Text → Bool
starts_space [] = false
starts_space (c ∷ s) = is_space c

-- fieldNeedsQuotes
pub needs_quotes : Text → Bool
unfolding starts_space
needs_quotes s = s == codes "\\." || has_special s || starts_space s

pub double_quotes : Text → Text
double_quotes [] = []
double_quotes (c ∷ s) =
    let rest = double_quotes s in if c == b'"' then b'"' ∷ b'"' ∷ rest else c ∷ rest

pub write_field : Text → Text
write_field s = if needs_quotes s then b'"' ∷ (double_quotes s ++ b'"' ∷ []) else s

pub write_more : List Text → Text
write_more [] = 10 ∷ []
write_more (f ∷ fs) = b',' ∷ (write_field f ++ write_more fs)

-- Writer.Write: the fields with commas between them, and a line feed.
pub write_record : List Text → Text
unfolding write_more
write_record [] = 10 ∷ []
write_record (f ∷ fs) = write_field f ++ write_more fs

unfoldable pub write_all : List (List Text) → Text
unfolding has_special needs_quotes double_quotes write_field write_record
write_all [] = []
write_all (r ∷ rs) = write_record r ++ write_all rs

pub header : List Text
header =
    codes "started_at"
    ∷ codes "last_seen_at"
    ∷ codes "user"
    ∷ codes "device"
    ∷ codes "source_ip"
    ∷ codes "resource"
    ∷ codes "destination"
    ∷ codes "protocol"
    ∷ codes "traffic_bytes"
    ∷ codes "packets"
    ∷ codes "status"
    ∷ []

user_of : Flow → Text
user_of f = if f.user_email == [] then f.user_name else f.user_email

-- One line of the loop.
unfoldable pub flow_record : Flow → List Text
unfolding user_of
flow_record f =
    rfc3339 f.started_at
    ∷ rfc3339 f.last_seen_at
    ∷ user_of f
    ∷ f.peer_name
    ∷ f.src_ip
    ∷ f.resource_name
    ∷ (f.dst_ip ++ codes ":" ++ print f.dst_port)
    ∷ f.protocol
    ∷ print (add_uint64 f.bytes_tx f.bytes_rx)
    ∷ print (add_uint64 f.packets_tx f.packets_rx)
    ∷ (if f.ended then codes "ended" else codes "active")
    ∷ []

pub flows_or_none : Result (List Flow) → List Flow
flows_or_none (ok fs) = fs
flows_or_none (err e) = []

module _ ⦃c : Collation⦄ where
  -- An error of the search is dropped: the file has the header only then.
  unfoldable pub export_flows_csv : Time → Handler
  unfolding header flows_or_none
  export_flows_csv now r (s, d) =
      let (found, e) = search_flows (export_filter now) d in
      (
        record {
          status = 200;
          location = none;
          cookies = [];
          body = csv_file (write_all (header ∷ map flow_record (flows_or_none found)));
        },
        (s, e),
      )
