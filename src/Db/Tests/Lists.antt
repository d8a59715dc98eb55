-- ===== src/Db/Tests/Lists.antt =====
-- The theorems on the lists of names, the statistics and the migration at concrete inputs.
use net_bird_audit.Prelude.{◌≡◌, refl, codes, true, [], ◌∷◌, List, keep, leb, ◌*◌, ◌+◌}
use net_bird_audit.Prelude.Int.{pos}
use net_bird_audit.Time.{hour}
use net_bird_audit.Db.Tables.{Db, FlowRow, empty_db}
use net_bird_audit.Db.Monad.{ok, statement, answer}
use net_bird_audit.Db.Statistics.{day_before}
use net_bird_audit.Db.Query.{sort_by, any}
use net_bird_audit.Db.Query.Grouping.{distinct}
use net_bird_audit.Db.Collation.{byte_le, same}
use net_bird_audit.Db.Reports.{ResourceStat, HourStat, hourly_flows_24h, top_resources_24h}
use net_bird_audit.Db.Reports.Laws.Hours.{HourTotals, hourly_flows_24h-HourTotals}
use net_bird_audit.Db.Reports.Laws.Top.{TopList, top_resources_24h-TopList}
use net_bird_audit.Db.Setup.{Schema, network_flows, users_cache, migrate, exists_in}
use net_bird_audit.Db.Setup.Laws.{migrate-exists}
use net_bird_audit.Db.Tests.{binary_collation}
use net_bird_audit.Db.Tests.Reports.{old_row}

abbrev early : FlowRow
early = record old_row { started_at = 90 * hour }

abbrev late : FlowRow
late = record old_row {
  id = 2;
  started_at = 91 * hour + 5;
  user_email = codes "bob@x";
  resource_name = codes "db";
}

-- The flow of a user without an e-mail address.
abbrev nameless : FlowRow
nameless = record old_row { id = 3; started_at = 91 * hour; user_email = [] }

abbrev three : Db
three = record empty_db { flows = late ∷ nameless ∷ early ∷ [] }

abbrev hours : List HourStat
hours =
    record { hour = 90 * hour; flows = 1; bytes = 110 }
    ∷ record { hour = 91 * hour; flows = 2; bytes = 220 }
    ∷ []

hours_found : (hourly_flows_24h (92 * hour) three).0 ≡ ok hours
unfolding hourly_flows_24h statement answer distinct any sort_by
hours_found = refl

hourly_flows_24h-HourTotals_example :
    HourTotals (keep (λ (r : FlowRow). leb (day_before (92 * hour)) r.started_at) three.flows) hours
hourly_flows_24h-HourTotals_example =
    hourly_flows_24h-HourTotals (92 * hour) three hours hours_found

abbrev top_one : List ResourceStat
top_one = record { name = codes "web"; flows = 2; bytes = 220 } ∷ []

top_found : (top_resources_24h (pos 1) (92 * hour) three).0 ≡ ok top_one
unfolding top_resources_24h statement answer same byte_le distinct any sort_by
top_found = refl

top_resources_24h-TopList_example :
    TopList 1
      (keep (λ (r : FlowRow). leb (day_before (92 * hour)) r.started_at) three.flows)
      top_one
top_resources_24h-TopList_example = top_resources_24h-TopList 1 (92 * hour) three top_one top_found

abbrev old_schema : Schema
old_schema = record { tables = users_cache ∷ []; outcomes = true ∷ true ∷ [] }

flows_table_made :
    (exists_in network_flows old_schema.tables ≡ true
      → exists_in network_flows (migrate old_schema).1.tables ≡ true)
    × ((migrate old_schema).0 ≡ ok tt
        → exists_in network_flows (migrate old_schema).1.tables ≡ true)
flows_table_made = migrate-exists network_flows old_schema
