-- ===== src/Db/Reports/Laws/Tables.antt =====
-- The tables before and after TopResources24h and HourlyFlows24h of internal/db/db.go.
use net_bird_audit.Prelude.{refl, Option, none, some, List, inl, inr}
use net_bird_audit.Prelude.Int.{ℤ}
use net_bird_audit.Time.{Time}
use net_bird_audit.Db.Collation.{Collation}
use net_bird_audit.Db.Tables.{Db, FlowRow}
use net_bird_audit.Db.Monad.{statement, answer, answers_left, gets, Result-cases, ◌>>=◌}
use net_bird_audit.Db.Queries.{SameTables}
use net_bird_audit.Db.Reports.{recent, or_error, top, hourly, top_resources_24h, hourly_flows_24h}

or_error-same : {A : Type 0} (found : Option A) (d : Db) → SameTables d (or_error found d).1
unfolding or_error
or_error-same none d = refl
or_error-same (some a) d = refl

-- A query of the recent rows, whose result may be out of range.
report-SameTables :
    {A : Type 0} (f : List FlowRow → Option A) (now : Time) (d : Db)
    → SameTables d ((statement >>= (λ _. gets (recent now) >>= (λ rows. or_error (f rows)))) d).1
unfolding statement or_error recent
report-SameTables f now d = elim (Result-cases (answer d.outcomes)) [
  | inr (e, bad) ↦ rw bad refl
  | inl good ↦
      rw good (or_error-same (f (recent now d)) (record d { outcomes = answers_left d.outcomes }))
]

pub hourly_flows_24h-SameTables : (now : Time) (d : Db) → SameTables d (hourly_flows_24h now d).1
unfolding hourly_flows_24h
hourly_flows_24h-SameTables now = report-SameTables hourly now

module _ ⦃c : Collation⦄ where
  pub top_resources_24h-SameTables :
      (limit : ℤ) (now : Time) (d : Db) → SameTables d (top_resources_24h limit now d).1
  unfolding top_resources_24h
  top_resources_24h-SameTables limit now = report-SameTables (top limit) now
