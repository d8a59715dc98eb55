-- ===== src/Db/Reports.antt =====
-- TopResources24h and HourlyFlows24h of internal/db/db.go.
pub mod Laws
use net_bird_audit.Prelude.{
  ℕ, ◌+◌, ◌*◌, ◌/◌, ◌^◌, Text, Bool, true, false, List, [], ◌∷◌, Option, none, some, keep, take,
  map, length, if◌then◌else◌, ◌==◌, nat_eq, ltb, leb,
}
use net_bird_audit.Prelude.Int.{ℤ, pos, negsuc}
use net_bird_audit.Time.{Time, hour}
use net_bird_audit.Db.Collation.{Collation, same}
use net_bird_audit.Db.Tables.{Db, FlowRow}
use net_bird_audit.Db.Query.{sort_by}
use net_bird_audit.Db.Query.Grouping.{distinct}
use net_bird_audit.Db.Monad.{M, ◌>>=◌, ◌>>◌, sql_error, statement, gets, fail, pure}
use net_bird_audit.Db.Statistics.{day_before}

pub record ResourceStat : Type 0 where
  pub name : Text
  pub flows : ℕ
  pub bytes : ℕ

pub record HourStat : Type 0 where
  pub hour : Time
  pub flows : ℕ
  pub bytes : ℕ

-- A group of the query: one of its rows, COUNT(*) and SUM(bytes_tx+bytes_rx), a DECIMAL.
pub record Summary : Type 0 where
  pub first : FlowRow
  pub flows : ℕ
  pub bytes : ℕ

plus : Option ℕ → Option ℕ → Option ℕ
plus none n = none
plus (some m) none = none
plus (some m) (some n) = some (m + n)

-- bytes_tx+bytes_rx: a BIGINT UNSIGNED that is out of range is an error of the query.
row_bytes : FlowRow → Option ℕ
row_bytes r = let n = r.bytes_tx + r.bytes_rx in if ltb n (2 ^ 64) then some n else none

pub sum_bytes : List FlowRow → Option ℕ
unfolding plus row_bytes
sum_bytes [] = some 0
sum_bytes (r ∷ rows) = plus (row_bytes r) (sum_bytes rows)

-- One error spoils the list.
pub all_some {ℓ} : {A : Type ℓ} → List (Option A) → Option (List A)
all_some [] = some []
all_some (none ∷ xs) = none
all_some (some x ∷ xs) = elim (all_some xs) [ none ↦ none | some ys ↦ some (x ∷ ys) ]

-- The group of the rows that count as `q`.
pub summarize : (FlowRow → FlowRow → Bool) → List FlowRow → FlowRow → Option Summary
summarize eq rows q =
    let group = keep (λ r. eq q r) rows in
    elim (sum_bytes group) [
      | none ↦ none
      | some n ↦ some (record { first = q; flows = length group; bytes = n })
    ]

-- SELECT … GROUP BY
pub summaries : (FlowRow → FlowRow → Bool) → List FlowRow → Option (List Summary)
unfolding summarize
summaries eq rows = all_some (map (summarize eq rows) (distinct eq rows))

-- The rows of WHERE started_at >= NOW() - INTERVAL 24 HOUR.
pub recent : Time → Db → List FlowRow
recent now s = keep (λ (r : FlowRow). leb (day_before now) r.started_at) s.flows

-- Scan reads the sum into a uint64.
pub resource_stat : Summary → Option ResourceStat
resource_stat g =
    if ltb g.bytes (2 ^ 64)
    then some (record { name = g.first.resource_name; flows = g.flows; bytes = g.bytes })
    else none

-- DATE_FORMAT(started_at, '%Y-%m-%d %H:00:00'), as the moment that time.ParseInLocation reads from
-- it again.
pub hour_of : Time → Time
hour_of t = t / hour * hour

pub hour_stat : Summary → Option HourStat
hour_stat g =
    if ltb g.bytes (2 ^ 64)
    then some (record { hour = hour_of g.first.started_at; flows = g.flows; bytes = g.bytes })
    else none

pub or_error : {A : Type 0} → Option A → M A
or_error none = fail sql_error
or_error (some a) = pure a

-- ORDER BY COUNT(*) DESC
pub busier : Summary → Summary → Bool
busier a b = leb b.flows a.flows

-- ORDER BY h
pub earlier : Summary → Summary → Bool
earlier a b = leb (hour_of a.first.started_at) (hour_of b.first.started_at)

pub same_hour : FlowRow → FlowRow → Bool
same_hour a b = hour_of a.started_at == hour_of b.started_at

-- LIMIT ?: a negative number is an error of the query.
pub limit_rows : ℤ → List Summary → Option (List Summary)
limit_rows (pos n) rows = some (take n rows)
limit_rows (negsuc n) rows = none

-- The rows of a query that did not fail, read one after the other.
pub read_rows : {A : Type 0} → (Summary → Option A) → Option (List Summary) → Option (List A)
read_rows f none = none
read_rows f (some rows) = all_some (map f rows)

pub hourly : List FlowRow → Option (List HourStat)
hourly rows = elim (summaries same_hour rows) [
  | none ↦ none
  | some gs ↦ read_rows hour_stat (some (sort_by earlier gs))
]

unfoldable pub hourly_flows_24h : Time → M (List HourStat)
unfolding plus row_bytes sum_bytes all_some summarize summaries recent hour_of hour_stat or_error
    earlier same_hour read_rows hourly
hourly_flows_24h now = do statement; rows ← gets (recent now); or_error (hourly rows)

module _ ⦃c : Collation⦄ where
  pub same_resource : FlowRow → FlowRow → Bool
  same_resource a b = same a.resource_name b.resource_name

  pub top : ℤ → List FlowRow → Option (List ResourceStat)
  top limit rows = elim (summaries same_resource rows) [
    | none ↦ none
    | some gs ↦ read_rows resource_stat (limit_rows limit (sort_by busier gs))
  ]

  unfoldable pub top_resources_24h : ℤ → Time → M (List ResourceStat)
  unfolding plus row_bytes sum_bytes all_some summarize summaries recent resource_stat or_error
      busier limit_rows same_resource read_rows top
  top_resources_24h limit now = do statement; rows ← gets (recent now); or_error (top limit rows)
