-- ===== src/Db/Reports/Laws/Hours.antt =====
-- The list of HourlyFlows24h of internal/db/db.go.
use net_bird_audit.Prelude.{
  ℕ, ◌^◌, true, ◌||◌, List, some, keep, map, length, count, In, ltb, leb, ◌==◌, nat_eq, ◌≡◌, refl,
  sym, ◌∙◌, inl, inr, arith, Bool-cases, Option-cases,
}
use net_bird_audit.Time.{Time}
use net_bird_audit.Db.Tables.{Db, FlowRow}
use net_bird_audit.Db.Query.{sort_by}
use net_bird_audit.Db.Query.Sorting.{IsSorted, sort_by-IsSorted, sort_by-In}
use net_bird_audit.Db.Query.Grouping.{
  sum_of, Apart, distinct, distinct-Apart, sort_by-Apart, sum-sort_by, sum-groups,
}
use net_bird_audit.Db.Monad.{ok, statement, answer, Result-cases}
use net_bird_audit.Db.Statistics.{day_before}
use net_bird_audit.Db.Reports.{
  Summary, HourStat, all_some, summarize, summaries, recent, hour_of, hour_stat, earlier, same_hour,
  read_rows, hourly, hourly_flows_24h,
}
use net_bird_audit.Db.Reports.Laws.{
  volume, length-sum, length-keep, all_some-In, sum-all_some, IsSorted-all_some, Apart-all_some,
  Group, summarize-Group, or_error-ok,
}

same_hour_refl : (a : FlowRow) → same_hour a a ≡ true
unfolding same_hour
same_hour_refl a = ground arith

same_hour-sym : (a b : FlowRow) → same_hour a b ≡ same_hour b a
unfolding same_hour
same_hour-sym a b = ground arith

same_hour_trans :
    (a b d : FlowRow) → same_hour a b ≡ true → same_hour b d ≡ true → same_hour a d ≡ true
unfolding same_hour
same_hour_trans a b d p q = ground arith

earlier-total : (a b : Summary) → (earlier a b || earlier b a) ≡ true
unfolding earlier
earlier-total a b = ground arith

earlier_trans : (a b d : Summary) → earlier a b ≡ true → earlier b d ≡ true → earlier a d ≡ true
unfolding earlier
earlier_trans a b d p q = ground arith

-- The bars for the rows: each hour that has rows once, in their order, with the number of its rows
-- and their bytes.
pub record HourTotals (rows : List FlowRow) (out : List HourStat) : Type 0 where
  pub all_flows : sum_of (λ (x : HourStat). x.flows) out ≡ length rows
  pub all_bytes : sum_of (λ (x : HourStat). x.bytes) out ≡ sum_of volume rows
  pub in_order : IsSorted (λ (x : HourStat) (y : HourStat). leb x.hour y.hour) out
  pub once : Apart (λ (x : HourStat) (y : HourStat). x.hour == y.hour) out
  pub flows :
      (x : HourStat)
      → In x out
      → x.flows ≡ count (λ (r : FlowRow). x.hour == hour_of r.started_at) rows

hour_stat-some :
    (g : Summary) (x : HourStat)
    → hour_stat g ≡ some x
    → (x.hour ≡ hour_of g.first.started_at) × (x.flows ≡ g.flows) × (x.bytes ≡ g.bytes)
unfolding hour_stat
hour_stat-some g x h = elim (Bool-cases (ltb g.bytes (2 ^ 64))) [
  | inr big ↦ absurd (ground arith)
  | inl fits ↦
      let e : x ≡ record { hour = hour_of g.first.started_at; flows = g.flows; bytes = g.bytes } =
        ground arith in
      rw e (refl, refl, refl)
]

module _ (rows : List FlowRow) (gs : List Summary) (out : List HourStat)
    (grouped : summaries same_hour rows ≡ some gs)
    (listed : read_rows hour_stat (some (sort_by earlier gs)) ≡ some out) where
  listed' : all_some (map hour_stat (sort_by earlier gs)) ≡ some out
  unfolding read_rows
  listed' = listed

  grouped' : all_some (map (summarize same_hour rows) (distinct same_hour rows)) ≡ some gs
  unfolding summaries
  grouped' = grouped

  total_over :
      (m : Summary → ℕ) (n : HourStat → ℕ) (f : FlowRow → ℕ)
      → ((g : Summary) (x : HourStat) → hour_stat g ≡ some x → n x ≡ m g)
      → ((q : FlowRow) (g : Summary)
          → summarize same_hour rows q ≡ some g
          → m g ≡ sum_of f (keep (λ r. same_hour q r) rows))
      → sum_of n out ≡ sum_of f rows
  total_over m n f reads groups =
      sum-all_some hour_stat m n reads (sort_by earlier gs) out listed'
      ∙ sum-sort_by earlier m gs
      ∙ sum-all_some (summarize same_hour rows) (λ q. sum_of f (keep (λ r. same_hour q r) rows)) m
          groups (distinct same_hour rows) gs grouped'
      ∙ sum-groups same_hour same_hour_refl same_hour-sym same_hour_trans f rows

  summary_at :
      (q : FlowRow) (g : Summary)
      → summarize same_hour rows q ≡ some g
      → (g.first ≡ q) × Group same_hour rows g
  summary_at q g = summarize-Group same_hour rows q g

  length_of_group :
      (q : FlowRow) (g : Summary)
      → summarize same_hour rows q ≡ some g
      → g.flows ≡ sum_of (λ r. 1) (keep (λ r. same_hour q r) rows)
  length_of_group q g e =
      let (first, group) = summary_at q g e in
      group.flows ∙ rw first (sym (length-keep (λ r. same_hour q r) rows) ∙ length-sum _)

  bytes_of_group :
      (q : FlowRow) (g : Summary)
      → summarize same_hour rows q ≡ some g
      → g.bytes ≡ sum_of volume (keep (λ r. same_hour q r) rows)
  bytes_of_group q g e = let (first, group) = summary_at q g e in group.bytes ∙ rw first refl

  flows_of_hour :
      (x : HourStat)
      → In x out
      → x.flows ≡ count (λ (r : FlowRow). x.hour == hour_of r.started_at) rows
  unfolding same_hour
  flows_of_hour x m =
      let (g, mg, e) = all_some-In hour_stat (sort_by earlier gs) out x listed' m in
      let mg' = sort_by-In earlier earlier-total earlier_trans g gs mg in
      let (q, mq, eq) =
        all_some-In (summarize same_hour rows) (distinct same_hour rows) gs g grouped' mg' in
      let (first, group) = summary_at q g eq in
      let (hour, flows, bytes) = hour_stat-some g x e in flows ∙ group.flows ∙ rw hour refl

  Apart-hours : Apart (λ (x : HourStat) (y : HourStat). x.hour == y.hour) out
  unfolding same_hour
  Apart-hours =
      let by_first = λ (g : Summary) (h : Summary). same_hour g.first h.first in
      Apart-all_some hour_stat by_first _
        (λ p q x y ep eq differ. ground (arith, hour_stat-some p x ep, hour_stat-some q y eq))
        (sort_by earlier gs) out listed'
        (sort_by-Apart by_first (λ a. same_hour_refl a.first) (λ a b. same_hour-sym a.first b.first)
          (λ a b d. same_hour_trans a.first b.first d.first) earlier gs
          (Apart-all_some (summarize same_hour rows) same_hour by_first
            (λ p q x y ep eq differ. rw (summary_at p x ep).0 (rw (summary_at q y eq).0 differ))
            (distinct same_hour rows) gs grouped'
            (distinct-Apart same_hour same_hour_refl same_hour-sym same_hour_trans rows)))

  IsSorted-hours : IsSorted (λ (x : HourStat) (y : HourStat). leb x.hour y.hour) out
  unfolding earlier
  IsSorted-hours =
      IsSorted-all_some hour_stat earlier _
        (λ p q x y ep eq before. ground (arith, hour_stat-some p x ep, hour_stat-some q y eq))
        (sort_by earlier gs) out listed' (sort_by-IsSorted earlier earlier-total earlier_trans gs)

  HourTotals-listed : HourTotals rows out
  HourTotals-listed = record {
    all_flows =
        total_over (λ g. g.flows) (λ x. x.flows) (λ r. 1) (λ g x e. (hour_stat-some g x e).1)
          length_of_group
        ∙ sym (length-sum rows);
    all_bytes =
        total_over (λ g. g.bytes) (λ x. x.bytes) volume (λ g x e. (hour_stat-some g x e).2)
          bytes_of_group;
    in_order = IsSorted-hours;
    once = Apart-hours;
    flows = flows_of_hour;
  }

hourly-HourTotals :
    (rows : List FlowRow) (out : List HourStat) → hourly rows ≡ some out → HourTotals rows out
unfolding hourly
hourly-HourTotals rows out h = elim (Option-cases (summaries same_hour rows)) [
  | inl bad ↦ absurd (ground arith)
  | inr (gs, good) ↦ HourTotals-listed rows gs out good (ground arith)
]

-- If HourlyFlows24h returns no error, its bars have the hours in which a flow of the last 24 hours
-- has started, each once and in order of time, each with the number of those flows; over all bars
-- the numbers add up to the number of the flows of the last 24 hours, and the bytes to their bytes.
pub hourly_flows_24h-HourTotals :
    (now : Time) (s : Db) (out : List HourStat)
    → (hourly_flows_24h now s).0 ≡ ok out
    → HourTotals (keep (λ (r : FlowRow). leb (day_before now) r.started_at) s.flows) out
unfolding hourly_flows_24h statement recent
hourly_flows_24h-HourTotals now s out h = elim (Result-cases (answer s.outcomes)) [
  | inr (e, bad) ↦ absurd (ground arith)
  | inl good ↦ hourly-HourTotals (recent now s) out (or_error-ok _ _ out (rw good at h))
]
