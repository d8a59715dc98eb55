-- ===== src/Db/Reports/Laws/Top.antt =====
-- The list of TopResources24h of internal/db/db.go.
use net_bird_audit.Prelude.{
  ℕ, ◌≤◌, ◌^◌, Text, true, ◌||◌, List, [], ◌∷◌, some, keep, map, take, length, length-take, In, ltb,
  leb, ◌≡◌, refl, sym, ◌∙◌, ◌⊎◌, inl, inr, arith, Bool-cases, Option-cases,
}
use net_bird_audit.Prelude.Int.{pos}
use net_bird_audit.Time.{Time}
use net_bird_audit.Db.Collation.{Collation, same, same_refl, same-sym, same_trans, same-congr}
use net_bird_audit.Db.Tables.{Db, FlowRow}
use net_bird_audit.Db.Query.{sort_by}
use net_bird_audit.Db.Query.Sorting.{IsSorted, sort_by-IsSorted, sort_by-In, In-sort_by}
use net_bird_audit.Db.Query.Pages.{take-In, take-IsSorted, take-rest}
use net_bird_audit.Db.Query.Grouping.{
  sum_of, Apart, distinct, distinct-covers, distinct-Apart, sort_by-Apart, take-Apart,
}
use net_bird_audit.Db.Monad.{ok, statement, answer, Result-cases}
use net_bird_audit.Db.Statistics.{day_before}
use net_bird_audit.Db.Reports.{
  Summary, ResourceStat, all_some, summarize, summaries, recent, resource_stat, busier,
  same_resource, limit_rows, read_rows, top, top_resources_24h,
}
use net_bird_audit.Db.Reports.Laws.{
  volume, or_error-ok, all_some-In, In-all_some, length-all_some, IsSorted-all_some, Apart-all_some,
  summarize-Group, length-keep,
}

busier-total : (a b : Summary) → (busier a b || busier b a) ≡ true
unfolding busier
busier-total a b = ground arith

busier_trans : (a b d : Summary) → busier a b ≡ true → busier b d ≡ true → busier a d ≡ true
unfolding busier
busier_trans a b d p q = ground arith

resource_stat-some :
    (g : Summary) (x : ResourceStat)
    → resource_stat g ≡ some x
    → (x.name ≡ g.first.resource_name) × (x.flows ≡ g.flows) × (x.bytes ≡ g.bytes)
unfolding resource_stat
resource_stat-some g x h = elim (Bool-cases (ltb g.bytes (2 ^ 64))) [
  | inr big ↦ absurd (ground arith)
  | inl fits ↦
      let e : x ≡ record { name = g.first.resource_name; flows = g.flows; bytes = g.bytes } =
        ground arith in
      rw e (refl, refl, refl)
]

module _ ⦃c : Collation⦄ where
  -- The rows of a resource's name.
  abbrev pub rows_named : Text → List FlowRow → List FlowRow
  rows_named name rows = keep (λ (r : FlowRow). same name r.resource_name) rows

  -- No more than `limit` resources, the busiest first, each once and with the number of its rows and their
  -- bytes; a resource is left out only if there are `limit` others with at least as many rows.
  pub record TopList (limit : ℕ) (rows : List FlowRow) (out : List ResourceStat) : Type 0 where
    pub bounded : length out ≤ limit
    pub in_order : IsSorted (λ (x : ResourceStat) (y : ResourceStat). leb y.flows x.flows) out
    pub once : Apart (λ (x : ResourceStat) (y : ResourceStat). same x.name y.name) out
    pub figures :
        (x : ResourceStat)
        → In x out
        → (x.flows ≡ length (rows_named x.name rows))
          × (x.bytes ≡ sum_of volume (rows_named x.name rows))
    pub complete :
        (r : FlowRow)
        → In r rows
        → ((x : ResourceStat) × In x out × (same x.name r.resource_name ≡ true))
          ⊎ (length out ≡ limit)
            × ((x : ResourceStat) → In x out → length (rows_named r.resource_name rows) ≤ x.flows)

  same_resource_refl : (a : FlowRow) → same_resource a a ≡ true
  unfolding same_resource
  same_resource_refl a = same_refl a.resource_name

  same_resource-sym : (a b : FlowRow) → same_resource a b ≡ same_resource b a
  unfolding same_resource
  same_resource-sym a b = same-sym a.resource_name b.resource_name

  same_resource_trans :
      (a b d : FlowRow)
      → same_resource a b ≡ true
      → same_resource b d ≡ true
      → same_resource a d ≡ true
  unfolding same_resource
  same_resource_trans a b d p q = same_trans a.resource_name b.resource_name d.resource_name p q

  length-rows_named :
      (s t : Text) (rows : List FlowRow)
      → same s t ≡ true
      → length (rows_named s rows) ≡ length (rows_named t rows)
  length-rows_named s t [] e = refl
  length-rows_named s t (r ∷ rows) e =
      ground (arith, length-rows_named s t rows e, same-congr s t r.resource_name e)

  module _ (n : ℕ) (rows : List FlowRow) (gs : List Summary) (out : List ResourceStat)
      (grouped : all_some (map (summarize same_resource rows) (distinct same_resource rows))
        ≡ some gs)
      (listed : all_some (map resource_stat (take n (sort_by busier gs))) ≡ some out) where
    abbrev sorted : List Summary
    sorted = sort_by busier gs

    sorted-IsSorted : IsSorted busier sorted
    sorted-IsSorted = sort_by-IsSorted busier busier-total busier_trans gs

    group_figures :
        (g : Summary)
        → In g gs
        → (g.flows ≡ length (rows_named g.first.resource_name rows))
          × (g.bytes ≡ sum_of volume (rows_named g.first.resource_name rows))
    unfolding same_resource
    group_figures g m =
        let (q, mq, e) =
          all_some-In (summarize same_resource rows) (distinct same_resource rows) gs g grouped m in
        let (first, group) = summarize-Group same_resource rows q g e in
        (group.flows ∙ sym (length-keep _ rows), group.bytes)

    figures_of :
        (x : ResourceStat)
        → In x out
        → (x.flows ≡ length (rows_named x.name rows))
          × (x.bytes ≡ sum_of volume (rows_named x.name rows))
    figures_of x m =
        let (g, mg, e) = all_some-In resource_stat (take n sorted) out x listed m in
        let mg' = sort_by-In busier busier-total busier_trans g gs (take-In busier n g sorted mg) in
        let (name, flows, bytes) = resource_stat-some g x e in
        let (flows', bytes') = group_figures g mg' in rw name (flows ∙ flows', bytes ∙ bytes')

    complete_for :
        (r : FlowRow)
        → In r rows
        → ((x : ResourceStat) × In x out × (same x.name r.resource_name ≡ true))
          ⊎ (length out ≡ n)
            × ((x : ResourceStat) → In x out → length (rows_named r.resource_name rows) ≤ x.flows)
    unfolding same_resource busier
    complete_for r m =
        let (q, mq, eq) =
          distinct-covers same_resource same_resource_refl same_resource-sym same_resource_trans r
            rows m in
        let (g, mg, e) =
          In-all_some (summarize same_resource rows) (distinct same_resource rows) gs q grouped
            mq in
        let (first, group) = summarize-Group same_resource rows q g e in
        elim (take-rest busier n sorted g sorted-IsSorted
          (In-sort_by busier busier-total busier_trans g gs mg)) [
            | inl on_page ↦
                let (x, mx, ex) = In-all_some resource_stat (take n sorted) out g listed on_page in
                inl (x, mx, rw ((resource_stat-some g x ex).0, first) eq)
            | inr (full, before) ↦ inr (
              length-all_some resource_stat (take n sorted) out listed ∙ full,
              λ x mx.
                  (let (h, mh, eh) = all_some-In resource_stat (take n sorted) out x listed mx in
                    ground (
                      arith,
                      before h mh,
                      resource_stat-some h x eh,
                      group_figures g mg,
                      length-rows_named g.first.resource_name r.resource_name rows (rw first eq),
                    )),
            )
          ]

    Apart-names : Apart (λ (x : ResourceStat) (y : ResourceStat). same x.name y.name) out
    unfolding same_resource
    Apart-names =
        let by_first = λ (g : Summary) (h : Summary). same_resource g.first h.first in
        Apart-all_some resource_stat by_first _
          (λ p q x y ep eq differ.
            rw ((resource_stat-some p x ep).0, (resource_stat-some q y eq).0) differ)
          (take n sorted) out listed
          (take-Apart by_first n sorted (
            sort_by-Apart by_first (λ a. same_resource_refl a.first)
              (λ a b. same_resource-sym a.first b.first)
              (λ a b d. same_resource_trans a.first b.first d.first) busier gs
              (Apart-all_some (summarize same_resource rows) same_resource by_first
                (λ p q x y ep eq differ.
                  rw
                    (
                      (summarize-Group same_resource rows p x ep).0,
                      (summarize-Group same_resource rows q y eq).0,
                    )
                    differ)
                (distinct same_resource rows) gs grouped
                (distinct-Apart same_resource same_resource_refl same_resource-sym
                  same_resource_trans rows))))

    TopList-listed : TopList n rows out
    unfolding busier
    TopList-listed = record {
      bounded =
          omega
            (arith, length-all_some resource_stat (take n sorted) out listed, length-take n sorted);
      in_order =
          IsSorted-all_some resource_stat busier _
            (λ p q x y ep eq before.
              ground (arith, resource_stat-some p x ep, resource_stat-some q y eq))
            (take n sorted) out listed (take-IsSorted busier n sorted sorted-IsSorted);
      once = Apart-names;
      figures = figures_of;
      complete = complete_for;
    }

  top-TopList :
      (n : ℕ) (rows : List FlowRow) (out : List ResourceStat)
      → top (pos n) rows ≡ some out
      → TopList n rows out
  unfolding top summaries read_rows limit_rows
  top-TopList n rows out h = elim (Option-cases (summaries same_resource rows)) [
    | inl bad ↦ absurd (ground arith)
    | inr (gs, good) ↦ TopList-listed n rows gs out good (rw (top, good) at h)
  ]

  -- If TopResources24h returns no error, its list has at most `n` resources, those with the most
  -- flows first, each once and with the number and the bytes of the flows of the last 24 hours whose resource
  -- has its name; a resource of such a flow is left out only if the list is full of resources with
  -- at least as many of them.
  pub top_resources_24h-TopList :
      (n : ℕ) (now : Time) (s : Db) (out : List ResourceStat)
      → (top_resources_24h (pos n) now s).0 ≡ ok out
      → TopList n (keep (λ (r : FlowRow). leb (day_before now) r.started_at) s.flows) out
  unfolding top_resources_24h statement recent
  top_resources_24h-TopList n now s out h = elim (Result-cases (answer s.outcomes)) [
    | inr (e, bad) ↦ absurd (ground arith)
    | inl good ↦ top-TopList n (recent now s) out (or_error-ok _ _ out (rw good at h))
  ]
