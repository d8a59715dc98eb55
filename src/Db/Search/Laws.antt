-- ===== src/Db/Search/Laws.antt =====
-- What a search returns.
use net_bird_audit.Prelude.{
  ◌≤◌, Text, codes, Bool, true, ◌||◌, List, [], ◌++◌, map, keep, length, In, In-keep, keep-In,
  length-take, ◌==◌, nat_eq, text_eq, text_beq_iff, ◌≡◌, ◌≢◌, ◌⊎◌, inl, inr, arith, Bool-cases,
}
use net_bird_audit.Text.{to_lower}
use net_bird_audit.Db.Collation.{Collation, same}
use net_bird_audit.Db.Tables.{Db, FlowRow}
use net_bird_audit.Db.Query.{sort_by}
use net_bird_audit.Db.Query.Sorting.{IsSorted, sort_by-IsSorted, sort_by-In, In-sort_by}
use net_bird_audit.Db.Query.Pages.{take-In, take-IsSorted, take-rest}
use net_bird_audit.Db.Monad.{ok, statement}
use net_bird_audit.Db.Search.{
  Flow, FlowFilter, flow_of_row, page_size, newer, mentions, wants, page, search_flows,
}

newer-total : (a b : FlowRow) → (newer a b || newer b a) ≡ true
newer-total a b = ground arith

newer_trans : (a b d : FlowRow) → newer a b ≡ true → newer b d ≡ true → newer a d ≡ true
newer_trans a b d h k = ground arith

module _ ⦃c : Collation⦄ where
  -- What a filter asks of a row; a field that is empty, or a start at the zero time, asks nothing.
  pub record Wanted (f : FlowFilter) (r : FlowRow) : Type 0 where
    pub since : f.since ≤ r.started_at
    pub user : f.user ≢ [] → (same r.user_email f.user ≡ true) ⊎ (same r.user_name f.user ≡ true)
    pub resource : f.resource ≢ [] → same r.resource_name f.resource ≡ true
    pub protocol : f.protocol ≢ [] → same r.protocol (to_lower f.protocol) ≡ true
    pub query : f.query ≢ [] → mentions (codes "%" ++ f.query ++ codes "%") r ≡ true

  wants-Wanted : (f : FlowFilter) (r : FlowRow) → wants f r ≡ true → Wanted f r
  unfolding wants
  wants-Wanted f r h = record {
    since = ground arith;
    user = λ given. ground (arith, text_beq_iff f.user []);
    resource = λ given. ground (arith, text_beq_iff f.resource []);
    protocol = λ given. ground (arith, text_beq_iff f.protocol []);
    query = λ given. ground (arith, text_beq_iff f.query []);
  }

  or_empty : (s : Text) (b : Bool) → (s ≢ [] → b ≡ true) → (s == [] || b) ≡ true
  or_empty s b h = elim (Bool-cases (s == [])) [
    | inl empty ↦ ground arith
    | inr given ↦ let e : b ≡ true = h (λ e. ground (arith, text_beq_iff s [])) in ground arith
  ]

  either : (a b : Bool) → (a ≡ true) ⊎ (b ≡ true) → (a || b) ≡ true
  either a b (inl e) = ground arith
  either a b (inr e) = ground arith

  Wanted-wants : (f : FlowFilter) (r : FlowRow) → Wanted f r → wants f r ≡ true
  unfolding wants
  Wanted-wants f r w = ground (
    arith,
    w.since,
    or_empty f.user (same r.user_email f.user || same r.user_name f.user)
        (λ given. either _ _ (w.user given)),
    or_empty f.resource (same r.resource_name f.resource) w.resource,
    or_empty f.protocol (same r.protocol (to_lower f.protocol)) w.protocol,
    or_empty f.query (mentions (codes "%" ++ f.query ++ codes "%") r) w.query,
  )

  page_found :
      (f : FlowFilter) (s : Db) (out : List Flow)
      → (search_flows f s).0 ≡ ok out
      → out ≡ map flow_of_row (page f s.flows)
  unfolding search_flows statement
  page_found f s out h = ground arith

  -- The rows of the page are wanted rows of the table, the one that was seen last first, and no more
  -- than the limit; a wanted row that is missing means that the page is full of rows that were seen
  -- no earlier.
  pub record Page (f : FlowFilter) (table rows : List FlowRow) : Type 0 where
    pub wanted : (r : FlowRow) → In r rows → In r table × Wanted f r
    pub in_order : IsSorted newer rows
    pub bounded : length rows ≤ page_size f.limit
    pub complete :
        (r : FlowRow)
        → In r table
        → Wanted f r
        → In r rows
          ⊎ (length rows ≡ page_size f.limit)
            × ((x : FlowRow) → In x rows → r.last_seen_at ≤ x.last_seen_at)

  page-Page : (f : FlowFilter) (table : List FlowRow) → Page f table (page f table)
  unfolding page
  page-Page f table =
      let kept = keep (wants f) table in
      let sorted = sort_by newer kept in
      let n = page_size f.limit in
      let s : IsSorted newer sorted = sort_by-IsSorted newer newer-total newer_trans kept in
      record {
        wanted = λ r m.
            (let (member, wanted) =
                keep-In (wants f) r table
                  (sort_by-In newer newer-total newer_trans r kept (take-In newer n r sorted m)) in
              (member, wants-Wanted f r wanted));
        in_order = take-IsSorted newer n sorted s;
        bounded = omega (arith, length-take n sorted);
        complete = λ r m w.
            elim (take-rest newer n sorted r s (
              In-sort_by newer newer-total newer_trans r kept
                (In-keep (wants f) r table m (Wanted-wants f r w)))) [
                  | inl on_page ↦ inl on_page
                  | inr (full, before) ↦ inr (full, λ x mx. ground (arith, before x mx))
                ];
      }

  -- If SearchFlows returns no error, its list is made of rows that the filter wants, the one that
  -- was seen last first, and no more than the limit (200, if the filter's is not from 1 to 1000). A
  -- row of the table that the filter wants is left out only if the page is full and no row on it
  -- was seen earlier.
  pub search_flows-Page :
      (f : FlowFilter) (s : Db) (out : List Flow)
      → (search_flows f s).0 ≡ ok out
      → (rows : List FlowRow) × (out ≡ map flow_of_row rows) × Page f s.flows rows
  search_flows-Page f s out h = (page f s.flows, page_found f s out h, page-Page f s.flows)
