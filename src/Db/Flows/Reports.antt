-- ===== src/Db/Flows/Reports.antt =====
-- What a report of a flow does to the table, on every path.
use net_bird_audit.Prelude.{
  Text, Bool, true, false, List, Option, none, some, if◌then◌else◌, ◌≡◌, ◌≢◌, ◌⊎◌, inl, inr, refl,
  arith, Bool-cases, ◌∙◌, ap,
}
use net_bird_audit.Db.Collation.{Collation, same, same_refl}
use net_bird_audit.Db.Tables.{Db, Resource, FlowRow, FlowUpsert}
use net_bird_audit.Db.Query.Keyed.{
  row_at, written, IsUnique, row_at-upsert, row_at-same, upsert-IsUnique,
}
use net_bird_audit.Db.Monad.{Result, ok}
use net_bird_audit.Db.Flows.{ended_at_of, flow_row, coalesce_ended, merge_flow, upsert_flow}
use net_bird_audit.Db.Flows.Rows.{
  key_of, flow_at, matched, new_row, Stores, upsert_flow-cases, Continues, merge_flow-Continues,
  Continues-refl,
}

module _ ⦃c : Collation⦄ where
  merge-key : (n q : FlowRow) → key_of (merge_flow n q) ≡ key_of q
  unfolding merge_flow
  merge-key n q = refl

  flow_at-Stores :
      (f : FlowUpsert) (r : Resource) (s : Db) (k : Text) (out : Result Bool × Db)
      → Stores f r s out
      → flow_at k out.1 ≡ (
          if same f.flow_key k
          then some (written (merge_flow (new_row f r s)) (new_row f r s) (flow_at f.flow_key s))
          else flow_at k s)
  unfolding flow_row
  flow_at-Stores f r s k out stores =
      ap (λ (rows : List FlowRow). row_at key_of k rows) stores.2
      ∙ row_at-upsert key_of (merge_flow (new_row f r s)) (merge-key (new_row f r s))
          (new_row f r s) k s.flows

  continued :
      (n q : FlowRow) (old : Option FlowRow)
      → old ≡ some q
      → (q' : FlowRow) × (some (written (merge_flow n) n old) ≡ some q') × Continues q q'
  continued n q none h = absurd (cc)
  continued n q (some p) h =
      let e : p ≡ q = ground arith in (merge_flow n p, refl, rw (← e) (merge_flow-Continues n p))

  -- Whatever a report says and however it ends, every row stays in the table under its key, with
  -- its id, start, ends and resource; an ended flow stays ended, and no identity text that is not
  -- empty becomes empty.
  pub upsert_flow-Continues :
      (f : FlowUpsert) (s : Db) (k : Text) (q : FlowRow)
      → flow_at k s ≡ some q
      → (q' : FlowRow) × (flow_at k (upsert_flow f s).1 ≡ some q') × Continues q q'
  upsert_flow-Continues f s k q h = elim (upsert_flow-cases f s) [
    | inl (_, rows) ↦ (q, ap (λ (xs : List FlowRow). row_at key_of k xs) rows ∙ h, Continues-refl q)
    | inr (r, stores) ↦ elim (Bool-cases (same f.flow_key k)) [
      | inl hit ↦
          let e : flow_at f.flow_key s ≡ some q = row_at-same key_of f.flow_key k s.flows hit ∙ h in
          let (q', eq, cont) = continued (new_row f r s) q (flow_at f.flow_key s) e in
          (q', flow_at-Stores f r s k (upsert_flow f s) stores ∙ (rw hit eq), cont)
      | inr miss ↦
          (q, flow_at-Stores f r s k (upsert_flow f s) stores ∙ (rw miss h), Continues-refl q)
    ]
  ]

  -- The row has what the report says of the traffic.
  abbrev pub Reflects : FlowUpsert → FlowRow → Type 0
  Reflects f q =
      (q.last_seen_at ≡ f.last_seen_at)
      × (q.bytes_tx ≡ f.bytes_tx)
      × (q.bytes_rx ≡ f.bytes_rx)
      × (q.packets_tx ≡ f.packets_tx)
      × (q.packets_rx ≡ f.packets_rx)
      × (f.ended ≡ true → q.ended_at ≡ some f.last_seen_at)

  written-Reflects :
      (f : FlowUpsert) (r : Resource) (s : Db) (old : Option FlowRow)
      → Reflects f (written (merge_flow (new_row f r s)) (new_row f r s) old)
  unfolding flow_row merge_flow ended_at_of coalesce_ended
  written-Reflects f r s none = ground arith
  written-Reflects f r s (some q) = ground arith

  -- A report is stored, with the result true, only for a destination that a resource matches; the
  -- row under its key then has its counters and its end, and the rows under other keys are as they
  -- were. With any other result no row is changed.
  pub upsert_flow-stored :
      (f : FlowUpsert) (s : Db)
      → ((upsert_flow f s).0 ≢ ok true) × ((upsert_flow f s).1.flows ≡ s.flows)
        ⊎ ((r : Resource) × (q : FlowRow) × (matched f s ≡ some r)
            × ((upsert_flow f s).0 ≡ ok true)
            × (flow_at f.flow_key (upsert_flow f s).1 ≡ some q)
            × Reflects f q
            × ((k : Text)
                → same f.flow_key k ≡ false
                → flow_at k (upsert_flow f s).1 ≡ flow_at k s))
  upsert_flow-stored f s = elim (upsert_flow-cases f s) [
    | inl idle ↦ inl idle
    | inr (r, stores) ↦ inr (
      r,
      written (merge_flow (new_row f r s)) (new_row f r s) (flow_at f.flow_key s),
      stores.0,
      stores.1,
      flow_at-Stores f r s f.flow_key (upsert_flow f s) stores ∙ (rw (same_refl f.flow_key)),
      written-Reflects f r s (flow_at f.flow_key s),
      λ k other. flow_at-Stores f r s k (upsert_flow f s) stores ∙ (rw other),
    )
  ]

  -- Flow keys stay unique.
  pub upsert_flow-IsUnique :
      (f : FlowUpsert) (s : Db)
      → IsUnique key_of s.flows
      → IsUnique key_of (upsert_flow f s).1.flows
  unfolding flow_row
  upsert_flow-IsUnique f s u = elim (upsert_flow-cases f s) [
    | inl (_, rows) ↦ rw rows u
    | inr (r, stores) ↦ rw stores.2 (
        upsert-IsUnique key_of (merge_flow (new_row f r s)) (merge-key (new_row f r s))
          (new_row f r s) s.flows u)
  ]
