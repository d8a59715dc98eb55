-- ===== src/Db/Flows/Rows.antt =====
-- The two ways through UpsertFlow, and what a report may change in a row.
use net_bird_audit.Prelude.{
  Text, Bool, true, false, [], Option, none, some, ◌≡◌, ◌≢◌, ◌⊎◌, inl, inr, refl, arith, sym, ◌∙◌,
}
use net_bird_audit.Time.{Time}
use net_bird_audit.Db.Collation.{Collation, same, le_text}
use net_bird_audit.Db.Tables.{Db, Resource, FlowRow, FlowUpsert}
use net_bird_audit.Db.Query.{upsert, sort_by}
use net_bird_audit.Db.Query.Keyed.{has, row_at}
use net_bird_audit.Db.Monad.{Result, ok, statement, answer, answers_left, Result-cases}
use net_bird_audit.Db.Identity.{peer_by_ip, peer_row_by_ip}
use net_bird_audit.Db.Resources.{list_resources}
use net_bird_audit.Db.Matching.{match_resource, match_in}
use net_bird_audit.Db.Flows.{
  Identity, identity_of, flow_row, coalesce_ended, coalesce_text, merge_flow, has_key, put_flow,
  store_flow, upsert_flow,
}

abbrev pub key_of : FlowRow → Text
key_of q = q.flow_key

module _ ⦃c : Collation⦄ where
  abbrev pub flow_at : Text → Db → Option FlowRow
  flow_at k s = row_at key_of k s.flows

  -- The resource that MatchResource finds when its query is answered.
  abbrev pub matched : FlowUpsert → Db → Option Resource
  matched f s =
      match_in f.dst_ip f.dst_port f.protocol
        (sort_by (λ (a : Resource) (b : Resource). le_text a.name b.name) s.resources)

  abbrev pub identity : FlowUpsert → Db → Identity
  identity f s = identity_of (peer_row_by_ip f.src_ip s.peers s.users)

  -- The row of the INSERT.
  abbrev pub new_row : FlowUpsert → Resource → Db → FlowRow
  new_row f r s = flow_row s.next_flow f r (identity f s)

  abbrev pub Stores : FlowUpsert → Resource → Db → Result Bool × Db → Type 0
  Stores f r s out =
      (matched f s ≡ some r)
      × (out.0 ≡ ok true)
      × (out.1.flows
          ≡ upsert (has key_of f.flow_key) (merge_flow (new_row f r s)) (new_row f r s) s.flows)

  abbrev pub Idle : Db → Result Bool × Db → Type 0
  Idle s out = (out.0 ≢ ok true) × (out.1.flows ≡ s.flows)

  store_flow-cases :
      (f : FlowUpsert) (found : Option Resource) (s : Db)
      → found ≡ matched f s
      → Idle s (store_flow f found s) ⊎ ((r : Resource) × Stores f r s (store_flow f found s))
  unfolding store_flow peer_by_ip statement put_flow has_key
  store_flow-cases f none s e = inl (cc, refl)
  store_flow-cases f (some r) s e = elim (Result-cases (answer s.outcomes)) [
    | inr (x, bad) ↦ rw bad (inl (cc, refl))
    | inl good ↦ elim (Result-cases (answer (answers_left s.outcomes))) [
      | inr (x, bad) ↦ rw (good, bad) (inl (cc, refl))
      | inl good' ↦ rw (good, good') (inr (r, (sym e, refl, refl)))
    ]
  ]

  -- Either a row is written and the result is true, or the table is as it was and it is not.
  pub upsert_flow-cases :
      (f : FlowUpsert) (s : Db)
      → Idle s (upsert_flow f s) ⊎ ((r : Resource) × Stores f r s (upsert_flow f s))
  unfolding upsert_flow match_resource list_resources statement
  upsert_flow-cases f s = elim (Result-cases (answer s.outcomes)) [
    | inr (x, bad) ↦ rw bad (inl (cc, refl))
    | inl good ↦ rw good (store_flow-cases f (matched f s) (statement s).1 refl)
  ]

  -- What a later report may change in a row, and what it may not.
  abbrev EndedStays : Option Time → Option Time → Type 0
  EndedStays (some t) none = ⊥
  EndedStays _ _ = Unit

  abbrev NotErased : Text → Text → Type 0
  NotErased old new = same old [] ≡ false → same new [] ≡ false

  pub record Continues (q q' : FlowRow) : Type 0 where
    pub id : q'.id ≡ q.id
    pub flow_key : q'.flow_key ≡ q.flow_key
    pub started_at : q'.started_at ≡ q.started_at
    pub source : (q'.src_ip ≡ q.src_ip) × (q'.src_port ≡ q.src_port)
    pub destination :
        (q'.dst_ip ≡ q.dst_ip) × (q'.dst_port ≡ q.dst_port) × (q'.protocol ≡ q.protocol)
    pub resource : (q'.resource_id ≡ q.resource_id) × (q'.resource_name ≡ q.resource_name)
    pub ended : EndedStays q.ended_at q'.ended_at
    pub user :
        NotErased q.user_id q'.user_id
        × NotErased q.user_email q'.user_email
        × NotErased q.user_name q'.user_name
    pub peer : NotErased q.peer_id q'.peer_id × NotErased q.peer_name q'.peer_name

  coalesce_ended-stays : (n o : Option Time) → EndedStays o (coalesce_ended n o)
  unfolding coalesce_ended
  coalesce_ended-stays none none = tt
  coalesce_ended-stays none (some t) = tt
  coalesce_ended-stays (some t) none = tt
  coalesce_ended-stays (some t) (some u) = tt

  coalesce_text-kept : (n o : Text) → NotErased o (coalesce_text n o)
  unfolding coalesce_text
  coalesce_text-kept n o h = ground arith

  pub merge_flow-Continues : (n q : FlowRow) → Continues q (merge_flow n q)
  unfolding merge_flow
  merge_flow-Continues n q = record {
    id = refl;
    flow_key = refl;
    started_at = refl;
    source = (refl, refl);
    destination = (refl, refl, refl);
    resource = (refl, refl);
    ended = coalesce_ended-stays n.ended_at q.ended_at;
    user = (
      coalesce_text-kept n.user_id q.user_id,
      coalesce_text-kept n.user_email q.user_email,
      coalesce_text-kept n.user_name q.user_name,
    );
    peer = (coalesce_text-kept n.peer_id q.peer_id, coalesce_text-kept n.peer_name q.peer_name);
  }

  EndedStays-refl : (o : Option Time) → EndedStays o o
  EndedStays-refl none = tt
  EndedStays-refl (some t) = tt

  pub Continues-refl : (q : FlowRow) → Continues q q
  Continues-refl q = record {
    id = refl;
    flow_key = refl;
    started_at = refl;
    source = (refl, refl);
    destination = (refl, refl, refl);
    resource = (refl, refl);
    ended = EndedStays-refl q.ended_at;
    user = (λ h. h, λ h. h, λ h. h);
    peer = (λ h. h, λ h. h);
  }

  EndedStays-trans : (a b d : Option Time) → EndedStays a b → EndedStays b d → EndedStays a d
  EndedStays-trans none none none p q = tt
  EndedStays-trans none none (some t) p q = tt
  EndedStays-trans none (some u) none p q = tt
  EndedStays-trans none (some u) (some t) p q = tt
  EndedStays-trans (some u) none d p q = absurd p
  EndedStays-trans (some u) (some v) none p q = absurd q
  EndedStays-trans (some u) (some v) (some t) p q = tt

  pub Continues-trans : (a b d : FlowRow) → Continues a b → Continues b d → Continues a d
  Continues-trans a b d p q = record {
    id = q.id ∙ p.id;
    flow_key = q.flow_key ∙ p.flow_key;
    started_at = q.started_at ∙ p.started_at;
    source = (q.source.0 ∙ p.source.0, q.source.1 ∙ p.source.1);
    destination = (
      q.destination.0 ∙ p.destination.0,
      q.destination.1 ∙ p.destination.1,
      q.destination.2 ∙ p.destination.2,
    );
    resource = (q.resource.0 ∙ p.resource.0, q.resource.1 ∙ p.resource.1);
    ended = EndedStays-trans a.ended_at b.ended_at d.ended_at p.ended q.ended;
    user = (λ h. q.user.0 (p.user.0 h), λ h. q.user.1 (p.user.1 h), λ h. q.user.2 (p.user.2 h));
    peer = (λ h. q.peer.0 (p.peer.0 h), λ h. q.peer.1 (p.peer.1 h));
  }
