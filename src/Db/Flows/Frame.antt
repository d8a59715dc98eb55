-- ===== src/Db/Flows/Frame.antt =====
-- The tables before and after UpsertFlow of internal/db/db.go.
use net_bird_audit.Prelude.{Option, none, some, ◌≡◌, refl, ◌∙◌, ap, inl, inr, Bool, true}
use net_bird_audit.Db.Collation.{Collation}
use net_bird_audit.Db.Tables.{Db, Resource, FlowUpsert, Peer, User}
use net_bird_audit.Db.Monad.{
  M, ok, statement, answer, answers_left, Result-cases, ◌>>=◌, ◌>>◌, modify, pure,
}
use net_bird_audit.Db.Identity.{peer_by_ip}
use net_bird_audit.Db.Resources.{list_resources}
use net_bird_audit.Db.Matching.{match_resource}
use net_bird_audit.Db.Flows.{identity_of, put_flow, store_flow, upsert_flow}

-- The tables are those of `d`, but for the flows.
abbrev pub OnlyFlows : Db → Db → Type 0
OnlyFlows d e = e ≡ record d { flows = e.flows; next_flow = e.next_flow; outcomes = e.outcomes }

pub OnlyFlows-trans : (d e f : Db) → OnlyFlows d e → OnlyFlows e f → OnlyFlows d f
OnlyFlows-trans d e f p q =
    q
    ∙ ap (λ (x : Db). record x { flows = f.flows; next_flow = f.next_flow; outcomes = f.outcomes })
        p

module _ ⦃c : Collation⦄ where
  -- What follows a query that may fail.
  after_query :
      {A : Type 0} (f : Db → A) (k : A → M Bool)
      → ((a : A) (e : Db) → OnlyFlows e (k a e).1)
      → (d : Db) → OnlyFlows d (((statement >>= (λ _. (λ s. (ok (f s), s)))) >>= k) d).1
  unfolding statement
  after_query f k h d = elim (Result-cases (answer d.outcomes)) [
    | inr (x, bad) ↦ rw bad refl
    | inl good ↦
        let t = record d { outcomes = answers_left d.outcomes } in
        rw good (OnlyFlows-trans d t (k (f t) t).1 refl (h (f t) t))
  ]

  written :
      (f : FlowUpsert) (r : Resource) (found : Option (Peer × User)) (d : Db)
      → OnlyFlows d ((do statement; modify (put_flow f r (identity_of found)); pure true) d).1
  unfolding statement put_flow
  written f r found d = elim (Result-cases (answer d.outcomes)) [
    | inr (x, bad) ↦ rw bad refl
    | inl good ↦ rw good refl
  ]

  store_flow-OnlyFlows :
      (f : FlowUpsert) (found : Option Resource) (d : Db) → OnlyFlows d (store_flow f found d).1
  unfolding store_flow peer_by_ip
  store_flow-OnlyFlows f none d = refl
  store_flow-OnlyFlows f (some r) d = after_query _ _ (written f r) d

  pub upsert_flow-OnlyFlows : (f : FlowUpsert) (d : Db) → OnlyFlows d (upsert_flow f d).1
  unfolding upsert_flow match_resource list_resources statement
  upsert_flow-OnlyFlows f d = elim (Result-cases (answer d.outcomes)) [
    | inr (x, bad) ↦ rw bad refl
    | inl good ↦
        let t = record d { outcomes = answers_left d.outcomes } in
        rw good (OnlyFlows-trans d t (store_flow f _ t).1 refl (store_flow-OnlyFlows f _ t))
  ]
