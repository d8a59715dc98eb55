-- ===== src/Db/Queries.antt =====
-- The tables before and after the methods of internal/db/db.go that only read.
use net_bird_audit.Prelude.{ℕ, ◌≡◌, refl, sym, ◌∙◌, ap, inl, inr}
use net_bird_audit.Db.Collation.{Collation}
use net_bird_audit.Db.Tables.{Db}
use net_bird_audit.Db.Monad.{statement, answer, gets, Result-cases, ◌>>=◌}
use net_bird_audit.Db.Identity.{list_peers}
use net_bird_audit.Db.VpnSessions.{recent_sessions}
use net_bird_audit.Db.Resources.{list_resources, list_resource_views}
use net_bird_audit.Db.Search.{FlowFilter, search_flows}
use net_bird_audit.Db.Names.{flow_users, flow_resources}

-- The tables of `e` are those of `d`.
abbrev pub SameTables : Db → Db → Type 0
SameTables d e = e ≡ record d { outcomes = e.outcomes }

pub SameTables-refl : (d : Db) → SameTables d d
SameTables-refl d = refl

pub SameTables-trans : (d e f : Db) → SameTables d e → SameTables e f → SameTables d f
SameTables-trans d e f p q = q ∙ ap (λ (x : Db). record x { outcomes = f.outcomes }) p

-- One statement that reads.
pub query-SameTables :
    {A : Type 0} (f : Db → A) (d : Db) → SameTables d ((statement >>= (λ _. gets f)) d).1
unfolding statement
query-SameTables f d = elim (Result-cases (answer d.outcomes)) [
  | inl good ↦ rw good refl
  | inr (e, bad) ↦ rw bad refl
]

module _ ⦃c : Collation⦄ where
  pub list_peers-SameTables : (d : Db) → SameTables d (list_peers d).1
  unfolding list_peers
  list_peers-SameTables = query-SameTables _

  pub list_resources-SameTables : (d : Db) → SameTables d (list_resources d).1
  unfolding list_resources
  list_resources-SameTables = query-SameTables _

  pub list_resource_views-SameTables : (d : Db) → SameTables d (list_resource_views d).1
  unfolding list_resource_views
  list_resource_views-SameTables = query-SameTables _

  pub search_flows-SameTables : (f : FlowFilter) (d : Db) → SameTables d (search_flows f d).1
  unfolding search_flows
  search_flows-SameTables f = query-SameTables _

  pub flow_users-SameTables : (d : Db) → SameTables d (flow_users d).1
  unfolding flow_users
  flow_users-SameTables = query-SameTables _

  pub flow_resources-SameTables : (d : Db) → SameTables d (flow_resources d).1
  unfolding flow_resources
  flow_resources-SameTables = query-SameTables _

pub recent_sessions-SameTables : (n : ℕ) (d : Db) → SameTables d (recent_sessions n d).1
unfolding recent_sessions
recent_sessions-SameTables n = query-SameTables _

-- Users, peers, sessions and flows are as in `d`: only the resources, their copies from NetBird and
-- the audit table may differ.
abbrev pub KeepsRecords : Db → Db → Type 0
KeepsRecords d e = e ≡ record d {
  resources = e.resources;
  next_resource = e.next_resource;
  netbird_resources = e.netbird_resources;
  admin_audit = e.admin_audit;
  outcomes = e.outcomes;
}

pub KeepsRecords-trans : (d e f : Db) → KeepsRecords d e → KeepsRecords e f → KeepsRecords d f
KeepsRecords-trans d e f p q =
    q
    ∙ ap
        (λ (x : Db). record x {
          resources = f.resources;
          next_resource = f.next_resource;
          netbird_resources = f.netbird_resources;
          admin_audit = f.admin_audit;
          outcomes = f.outcomes;
        })
        p

pub KeepsRecords-of_SameTables : (d e : Db) → SameTables d e → KeepsRecords d e
KeepsRecords-of_SameTables d e h =
    h
    ∙ ap
        (λ (x : Db). record d {
          resources = x.resources;
          next_resource = x.next_resource;
          netbird_resources = x.netbird_resources;
          admin_audit = x.admin_audit;
          outcomes = e.outcomes;
        })
        (sym h)
