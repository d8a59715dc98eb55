-- ===== src/Server/Lifetime/Laws.antt =====
-- The database of internal/db under everything that the server of internal/server does.
use net_bird_audit.Prelude.{
  Text, List, [], ◌∷◌, Option, some, text_eq, ◌≡◌, inl, inr, refl, ap, ◌∙◌,
}
use net_bird_audit.Time.{Time}
use net_bird_audit.Db.Collation.{Collation}
use net_bird_audit.Db.Tables.{Db, FlowRow}
use net_bird_audit.Db.Frame.{IsValid-SameSessions}
use net_bird_audit.Db.Queries.{KeepsRecords}
use net_bird_audit.Db.Query.Keyed.{IsUnique}
use net_bird_audit.Db.Flows.Rows.{key_of, flow_at, Continues, Continues-refl, Continues-trans}
use net_bird_audit.Db.Flows.Frame.{OnlyFlows}
use net_bird_audit.Db.VpnSessions.Invariant.{IsValid}
use net_bird_audit.Db.VpnSessions.History.{History, History-refl, History-trans}
use net_bird_audit.Server.Types.{Server, World, Request}
use net_bird_audit.Server.Sync.Laws.{sync-IsValid}
use net_bird_audit.Server.Sync.History.{sync-KeepsFlows, sync-History}
use net_bird_audit.Server.SensorApi.{SensorFlow, sensor_flows}
use net_bird_audit.Server.SensorApi.Laws.{
  sensor_flows-Continues, sensor_flows-IsUnique, sensor_flows-OnlyFlows, sensor_heartbeat_database,
}
use net_bird_audit.Server.Routes.{Url, sensor_mux}
use net_bird_audit.Server.Routes.Sensor.{sensor_mux-cases}
use net_bird_audit.Server.Routes.Laws.{public_mux-KeepsRecords}
use net_bird_audit.Server.Lifetime.{
  Round, poll_round, poll_netbird, Step, public_request, sensor_request, polled, started, answers,
  Reach, here, next,
}

module _ ⦃c : Collation⦄ where
  -- The tables keep their invariants: at most one open session for each peer, no session id twice,
  -- the ids below the counter, and no flow key twice.
  pub record Sound (d : Db) : Type 0 where
    pub sessions : IsValid d
    pub flow_keys : IsUnique key_of d.flows

  -- What is on record in `d` is still on record in `e`: every session, with a closed one unchanged,
  -- and every flow under its key.
  pub record Preserves (d e : Db) : Type 0 where
    pub sessions : History d.vpn_sessions e.vpn_sessions
    pub flows :
        (k : Text) (q : FlowRow)
        → flow_at k d ≡ some q
        → (q' : FlowRow) × (flow_at k e ≡ some q') × Continues q q'

  Preserves-refl : (d : Db) → Preserves d d
  Preserves-refl d = record {
    sessions = History-refl d.vpn_sessions;
    flows = λ k q h. (q, h, Continues-refl q);
  }

  Preserves-trans : (d e f : Db) → Preserves d e → Preserves e f → Preserves d f
  Preserves-trans d e f p q = record {
    sessions = History-trans d.vpn_sessions e.vpn_sessions f.vpn_sessions p.sessions q.sessions;
    flows = λ k r h.
        (let (r1, h1, c1) = p.flows k r h in
          let (r2, h2, c2) = q.flows k r1 h1 in (r2, h2, Continues-trans r r1 r2 c1 c2));
  }

  -- Both at once, for one step.
  abbrev Keeps : Db → Db → Type 0
  Keeps d e = Sound e × Preserves d e

  -- Sessions and flows that are the same rows.
  unchanged :
      (d e : Db)
      → e.vpn_sessions ≡ d.vpn_sessions
      → e.next_session ≡ d.next_session
      → e.flows ≡ d.flows
      → Sound d
      → Keeps d e
  unchanged d e rows ids flows v = (
    record {
      sessions = IsValid-SameSessions d e (rows, ids) v.sessions;
      flow_keys = rw flows v.flow_keys;
    },
    record {
      sessions = rw rows (History-refl d.vpn_sessions);
      flows = λ k q h. (q, rw flows h, Continues-refl q);
    },
  )

  keeps_records : (d e : Db) → KeepsRecords d e → Sound d → Keeps d e
  keeps_records d e h v =
      unchanged d e (ap (λ (x : Db). x.vpn_sessions) h) (ap (λ (x : Db). x.next_session) h)
        (ap (λ (x : Db). x.flows) h) v

  reports_kept :
      (body : Option (List SensorFlow)) (r : Request) (s : Server) (d : Db)
      → Sound d
      → Keeps d (sensor_flows body r (s, d)).1.1
  reports_kept body r s d v =
      let e = (sensor_flows body r (s, d)).1.1 in
      let h : OnlyFlows d e = sensor_flows-OnlyFlows body r s d in
      let rows = ap (λ (x : Db). x.vpn_sessions) h in
      (
        record {
          sessions = IsValid-SameSessions d e (rows, ap (λ (x : Db). x.next_session) h) v.sessions;
          flow_keys = sensor_flows-IsUnique body r s d v.flow_keys;
        },
        record {
          sessions = rw rows (History-refl d.vpn_sessions);
          flows = sensor_flows-Continues body r s d;
        },
      )

  same_database : (d e : Db) → e ≡ d → Sound d → Keeps d e
  same_database d e h v = rw h (v, Preserves-refl d)

  sensor_mux-Keeps :
      (body : Option (List SensorFlow)) (now : Time) (interface : Text) (url : Url) (r : Request)
      (s : Server) (d : Db)
      → Sound d
      → Keeps d (sensor_mux body now interface url r (s, d)).1.1
  sensor_mux-Keeps body now interface url r s d v =
      elim (sensor_mux-cases body now interface url r (s, d)) [
        | inl e ↦ same_database d _ (ap (λ (w : World). w.1) e) v
        | inr (inl e) ↦ rw e (reports_kept body r s d v)
        | inr (inr e) ↦
            same_database d _
              (ap (λ (w : World). w.1) e ∙ sensor_heartbeat_database now interface r s d) v
      ]

  poll_round-Keeps :
      (round : Round) (s : Server) (d : Db) → Sound d → Keeps d (poll_round round (s, d)).1
  unfolding poll_round
  poll_round-Keeps round s d v =
      let e = (poll_round round (s, d)).1 in
      let (flows, ids) =
        sync-KeepsFlows round.db_time round.now round.since round.later round.resources s d
          round.users round.peers in
      (
        record {
          sessions =
              sync-IsValid round.db_time round.now round.since round.later round.resources s d
                round.users round.peers v.sessions;
          flow_keys = rw flows v.flow_keys;
        },
        record {
          sessions =
              sync-History round.db_time round.now round.since round.later round.resources s d
                round.users round.peers v.sessions;
          flows = λ k q h. (q, rw flows h, Continues-refl q);
        },
      )

  Keeps-then : (d e f : Db) → Keeps d e → (Sound e → Keeps e f) → Keeps d f
  Keeps-then d e f (sound, preserves) more =
      let (sound', preserves') = more sound in (sound', Preserves-trans d e f preserves preserves')

  poll_netbird-Keeps :
      (first : Round) (ticks : List Round) (w : World)
      → Sound w.1
      → Keeps w.1 (poll_netbird first ticks w).1
  unfolding poll_netbird
  poll_netbird-Keeps first [] (s, d) v = poll_round-Keeps first s d v
  poll_netbird-Keeps first (tick ∷ ticks) (s, d) v =
      let w = poll_round first (s, d) in
      Keeps-then d w.1 (poll_netbird tick ticks w).1 (poll_round-Keeps first s d v)
        (poll_netbird-Keeps tick ticks w)

  Step-Keeps : {u v : World} → Step u v → Sound u.1 → Keeps u.1 v.1
  Step-Keeps (public_request compare out url r (s, d)) v =
      keeps_records d _ (public_mux-KeepsRecords compare out url r s d) v
  Step-Keeps (sensor_request body now interface url r (s, d)) v =
      sensor_mux-Keeps body now interface url r s d v
  Step-Keeps (polled first ticks w) v = poll_netbird-Keeps first ticks w v
  Step-Keeps (started cfg s d) v = (v, Preserves-refl d)
  Step-Keeps (answers s d outcomes) v = unchanged d _ refl refl refl v

  -- Whatever requests come to either server, however often NetBird is polled and whatever it
  -- answers, whichever statements fail, and however often the server is started again: if the tables
  -- are sound at first, every peer has at most one open session, no session id and no flow key
  -- stands twice, no session and no flow goes off the record, a closed session stays as it is, an
  -- open one changes in its end only, and a flow keeps its key, id, start, ends and resource. A flow
  -- that has an end goes on to have one, and a text of its user or peer that is not empty may change
  -- but does not become empty.
  pub Reach-Keeps : {u v : World} → Reach u v → Sound u.1 → Sound v.1 × Preserves u.1 v.1
  Reach-Keeps {u} here v = (v, Preserves-refl u.1)
  Reach-Keeps {u} (next r st) v =
      let (sound, preserves) = Reach-Keeps r v in
      let (sound', preserves') = Step-Keeps st sound in
      (sound', Preserves-trans u.1 _ _ preserves preserves')
