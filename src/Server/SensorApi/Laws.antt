-- ===== src/Server/SensorApi/Laws.antt =====
-- What a request of the sensor does to the table of flows.
use net_bird_audit.Prelude.{
  ℕ, ap, sym, ◌∙◌, Text, codes, List, [], ◌∷◌, Option, none, some, ◌==◌, text_eq, text_beq_iff,
  nat_eq, ◌≡◌, ◌≢◌, ◌⊎◌, inl, inr, refl, arith, Bool-cases,
}
use net_bird_audit.Time.{Time}
use net_bird_audit.Db.Collation.{Collation}
use net_bird_audit.Db.Tables.{Db, FlowRow}
use net_bird_audit.Db.Query.Keyed.{IsUnique}
use net_bird_audit.Db.Flows.{upsert_flow}
use net_bird_audit.Db.Flows.Rows.{key_of, flow_at, Continues, Continues-refl, Continues-trans}
use net_bird_audit.Db.Flows.Frame.{OnlyFlows, OnlyFlows-trans, upsert_flow-OnlyFlows}
use net_bird_audit.Db.Flows.Reports.{upsert_flow-Continues, upsert_flow-IsUnique}
use net_bird_audit.Server.Types.{Server, Request}
use net_bird_audit.Server.SensorApi.{
  SensorFlow, upsert_of, key_ok, with_key, store_flows, take_flows, sensor_flows, sensor_heartbeat,
}

module _ ⦃c : Collation⦄ where
  store_flows-Continues :
      (fs : List SensorFlow) (d : Db) (k : Text) (q : FlowRow)
      → flow_at k d ≡ some q
      → (q' : FlowRow) × (flow_at k (store_flows fs d).1 ≡ some q') × Continues q q'
  unfolding store_flows
  store_flows-Continues [] d k q h = (q, h, Continues-refl q)
  store_flows-Continues (f ∷ fs) d k q h =
      let (p, at, first) = upsert_flow-Continues (upsert_of f) d k q h in
      let (q', at', rest) = store_flows-Continues fs (upsert_flow (upsert_of f) d).1 k p at in
      (q', at', Continues-trans q p q' first rest)

  store_flows-IsUnique :
      (fs : List SensorFlow) (d : Db)
      → IsUnique key_of d.flows
      → IsUnique key_of (store_flows fs d).1.flows
  unfolding store_flows
  store_flows-IsUnique [] d u = u
  store_flows-IsUnique (f ∷ fs) d u =
      store_flows-IsUnique fs (upsert_flow (upsert_of f) d).1
        (upsert_flow-IsUnique (upsert_of f) d u)

  -- The request is a POST with the key of the configuration.
  abbrev pub Authorized : Server → Request → Type 0
  Authorized s r = (r.method ≡ codes "POST") × (r.header (codes "X-Sensor-Key") ≡ s.cfg.sensor_key)

  -- The database after each report was given to UpsertFlow in its turn, field by field.
  abbrev pub after_reports : List SensorFlow → Db → Db
  after_reports [] d = d
  after_reports (f ∷ fs) d =
      after_reports fs
        (upsert_flow
          (record {
            flow_key = f.flow_key;
            started_at = f.started_at;
            last_seen_at = f.last_seen_at;
            src_ip = f.src_ip;
            dst_ip = f.dst_ip;
            protocol = f.protocol;
            src_port = f.src_port;
            dst_port = f.dst_port;
            bytes_tx = f.bytes_tx;
            bytes_rx = f.bytes_rx;
            packets_tx = f.packets_tx;
            packets_rx = f.packets_rx;
            ended = f.ended;
          })
          d).1

  -- The first reason for which a request is refused, with the status that it has.
  abbrev pub RefusedAs : Option (List SensorFlow) → Request → Server → ℕ → Type 0
  RefusedAs body r s status =
      ((r.method ≢ codes "POST") × (status ≡ 405))
      ⊎ (((r.method ≡ codes "POST")
            × (r.header (codes "X-Sensor-Key") ≢ s.cfg.sensor_key)
            × (status ≡ 401))
          ⊎ (Authorized s r × (body ≡ none) × (status ≡ 400)))

  abbrev pub Accepts : Option (List SensorFlow) → Request → Server → Db → Type 0
  Accepts body r s d =
      Authorized s r
      × ((fs : List SensorFlow) × (body ≡ some fs)
          × ((sensor_flows body r (s, d)).0.status ≡ 200)
          × ((sensor_flows body r (s, d)).1 ≡ (s, after_reports fs d)))

  abbrev pub Refuses : Option (List SensorFlow) → Request → Server → Db → Type 0
  Refuses body r s d =
      RefusedAs body r s (sensor_flows body r (s, d)).0.status
      × ((sensor_flows body r (s, d)).1 ≡ (s, d))

  after_reports-eq : (fs : List SensorFlow) (d : Db) → (store_flows fs d).1 ≡ after_reports fs d
  unfolding store_flows upsert_of
  after_reports-eq [] d = refl
  after_reports-eq (f ∷ fs) d = after_reports-eq fs (upsert_flow (upsert_of f) d).1

  -- A request with the key and with reports is answered with 200, and the reports are stored.
  pub sensor_flows-Authorized :
      (fs : List SensorFlow) (r : Request) (s : Server) (d : Db)
      → Authorized s r
      → ((sensor_flows (some fs) r (s, d)).0.status ≡ 200)
        × ((sensor_flows (some fs) r (s, d)).1 ≡ (s, after_reports fs d))
  unfolding sensor_flows with_key take_flows key_ok
  sensor_flows-Authorized fs r s d (post, key) =
      let is_post = (text_beq_iff r.method (codes "POST")).1 post in
      let good = (text_beq_iff (r.header (codes "X-Sensor-Key")) s.cfg.sensor_key).1 key in
      (
        rw (is_post, good) refl,
        rw (is_post, good) (ap (λ (e : Db). (s, e)) (after_reports-eq fs d)),
      )

  read_body :
      (body : Option (List SensorFlow)) (r : Request) (s : Server) (d : Db)
      → Authorized s r
      → Accepts body r s d ⊎ Refuses body r s d
  unfolding sensor_flows with_key take_flows key_ok
  read_body (some fs) r s d authorized =
      let (answered, stored) = sensor_flows-Authorized fs r s d authorized in
      inl (authorized, (fs, refl, answered, stored))
  read_body none r s d (post, key) =
      let is_post = (text_beq_iff r.method (codes "POST")).1 post in
      let good = (text_beq_iff (r.header (codes "X-Sensor-Key")) s.cfg.sensor_key).1 key in
      inr (inr (inr ((post, key), refl, rw (is_post, good) refl)), rw (is_post, good) refl)

  -- A POST with the sensor's key and with a body that can be read has the status 200, and every
  -- report goes to UpsertFlow in its turn, with all its fields. Any other request changes nothing: a
  -- method that is not POST has the status 405, a POST with another key 401, and a POST with the key
  -- and a body that cannot be read 400.
  pub sensor_flows-cases :
      (body : Option (List SensorFlow)) (r : Request) (s : Server) (d : Db)
      → Accepts body r s d ⊎ Refuses body r s d
  unfolding sensor_flows with_key take_flows key_ok
  sensor_flows-cases body r s d = elim (Bool-cases (r.method == codes "POST")) [
    | inr get ↦ inr (
      inl (λ e. ground (arith, (text_beq_iff r.method (codes "POST")).1 e, get), rw get refl),
      rw get refl,
    )
    | inl post ↦
        let is_post = (text_beq_iff r.method (codes "POST")).0 post in
        elim (Bool-cases (r.header (codes "X-Sensor-Key") == s.cfg.sensor_key)) [
          | inr bad ↦ inr (
            inr (
                inl (
                  is_post,
                  λ e. ground (
                    arith,
                    (text_beq_iff (r.header (codes "X-Sensor-Key")) s.cfg.sensor_key).1 e,
                    bad,
                  ),
                  rw (post, bad) refl,
                )),
            rw (post, bad) refl,
          )
          | inl good ↦
              read_body body r s d
                (is_post, (text_beq_iff (r.header (codes "X-Sensor-Key")) s.cfg.sensor_key).0 good)
        ]
  ]

  -- Whatever a request sends and however the statements end, every row of a flow stays in the table
  -- under its key, with its id, start, ends and resource; an ended flow stays ended, and no
  -- identity text that is not empty becomes empty.
  pub sensor_flows-Continues :
      (body : Option (List SensorFlow)) (r : Request) (s : Server) (d : Db) (k : Text) (q : FlowRow)
      → flow_at k d ≡ some q
      → (q' : FlowRow) × (flow_at k (sensor_flows body r (s, d)).1.1 ≡ some q') × Continues q q'
  sensor_flows-Continues body r s d k q h = elim (sensor_flows-cases body r s d) [
    | inl (_, (fs, _, _, e)) ↦
        rw (e ∙ ap (λ (x : Db). (s, x)) (sym (after_reports-eq fs d)))
          (store_flows-Continues fs d k q h)
    | inr (_, e) ↦ rw e (q, h, Continues-refl q)
  ]

  -- A request of the sensor keeps the flow keys of the rows unique.
  pub sensor_flows-IsUnique :
      (body : Option (List SensorFlow)) (r : Request) (s : Server) (d : Db)
      → IsUnique key_of d.flows
      → IsUnique key_of (sensor_flows body r (s, d)).1.1.flows
  sensor_flows-IsUnique body r s d u = elim (sensor_flows-cases body r s d) [
    | inl (_, (fs, _, _, e)) ↦
        rw (e ∙ ap (λ (x : Db). (s, x)) (sym (after_reports-eq fs d))) (store_flows-IsUnique fs d u)
    | inr (_, e) ↦ rw e u
  ]

  store_flows-OnlyFlows : (fs : List SensorFlow) (d : Db) → OnlyFlows d (store_flows fs d).1
  unfolding store_flows
  store_flows-OnlyFlows [] d = refl
  store_flows-OnlyFlows (f ∷ fs) d =
      let e = (upsert_flow (upsert_of f) d).1 in
      OnlyFlows-trans d e (store_flows fs e).1 (upsert_flow-OnlyFlows (upsert_of f) d)
        (store_flows-OnlyFlows fs e)

  pub sensor_flows-OnlyFlows :
      (body : Option (List SensorFlow)) (r : Request) (s : Server) (d : Db)
      → OnlyFlows d (sensor_flows body r (s, d)).1.1
  sensor_flows-OnlyFlows body r s d = elim (sensor_flows-cases body r s d) [
    | inl (_, (fs, _, _, e)) ↦
        rw (e ∙ ap (λ (x : Db). (s, x)) (sym (after_reports-eq fs d))) (store_flows-OnlyFlows fs d)
    | inr (_, e) ↦ rw e refl
  ]

-- A heartbeat leaves the database alone.
pub sensor_heartbeat_database :
    (now : Time) (interface : Text) (r : Request) (s : Server) (d : Db)
    → (sensor_heartbeat now interface r (s, d)).1.1 ≡ d
unfolding sensor_heartbeat with_key
sensor_heartbeat_database now interface r s d = elim (Bool-cases (r.method == codes "POST")) [
  | inr get ↦ rw get refl
  | inl post ↦ elim (Bool-cases (key_ok s r)) [
    | inr bad ↦ rw (post, bad) refl
    | inl good ↦ rw (post, good) refl
  ]
]
