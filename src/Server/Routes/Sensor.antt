-- ===== src/Server/Routes/Sensor.antt =====
-- What requests to the sensor's server of Run, in internal/server/server.go, can change.
use net_bird_audit.Prelude.{
  Text, codes, List, Option, ◌==◌, text_eq, ◌≡◌, ◌⊎◌, inl, inr, refl, Bool-cases,
}
use net_bird_audit.Time.{Time}
use net_bird_audit.Db.Collation.{Collation}
use net_bird_audit.Server.Types.{World, Request}
use net_bird_audit.Server.SensorApi.{SensorFlow, sensor_flows, sensor_heartbeat}
use net_bird_audit.Server.Routes.{
  Url, answer_200, redirects, with_clean_path, sensor_route, sensor_mux,
}

module _ ⦃c : Collation⦄ where
  -- Nothing, the reports of sensorFlows, or a heartbeat.
  pub sensor_mux-cases :
      (body : Option (List SensorFlow)) (now : Time) (interface : Text) (url : Url) (r : Request)
      (w : World)
      → ((sensor_mux body now interface url r w).1 ≡ w)
        ⊎ (((sensor_mux body now interface url r w).1 ≡ (sensor_flows body r w).1)
            ⊎ ((sensor_mux body now interface url r w).1 ≡ (sensor_heartbeat now interface r w).1))
  unfolding sensor_mux with_clean_path sensor_route answer_200
  sensor_mux-cases body now interface url r w = elim (Bool-cases (redirects url r)) [
    | inl unclean ↦ inl (rw unclean refl)
    | inr clean ↦ elim (Bool-cases (url.path == codes "/healthz")) [
      | inl health ↦ inl (rw (clean, health) refl)
      | inr a ↦ elim (Bool-cases (url.path == codes "/api/v1/flows")) [
        | inl flows ↦ inr (inl (rw (clean, a, flows) refl))
        | inr b ↦ elim (Bool-cases (url.path == codes "/api/v1/sensor-heartbeat")) [
          | inl beat ↦ inr (inr (rw (clean, a, b, beat) refl))
          | inr other ↦ inl (rw (clean, a, b, other) refl)
        ]
      ]
    ]
  ]
