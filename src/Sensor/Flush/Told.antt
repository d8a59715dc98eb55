-- ===== src/Sensor/Flush/Told.antt =====
-- What a round that succeeds has told the audit server of a flow that it deletes, in
-- internal/sensor/sensor.go.
use net_bird_audit.Prelude.{
  In, ℕ, Bool, true, List, [], ◌∷◌, Option, none, some, nat_eq, ◌≡◌, ◌∙◌, refl, arith,
}
use net_bird_audit.Time.{Time}
use net_bird_audit.Netip.{Prefix}
use net_bird_audit.Sensor.Types.{Config, FlowKey, FlowVal, FlowEvent, key_beq}
use net_bird_audit.Sensor.Setup.{success}
use net_bird_audit.Sensor.Flush.{
  KernelMap, flow_text, event_of, collect, Flushed, answered, deliver, flush,
}
use net_bird_audit.Sensor.Flush.Laws.{Reported, events_of, some_events}

-- The round has no error, and has sent an event that says that a flow with the key has ended.
abbrev pub Told : FlowKey → Flushed → Type 0
Told k d =
    (d.error ≡ none)
    × ((es : List FlowEvent) × (d.sent ≡ some es)
        × ((x : FlowEvent) × In x es
            × (x.ended ≡ true)
            × ((v : FlowVal) × (x.flow_key ≡ flow_text k v))))

key_beq_eq : (a b : FlowKey) → key_beq a b ≡ true → a ≡ b
unfolding key_beq
key_beq_eq a b h = ground arith

pub some_events-In : (x : FlowEvent) (es : List FlowEvent) → In x es → some_events es ≡ some es
some_events-In x [] m = absurd m
some_events-In x (e ∷ es) m = refl

deliver-succeeds :
    (es : List FlowEvent) (ds : List FlowKey) (status : Option ℕ) (later : KernelMap)
    → success status ≡ true
    → (deliver es ds status later).error ≡ none
unfolding deliver answered
deliver-succeeds [] ds status later h = refl
deliver-succeeds (e ∷ es) ds status later h = rw h refl

flush-succeeds :
    (cfg : Config) (pfx : Prefix) (now : Time) (mn : ℕ) (seen : KernelMap) (status : Option ℕ)
    (later : KernelMap)
    → success status ≡ true
    → (flush cfg pfx now mn seen true status later).error ≡ none
unfolding flush
flush-succeeds cfg pfx now mn seen status later h =
    deliver-succeeds (collect cfg pfx now mn seen).0 (collect cfg pfx now mn seen).1 status later h

pub Reported-Told :
    (cfg : Config) (pfx : Prefix) (now : Time) (mn : ℕ) (seen : KernelMap) (complete : Bool)
    (status : Option ℕ) (later : KernelMap) (k : FlowKey) (v : FlowVal)
    → Reported cfg pfx now mn seen complete status later (k, v)
    → Told k (flush cfg pfx now mn seen complete status later)
unfolding event_of
Reported-Told cfg pfx now mn seen complete status later k v
      (whole, confirmed, (e, member, same, ended, sent, listed, marked)) =
    let x = event_of cfg now mn e.0 e.1 in
    let es = events_of cfg pfx now mn seen in
    (
      rw whole (flush-succeeds cfg pfx now mn seen status later confirmed),
      (
        es,
        sent ∙ some_events-In x es listed,
        (x, listed, marked, (e.1, rw (key_beq_eq k e.0 same) refl)),
      ),
    )
