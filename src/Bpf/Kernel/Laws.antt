-- ===== src/Bpf/Kernel/Laws.antt =====
-- The kernel map of sensor/bpf/audit.bpf.c as flush of internal/sensor/sensor.go reports it.
use net_bird_audit.Prelude.{
  ℕ, ◌≤◌, ◌<◌, ◌^◌, [], ◌∷◌, In, keep, keep-In, map-In, nat_eq, arith, inl, inr,
}
use net_bird_audit.Time.{Time}
use net_bird_audit.Netip.{Prefix}
use net_bird_audit.Sensor.Types.{Config, FlowEvent}
use net_bird_audit.Sensor.Clock.{wall_from_mono, wall_from_mono-eq}
use net_bird_audit.Sensor.Flush.{KernelMap, event_of}
use net_bird_audit.Sensor.Flush.Laws.{in_overlay, events_of}
use net_bird_audit.Sensor.Flush.Deletion.{delete_keys-All, event_times}
use net_bird_audit.Bpf.Programs.InTime.{
  Entry, InTime, AllInTime, audit_ingress-AllInTime, audit_egress-AllInTime,
}
use net_bird_audit.Bpf.Kernel.{
  Kernel, Step, packet_in, packet_out, removed, Reach, here, next, loaded,
}

-- The invariant of the map.
abbrev pub IsInTime : Kernel → Type 0
IsInTime k = (0 < k.clock) × AllInTime k.clock k.flows

Step-IsInTime : {i j : Kernel} → Step i j → IsInTime i → IsInTime j
Step-IsInTime (packet_in k now evicted p le) h =
    (omega arith, audit_ingress-AllInTime now k.clock evicted p k.flows h.0 le h.1)
Step-IsInTime (packet_out k now p le) h =
    (omega arith, audit_egress-AllInTime now k.clock p k.flows le h.1)
Step-IsInTime (removed k keys) h =
    (h.0, delete_keys-All (λ (e : Entry). InTime k.clock e.1) keys k.flows h.1)

pub Reach-IsInTime : {i j : Kernel} → Reach i j → IsInTime i → IsInTime j
Reach-IsInTime here h = h
Reach-IsInTime (next r st) h = Step-IsInTime st (Reach-IsInTime r h)

wall_order :
    (a b mn : ℕ) (now : Time)
    → 0 < a
    → a ≤ b
    → mn < 2 ^ 63
    → wall_from_mono a mn now ≤ wall_from_mono b mn now
wall_order a b mn now h le small =
    ground (arith, wall_from_mono-eq a mn now small, wall_from_mono-eq b mn now small)

AllInTime-In :
    (clock : ℕ) (e : Entry) (m : KernelMap) → AllInTime clock m → In e m → InTime clock e.1
AllInTime-In clock e [] h m = absurd m
AllInTime-In clock e (x ∷ m) h (inl same) = rw same h.0
AllInTime-In clock e (x ∷ m) h (inr later) = AllInTime-In clock e m h.1 later

-- However packets, evictions and deletions have followed one another since the program was loaded,
-- every event that a round makes of the map says that its flow has not started after it was last
-- seen, whenever the round has read the two clocks.
pub Reach-events_of :
    (start : ℕ) (k : Kernel) (cfg : Config) (pfx : Prefix) (now : Time) (mn : ℕ) (x : FlowEvent)
    → 0 < start
    → Reach (loaded start) k
    → mn < 2 ^ 63
    → In x (events_of cfg pfx now mn k.flows)
    → x.started_at ≤ x.last_seen_at
Reach-events_of start k cfg pfx now mn x h r small m =
    let (e, member, made) =
      map-In (λ (d : Entry). event_of cfg now mn d.0 d.1) x (keep (in_overlay pfx) k.flows) m in
    let (present, _) = keep-In (in_overlay pfx) e k.flows member in
    let (a, b, _) = AllInTime-In k.clock e k.flows (Reach-IsInTime r (h, tt)).1 present in
    let (started, seen) = event_times cfg now mn e.0 e.1 in
    rw (made, started, seen) (wall_order e.1.start_ns e.1.last_ns mn now a b small)
