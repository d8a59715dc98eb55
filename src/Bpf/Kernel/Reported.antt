-- ===== src/Bpf/Kernel/Reported.antt =====
-- From the packets that audit_ingress and audit_egress of sensor/bpf/audit.bpf.c see to the events that
-- flush of internal/sensor/sensor.go sends.
use net_bird_audit.Prelude.{
  ℕ, ◌%◌, ◌^◌, ◌<◌, true, not, List, [], ◌∷◌, Option, none, some, All, In, In-map, In-keep, keep,
  nat_eq, ◌≡◌, ◌⊎◌, inl, inr, sym, ap, ◌∙◌, arith, Bool-cases,
}
use net_bird_audit.Time.{Time}
use net_bird_audit.Netip.{Prefix, v4, contains}
use net_bird_audit.Db.Query.{any}
use net_bird_audit.Db.Query.Grouping.{sum_of}
use net_bird_audit.Sensor.Types.{Config, FlowKey, FlowVal, FlowEvent, key_beq}
use net_bird_audit.Sensor.Flush.{KernelMap, flow_text, event_of, flush}
use net_bird_audit.Sensor.Flush.Laws.{in_overlay, events_of, sent-flush}
use net_bird_audit.Sensor.Flush.Told.{some_events-In}
use net_bird_audit.Sensor.Flush.Deletion.{event_counts}
use net_bird_audit.Bpf.Packet.{Flags}
use net_bird_audit.Bpf.Programs.{Packet, find_flow, is_new_tcp}
use net_bird_audit.Bpf.Programs.Counting.{Event, came_in, count_events, flags_in, key_beq_eq}
use net_bird_audit.Bpf.Programs.Adds.{tx_len, rx_len, tx_one, rx_one, ends_flow, continues}
use net_bird_audit.Bpf.Programs.Tallies.{Tally, count_events-Tally}

find_flow-In : (k : FlowKey) (v : FlowVal) (m : KernelMap) → find_flow k m ≡ some v → In (k, v) m
unfolding find_flow
find_flow-In k v [] found = absurd (ground arith)
find_flow-In k v ((j, w) ∷ m) found = elim (Bool-cases (key_beq j k)) [
  | inl at ↦
      let same : w ≡ v = ground arith in
      let named : j ≡ k = key_beq_eq j k at in
      inl (ap (λ (x : FlowVal). (k, x)) (sym same) ∙ ap (λ (x : FlowKey). (x, w)) (sym named))
  | inr past ↦ inr (find_flow-In k v m (ground arith))
]

-- What an event says of the packets `es` of the flow.
pub record Accounts (k : FlowKey) (es : List Event) (x : FlowEvent) : Type 0 where
  pub named : (v : FlowVal) × (x.flow_key ≡ flow_text k v)
  pub bytes_tx : x.bytes_tx ≡ sum_of (tx_len k) es % 2 ^ 64
  pub bytes_rx : x.bytes_rx ≡ sum_of (rx_len k) es % 2 ^ 64
  pub packets_tx : x.packets_tx ≡ sum_of (tx_one k) es % 2 ^ 64
  pub packets_rx : x.packets_rx ≡ sum_of (rx_one k) es % 2 ^ 64
  pub ended : any (ends_flow k) es ≡ true → x.ended ≡ true

Tally-Accounts :
    (cfg : Config) (now : Time) (mn : ℕ) (k : FlowKey) (t : ℕ) (es : List Event) (v : FlowVal)
    → Tally k t es v
    → Accounts k es (event_of cfg now mn k v)
Tally-Accounts cfg now mn k t es v tally =
    let (key, tx, rx, ptx, prx, ends) = event_counts cfg now mn k v in
    record {
      named = (v, key);
      bytes_tx = tx ∙ tally.bytes_tx;
      bytes_rx = rx ∙ tally.bytes_rx;
      packets_tx = ptx ∙ tally.packets_tx;
      packets_rx = prx ∙ tally.packets_rx;
      ended = λ one. ends (tally.ended ∙ ap not one);
    }

-- A packet from the overlay network comes in and starts a flow, since its key has no entry or since
-- it is a SYN without ACK. Then follow packets of any flows and deletions by the sensor, of which none
-- starts the flow anew, deletes its key, or lets the kernel evict it from the LRU map. A round that
-- iterates over the whole map then sends an event of the flow, which has the bytes and the number of
-- all its packets in each direction, modulo 2 ^ 64, and says that it has ended if one of them has FIN
-- or RST.
pub count_events-flush :
    (k : FlowKey) (t : ℕ) (evicted : List FlowKey) (p : Packet) (f : Flags) (es : List Event)
    (m : KernelMap) (cfg : Config) (pfx : Prefix) (now : Time) (mn : ℕ) (status : Option ℕ)
    (later : KernelMap)
    → flags_in k (came_in t evicted p) ≡ some f
    → (find_flow k m ≡ none) ⊎ (is_new_tcp k f ≡ true)
    → p.len < 2 ^ 64
    → All (λ e. continues k e ≡ true) es
    → contains pfx (v4 k.src_ip) ≡ true
    → (sent : List FlowEvent) × ((flush cfg pfx now mn
          (count_events (came_in t evicted p ∷ es) m)
          true
          status
          later).sent
        ≡ some sent)
      × ((x : FlowEvent) × In x sent × Accounts k (came_in t evicted p ∷ es) x)
count_events-flush k t evicted p f es m cfg pfx now mn status later mine first small same inside =
    let seen = count_events (came_in t evicted p ∷ es) m in
    let (v, found, tally) = count_events-Tally k t evicted p f es m mine first small same in
    let x = event_of cfg now mn k v in
    let listed : In x (events_of cfg pfx now mn seen) =
      In-map (λ (e : FlowKey × FlowVal). event_of cfg now mn e.0 e.1) (k, v)
        (keep (in_overlay pfx) seen)
        (In-keep (in_overlay pfx) (k, v) seen (find_flow-In k v seen found) inside) in
    (
      events_of cfg pfx now mn seen,
      sent-flush cfg pfx now mn seen true status later ∙ some_events-In x _ listed,
      (x, listed, Tally-Accounts cfg now mn k t (came_in t evicted p ∷ es) v tally),
    )
