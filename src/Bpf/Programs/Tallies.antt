-- ===== src/Bpf/Programs/Tallies.antt =====
-- From its first packet to its last, the entry that audit_ingress and audit_egress of
-- sensor/bpf/audit.bpf.c keep of a flow is the tally of its packets.
use net_bird_audit.Prelude.{
  ℕ, ◌%◌, ◌^◌, ◌<◌, true, not, List, ◌∷◌, Option, none, some, All, ◌==◌, nat_eq, ◌≡◌, ◌⊎◌, inl, inr,
  refl, ap, ◌∙◌, arith,
}
use net_bird_audit.Db.Query.{any}
use net_bird_audit.Db.Query.Grouping.{sum_of}
use net_bird_audit.Sensor.Types.{FlowKey, FlowVal}
use net_bird_audit.Sensor.Flush.{KernelMap}
use net_bird_audit.Bpf.Packet.{Flags}
use net_bird_audit.Bpf.Programs.{Packet, find_flow, ends, is_new_tcp, fresh_flow, ingress_value}
use net_bird_audit.Bpf.Programs.Counting.{
  Event, came_in, count_event, count_events, flags_in, came_in-starts,
}
use net_bird_audit.Bpf.Programs.Adds.{
  tx_len, rx_len, tx_one, rx_one, ends_flow, continues, Adds, Fits, count_events-Adds,
}

-- The entry is the tally of the packets.
pub record Tally (k : FlowKey) (t : ℕ) (es : List Event) (v : FlowVal) : Type 0 where
  pub start : v.start_ns ≡ t
  pub bytes_tx : v.bytes_tx ≡ sum_of (tx_len k) es % 2 ^ 64
  pub bytes_rx : v.bytes_rx ≡ sum_of (rx_len k) es % 2 ^ 64
  pub packets_tx : v.packets_tx ≡ sum_of (tx_one k) es % 2 ^ 64
  pub packets_rx : v.packets_rx ≡ sum_of (rx_one k) es % 2 ^ 64
  pub ended : (v.ended == 0) ≡ not (any (ends_flow k) es)

first_value :
    (now len : ℕ) (k : FlowKey) (f : Flags) (found : Option FlowVal)
    → (found ≡ none) ⊎ (is_new_tcp k f ≡ true)
    → ingress_value now len k f found ≡ fresh_flow now len f
unfolding ingress_value
first_value now len k f none first = refl
first_value now len k f (some v) (inl e) = absurd (ground arith)
first_value now len k f (some v) (inr anew) = rw anew refl

fresh_flow-Fits : (now len : ℕ) (f : Flags) → len < 2 ^ 64 → Fits (fresh_flow now len f)
unfolding fresh_flow
fresh_flow-Fits now len f small = record {
  bytes_tx = small;
  bytes_rx = omega arith;
  packets_tx = omega arith;
  packets_rx = omega arith;
}

tally :
    (k : FlowKey) (now : ℕ) (evicted : List FlowKey) (p : Packet) (f : Flags) (es : List Event)
    (v : FlowVal)
    → flags_in k (came_in now evicted p) ≡ some f
    → Adds k es (fresh_flow now p.len f) v
    → Tally k now (came_in now evicted p ∷ es) v
unfolding fresh_flow any ends
tally k now evicted p f es v mine adds = record {
  start = adds.start;
  bytes_tx = ground (arith, adds.bytes_tx);
  bytes_rx = omega (arith, adds.bytes_rx);
  packets_tx = ground (arith, adds.packets_tx);
  packets_rx = omega (arith, adds.packets_rx);
  ended = ground (arith, adds.ended);
}

-- A packet that comes in starts a flow if its key has no entry, or if it is a SYN without ACK,
-- whatever the kernel evicts to make room for its entry. Then follow packets of any flows and
-- deletions by the sensor, of which none starts the flow anew, deletes its key, or lets the kernel
-- evict it. The entry of the key has the time of the first packet, the bytes and the number of all
-- packets of the flow in each direction, modulo 2 ^ 64, and is ended exactly if one of them has FIN
-- or RST.
pub count_events-Tally :
    (k : FlowKey) (now : ℕ) (evicted : List FlowKey) (p : Packet) (f : Flags) (es : List Event)
    (m : KernelMap)
    → flags_in k (came_in now evicted p) ≡ some f
    → (find_flow k m ≡ none) ⊎ (is_new_tcp k f ≡ true)
    → p.len < 2 ^ 64
    → All (λ e. continues k e ≡ true) es
    → (v : FlowVal) × (find_flow k (count_events (came_in now evicted p ∷ es) m) ≡ some v)
      × Tally k now (came_in now evicted p ∷ es) v
unfolding count_events any
count_events-Tally k now evicted p f es m mine first small same =
    let u = fresh_flow now p.len f in
    let found : find_flow k (count_event (came_in now evicted p) m) ≡ some u =
      came_in-starts k now evicted p f m mine
      ∙ ap some (first_value now p.len k f (find_flow k m) first) in
    let (v, found', adds) =
      count_events-Adds k es u _ found (fresh_flow-Fits now p.len f small) same in
    (v, found', tally k now evicted p f es v mine adds)
