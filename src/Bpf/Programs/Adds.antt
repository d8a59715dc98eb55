-- ===== src/Bpf/Programs/Adds.antt =====
-- What each run of the programs of sensor/bpf/audit.bpf.c adds to the entry of a flow.
use net_bird_audit.Prelude.{
  ℕ, ◌+◌, ◌%◌, ◌^◌, ◌<◌, Bool, true, false, not, ◌&&◌, ◌||◌, List, [], ◌∷◌, none, some, All, ◌==◌,
  nat_eq, if◌then◌else◌, ◌≡◌, inl, inr, refl, ap, ◌∙◌, arith, Option-cases,
}
use net_bird_audit.Db.Query.{any}
use net_bird_audit.Db.Query.Grouping.{sum_of}
use net_bird_audit.Sensor.Types.{FlowKey, FlowVal}
use net_bird_audit.Sensor.Flush.{KernelMap}
use net_bird_audit.Bpf.Packet.{Flags}
use net_bird_audit.Bpf.Programs.{
  Packet, find_flow, ends, is_new_tcp, count_tx, count_rx, ingress_value,
}
use net_bird_audit.Bpf.Programs.Counting.{
  Event, came_in, went_out, deleted, drops, find-delete_keys, count_event, count_events, flags_in,
  came_in-find, went_out-find,
}

abbrev pub is_for : FlowKey → Event → Bool
is_for k e = elim (flags_in k e) [ none ↦ false | some f ↦ true ]

-- The lengths, and the numbers, of the packets of the flow in each direction.
abbrev pub tx_len : FlowKey → Event → ℕ
tx_len k (came_in now evicted p) = if is_for k (came_in now evicted p) then p.len else 0
tx_len k (went_out now p) = 0
tx_len k (deleted keys) = 0

abbrev pub rx_len : FlowKey → Event → ℕ
rx_len k (came_in now evicted p) = 0
rx_len k (went_out now p) = if is_for k (went_out now p) then p.len else 0
rx_len k (deleted keys) = 0

abbrev pub tx_one : FlowKey → Event → ℕ
tx_one k (came_in now evicted p) = if is_for k (came_in now evicted p) then 1 else 0
tx_one k (went_out now p) = 0
tx_one k (deleted keys) = 0

abbrev pub rx_one : FlowKey → Event → ℕ
rx_one k (came_in now evicted p) = 0
rx_one k (went_out now p) = if is_for k (went_out now p) then 1 else 0
rx_one k (deleted keys) = 0

-- A packet of the flow with FIN or RST.
abbrev pub ends_flow : FlowKey → Event → Bool
ends_flow k e = elim (flags_in k e) [ none ↦ false | some f ↦ f.fin || f.rst ]

-- A packet that starts a new connection with the key of the flow.
abbrev pub restarts : FlowKey → Event → Bool
restarts k (came_in now evicted p) = elim (flags_in k (came_in now evicted p)) [
  | none ↦ false
  | some f ↦ is_new_tcp k f
]
restarts k (went_out now p) = false
restarts k (deleted keys) = false

-- The flow goes on: the event starts it not anew, and drops no entry of its key.
abbrev pub continues : FlowKey → Event → Bool
continues k e = not (restarts k e) && not (drops k e)

-- The entry `v'` is `v` with what the packets of the flow add to it.
pub record Adds (k : FlowKey) (es : List Event) (v v' : FlowVal) : Type 0 where
  pub start : v'.start_ns ≡ v.start_ns
  pub bytes_tx : v'.bytes_tx ≡ (v.bytes_tx + sum_of (tx_len k) es) % 2 ^ 64
  pub bytes_rx : v'.bytes_rx ≡ (v.bytes_rx + sum_of (rx_len k) es) % 2 ^ 64
  pub packets_tx : v'.packets_tx ≡ (v.packets_tx + sum_of (tx_one k) es) % 2 ^ 64
  pub packets_rx : v'.packets_rx ≡ (v.packets_rx + sum_of (rx_one k) es) % 2 ^ 64
  pub ended : (v'.ended == 0) ≡ (v.ended == 0 && not (any (ends_flow k) es))

-- The counters are words of 64 bits.
pub record Fits (v : FlowVal) : Type 0 where
  pub bytes_tx : v.bytes_tx < 2 ^ 64
  pub bytes_rx : v.bytes_rx < 2 ^ 64
  pub packets_tx : v.packets_tx < 2 ^ 64
  pub packets_rx : v.packets_rx < 2 ^ 64

Adds-nil : (k : FlowKey) (v : FlowVal) → Fits v → Adds k [] v v
unfolding any
Adds-nil k v fits = record {
  start = refl;
  bytes_tx = ground (arith, fits.bytes_tx);
  bytes_rx = ground (arith, fits.bytes_rx);
  packets_tx = ground (arith, fits.packets_tx);
  packets_rx = ground (arith, fits.packets_rx);
  ended = ground arith;
}

Adds-cons :
    (k : FlowKey) (e : Event) (es : List Event) (u v w : FlowVal)
    → Adds k (e ∷ []) u v
    → Adds k es v w
    → Adds k (e ∷ es) u w
unfolding any
Adds-cons k e es u v w a b = record {
  start = b.start ∙ a.start;
  bytes_tx = omega (arith, a.bytes_tx, b.bytes_tx);
  bytes_rx = omega (arith, a.bytes_rx, b.bytes_rx);
  packets_tx = omega (arith, a.packets_tx, b.packets_tx);
  packets_rx = omega (arith, a.packets_rx, b.packets_rx);
  ended = ground (arith, a.ended, b.ended);
}

-- The entry after a packet.
Entry : FlowKey → Event → FlowVal → KernelMap → Type 0
Entry k e v m =
    (v' : FlowVal) × (find_flow k (count_event e m) ≡ some v') × Fits v' × Adds k (e ∷ []) v v'

Adds-other :
    (k : FlowKey) (e : Event) (v : FlowVal) → flags_in k e ≡ none → Fits v → Adds k (e ∷ []) v v
unfolding any
Adds-other k (came_in now evicted p) v other fits = record {
  start = refl;
  bytes_tx = ground (arith, fits.bytes_tx);
  bytes_rx = ground (arith, fits.bytes_rx);
  packets_tx = ground (arith, fits.packets_tx);
  packets_rx = ground (arith, fits.packets_rx);
  ended = ground arith;
}
Adds-other k (went_out now p) v other fits = record {
  start = refl;
  bytes_tx = ground (arith, fits.bytes_tx);
  bytes_rx = ground (arith, fits.bytes_rx);
  packets_tx = ground (arith, fits.packets_tx);
  packets_rx = ground (arith, fits.packets_rx);
  ended = ground arith;
}
Adds-other k (deleted keys) v other fits = record {
  start = refl;
  bytes_tx = ground (arith, fits.bytes_tx);
  bytes_rx = ground (arith, fits.bytes_rx);
  packets_tx = ground (arith, fits.packets_tx);
  packets_rx = ground (arith, fits.packets_rx);
  ended = ground arith;
}

Adds-tx :
    (k : FlowKey) (now : ℕ) (evicted : List FlowKey) (p : Packet) (f : Flags) (v : FlowVal)
    → flags_in k (came_in now evicted p) ≡ some f
    → Fits v
    → Adds k (came_in now evicted p ∷ []) v (count_tx now p.len f v)
unfolding any count_tx ends
Adds-tx k now evicted p f v mine fits = record {
  start = refl;
  bytes_tx = ground arith;
  bytes_rx = ground (arith, fits.bytes_rx);
  packets_tx = ground arith;
  packets_rx = ground (arith, fits.packets_rx);
  ended = ground arith;
}

Adds-rx :
    (k : FlowKey) (now : ℕ) (p : Packet) (f : Flags) (v : FlowVal)
    → flags_in k (went_out now p) ≡ some f
    → Fits v
    → Adds k (went_out now p ∷ []) v (count_rx now p.len f v)
unfolding any count_rx ends
Adds-rx k now p f v mine fits = record {
  start = refl;
  bytes_tx = ground (arith, fits.bytes_tx);
  bytes_rx = ground arith;
  packets_tx = ground (arith, fits.packets_tx);
  packets_rx = ground arith;
  ended = ground arith;
}

Fits-tx : (now len : ℕ) (f : Flags) (v : FlowVal) → Fits v → Fits (count_tx now len f v)
unfolding count_tx
Fits-tx now len f v fits = record {
  bytes_tx = omega arith;
  bytes_rx = fits.bytes_rx;
  packets_tx = omega arith;
  packets_rx = fits.packets_rx;
}

Fits-rx : (now len : ℕ) (f : Flags) (v : FlowVal) → Fits v → Fits (count_rx now len f v)
unfolding count_rx
Fits-rx now len f v fits = record {
  bytes_tx = fits.bytes_tx;
  bytes_rx = omega arith;
  packets_tx = fits.packets_tx;
  packets_rx = omega arith;
}

counted :
    (now len : ℕ) (k : FlowKey) (f : Flags) (v : FlowVal)
    → is_new_tcp k f ≡ false
    → ingress_value now len k f (some v) ≡ count_tx now len f v
unfolding ingress_value
counted now len k f v same = rw same refl

count_event-Entry :
    (k : FlowKey) (e : Event) (v : FlowVal) (m : KernelMap)
    → find_flow k m ≡ some v
    → Fits v
    → continues k e ≡ true
    → Entry k e v m
unfolding Entry count_event flags_in
count_event-Entry k (came_in now evicted p) v m found fits same =
    elim (Option-cases (flags_in k (came_in now evicted p))) [
      | inl other ↦ (
        v,
        came_in-find k now evicted p m (ground arith) ∙ rw (other, found) refl,
        fits,
        Adds-other k (came_in now evicted p) v other fits,
      )
      | inr (f, mine) ↦ (
        count_tx now p.len f v,
        came_in-find k now evicted p m (ground arith)
            ∙ rw (mine, found) (ap some (counted now p.len k f v (ground arith))),
        Fits-tx now p.len f v fits,
        Adds-tx k now evicted p f v mine fits,
      )
    ]
count_event-Entry k (went_out now p) v m found fits same =
    elim (Option-cases (flags_in k (went_out now p))) [
      | inl other ↦ (
        v,
        went_out-find k now p m ∙ rw (other, found) refl,
        fits,
        Adds-other k (went_out now p) v other fits,
      )
      | inr (f, mine) ↦ (
        count_rx now p.len f v,
        went_out-find k now p m ∙ rw (mine, found) refl,
        Fits-rx now p.len f v fits,
        Adds-rx k now p f v mine fits,
      )
    ]
count_event-Entry k (deleted keys) v m found fits same = (
  v,
  find-delete_keys k keys m (ground arith) ∙ found,
  fits,
  Adds-other k (deleted keys) v refl fits,
)

-- As long as the flow goes on, its entry stays, and has what its packets add.
pub count_events-Adds :
    (k : FlowKey) (es : List Event) (v : FlowVal) (m : KernelMap)
    → find_flow k m ≡ some v
    → Fits v
    → All (λ e. continues k e ≡ true) es
    → (v' : FlowVal) × (find_flow k (count_events es m) ≡ some v') × Adds k es v v'
unfolding count_events Entry
count_events-Adds k [] v m found fits same = (v, found, Adds-nil k v fits)
count_events-Adds k (e ∷ es) v m found fits same =
    let (u, found', fits', first) = count_event-Entry k e v m found fits same.0 in
    let (w, found'', rest) = count_events-Adds k es u (count_event e m) found' fits' same.1 in
    (w, found'', Adds-cons k e es v u w first rest)
