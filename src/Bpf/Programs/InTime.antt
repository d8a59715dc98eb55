-- ===== src/Bpf/Programs/InTime.antt =====
-- The times that audit_ingress and audit_egress of sensor/bpf/audit.bpf.c write.
use net_bird_audit.Prelude.{
  List, ◌||◌, ℕ, ◌≤◌, ◌<◌, Bool, true, false, [], ◌∷◌, Option, none, some, All, keep, ◌≡◌, refl,
  arith, inl, inr, Bool-cases, Option-cases,
}
use net_bird_audit.Sensor.Types.{FlowKey, FlowVal, key_beq}
use net_bird_audit.Sensor.Flush.{KernelMap, delete_keys}
use net_bird_audit.Sensor.Flush.Deletion.{delete_keys-All}
use net_bird_audit.Bpf.Packet.{Flags, key_from_packet}
use net_bird_audit.Bpf.Programs.{
  Packet, find_flow, put_flow, fresh_flow, count_tx, is_none, is_new_tcp, store_ingress,
  update_flow, count_rx, ingress_value, on_ingress, audit_ingress, on_egress, audit_egress,
}

abbrev pub Entry : Type 0
Entry = FlowKey × FlowVal

-- The flow has started after 0, and was last seen between its start and the clock.
abbrev pub InTime : ℕ → FlowVal → Type 0
InTime clock v = (0 < v.start_ns) × (v.start_ns ≤ v.last_ns) × (v.last_ns ≤ clock)

abbrev pub AllInTime : ℕ → KernelMap → Type 0
AllInTime clock m = All (λ (e : Entry). InTime clock e.1) m

AllInTime-later : (a b : ℕ) (m : KernelMap) → a ≤ b → AllInTime a m → AllInTime b m
AllInTime-later a b [] le h = tt
AllInTime-later a b (e ∷ m) le h = ((h.0.0, h.0.1, omega arith), AllInTime-later a b m le h.1)

put_flow-AllInTime :
    (clock : ℕ) (k : FlowKey) (v : FlowVal) (m : KernelMap)
    → InTime clock v
    → AllInTime clock m
    → AllInTime clock (put_flow k v m)
unfolding put_flow
put_flow-AllInTime clock k v [] hv h = (hv, tt)
put_flow-AllInTime clock k v ((j, w) ∷ m) hv h = elim (Bool-cases (key_beq j k)) [
  | inl at ↦ rw at (hv, h.1)
  | inr past ↦ rw past (h.0, put_flow-AllInTime clock k v m hv h.1)
]

find_flow-InTime :
    (clock : ℕ) (k : FlowKey) (v : FlowVal) (m : KernelMap)
    → AllInTime clock m
    → find_flow k m ≡ some v
    → InTime clock v
unfolding find_flow
find_flow-InTime clock k v [] h found = absurd (ground arith)
find_flow-InTime clock k v ((j, w) ∷ m) h found = elim (Bool-cases (key_beq j k)) [
  | inl at ↦ let e : w ≡ v = ground arith in rw e at h.0
  | inr past ↦ find_flow-InTime clock k v m h.1 (ground arith)
]

pub keep-AllInTime :
    (clock : ℕ) (p : Entry → Bool) (m : KernelMap) → AllInTime clock m → AllInTime clock (keep p m)
keep-AllInTime clock p [] h = tt
keep-AllInTime clock p (e ∷ m) h = elim (Bool-cases (p e)) [
  | inl kept ↦ rw kept (h.0, keep-AllInTime clock p m h.1)
  | inr gone ↦ rw gone (keep-AllInTime clock p m h.1)
]

ingress_value-InTime :
    (now len clock : ℕ) (k : FlowKey) (f : Flags) (found : Option FlowVal) (m : KernelMap)
    → 0 < clock
    → clock ≤ now
    → find_flow k m ≡ found
    → AllInTime clock m
    → InTime now (ingress_value now len k f found)
unfolding ingress_value fresh_flow count_tx
ingress_value-InTime now len clock k f none m pos_clock le found h =
    (omega arith, omega arith, omega arith)
ingress_value-InTime now len clock k f (some v) m pos_clock le found h =
    ground (arith, find_flow-InTime clock k v m h found)

on_ingress-AllInTime :
    (now len clock : ℕ) (evicted : List FlowKey) (r : Option (FlowKey × Flags)) (m : KernelMap)
    → 0 < clock
    → clock ≤ now
    → AllInTime clock m
    → AllInTime now (on_ingress now len evicted r m)
unfolding on_ingress store_ingress update_flow
on_ingress-AllInTime now len clock evicted none m pos_clock le h = AllInTime-later clock now m le h
on_ingress-AllInTime now len clock evicted (some (k, f)) m pos_clock le h =
    let found = find_flow k m in
    let value = ingress_value-InTime now len clock k f found m pos_clock le refl h in
    let later = AllInTime-later clock now m le h in
    elim (Bool-cases (is_none found || is_new_tcp k f)) [
      | inl updates ↦ rw updates (
          put_flow-AllInTime now k _ (delete_keys evicted m) value
            (delete_keys-All (λ (e : Entry). InTime now e.1) evicted m later))
      | inr writes ↦ rw writes (put_flow-AllInTime now k _ m value later)
    ]

on_egress-AllInTime :
    (now len clock : ℕ) (r : Option (FlowKey × Flags)) (m : KernelMap)
    → clock ≤ now
    → AllInTime clock m
    → AllInTime now (on_egress now len r m)
unfolding on_egress count_rx
on_egress-AllInTime now len clock none m le h = AllInTime-later clock now m le h
on_egress-AllInTime now len clock (some (k, f)) m le h = elim (Option-cases (find_flow k m)) [
  | inl nothing ↦ rw (on_egress, nothing) (AllInTime-later clock now m le h)
  | inr (v, found) ↦
      let (a, b, d) = find_flow-InTime clock k v m h found in
      rw (on_egress, found)
        (put_flow-AllInTime now k (count_rx now len f v) m (a, omega arith, omega arith)
          (AllInTime-later clock now m le h))
]

pub audit_ingress-AllInTime :
    (now clock : ℕ) (evicted : List FlowKey) (p : Packet) (m : KernelMap)
    → 0 < clock
    → clock ≤ now
    → AllInTime clock m
    → AllInTime now (audit_ingress now evicted p m)
unfolding audit_ingress
audit_ingress-AllInTime now clock evicted p m =
    on_ingress-AllInTime now p.len clock evicted (key_from_packet false p.bytes) m

pub audit_egress-AllInTime :
    (now clock : ℕ) (p : Packet) (m : KernelMap)
    → clock ≤ now
    → AllInTime clock m
    → AllInTime now (audit_egress now p m)
unfolding audit_egress
audit_egress-AllInTime now clock p m =
    on_egress-AllInTime now p.len clock (key_from_packet true p.bytes) m
