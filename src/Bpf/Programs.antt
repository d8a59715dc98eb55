-- ===== src/Bpf/Programs.antt =====
-- audit_ingress and audit_egress of sensor/bpf/audit.bpf.c on the kernel map. Each run of a program
-- is one step.
pub mod Counting
pub mod Adds
pub mod Tallies
pub mod InTime
use net_bird_audit.Prelude.{
  ℕ, ◌+◌, ◌%◌, ◌^◌, Bool, true, false, not, ◌&&◌, ◌||◌, List, [], ◌∷◌, Option, none, some, ◌==◌,
  nat_eq, if◌then◌else◌,
}
use net_bird_audit.Sensor.Types.{FlowKey, FlowVal, key_beq}
use net_bird_audit.Sensor.Flush.{KernelMap, delete_keys}
use net_bird_audit.Bpf.Packet.{Flags, key_from_packet}

-- A packet: the bytes that can be read, and skb->len.
pub record Packet : Type 0 where
  pub bytes : List ℕ
  pub len : ℕ

-- bpf_map_lookup_elem
unfoldable pub find_flow : FlowKey → KernelMap → Option FlowVal
find_flow k [] = none
find_flow k ((j, v) ∷ m) = let rest = find_flow k m in if key_beq j k then some v else rest

-- A write to the entry of a key, which is made if it is not there.
unfoldable pub put_flow : FlowKey → FlowVal → KernelMap → KernelMap
put_flow k v [] = (k, v) ∷ []
put_flow k v ((j, w) ∷ m) =
    let rest = put_flow k v m in if key_beq j k then (j, v) ∷ m else (j, w) ∷ rest

-- bpf_map_update_elem with BPF_ANY. The map is an LRU map of 65536 entries: an update takes an entry
-- of its own and may first evict others to have room. Which ones is up to the kernel: `evicted`.
unfoldable pub update_flow : List FlowKey → FlowKey → FlowVal → KernelMap → KernelMap
update_flow evicted k v m = put_flow k v (delete_keys evicted m)

-- A 64-bit counter.
abbrev pub add64 : ℕ → ℕ → ℕ
add64 a b = (a + b) % 2 ^ 64

ends : Flags → Bool
ends f = f.fin || f.rst

is_none : Option FlowVal → Bool
is_none none = true
is_none (some v) = false

-- A new connection of TCP: SYN without ACK.
unfoldable pub is_new_tcp : FlowKey → Flags → Bool
is_new_tcp k f = k.proto == 6 && (f.syn && not f.ack)

fresh_flow : ℕ → ℕ → Flags → FlowVal
fresh_flow now len f = record {
  start_ns = now;
  last_ns = now;
  bytes_tx = len;
  bytes_rx = 0;
  packets_tx = 1;
  packets_rx = 0;
  ended = if ends f then 1 else 0;
}

count_tx : ℕ → ℕ → Flags → FlowVal → FlowVal
count_tx now len f v = record v {
  last_ns = now;
  bytes_tx = add64 v.bytes_tx len;
  packets_tx = add64 v.packets_tx 1;
  ended = if ends f then 1 else v.ended;
}

pub count_rx : ℕ → ℕ → Flags → FlowVal → FlowVal
count_rx now len f v = record v {
  last_ns = now;
  bytes_rx = add64 v.bytes_rx len;
  packets_rx = add64 v.packets_rx 1;
  ended = if ends f then 1 else v.ended;
}

-- What audit_ingress makes of the entry that it finds.
pub ingress_value : ℕ → ℕ → FlowKey → Flags → Option FlowVal → FlowVal
ingress_value now len k f none = fresh_flow now len f
ingress_value now len k f (some v) =
    if is_new_tcp k f then fresh_flow now len f else count_tx now len f v

-- The first branch of audit_ingress updates the map, and the second writes through the pointer.
store_ingress : ℕ → ℕ → List FlowKey → FlowKey → Flags → Option FlowVal → KernelMap → KernelMap
store_ingress now len evicted k f found m =
    if is_none found || is_new_tcp k f
    then update_flow evicted k (ingress_value now len k f found) m
    else put_flow k (ingress_value now len k f found) m

on_ingress : ℕ → ℕ → List FlowKey → Option (FlowKey × Flags) → KernelMap → KernelMap
on_ingress now len evicted none m = m
on_ingress now len evicted (some (k, f)) m = store_ingress now len evicted k f (find_flow k m) m

unfoldable pub audit_ingress : ℕ → List FlowKey → Packet → KernelMap → KernelMap
unfolding ends is_new_tcp fresh_flow count_tx ingress_value is_none store_ingress on_ingress
audit_ingress now evicted p m = on_ingress now p.len evicted (key_from_packet false p.bytes) m

on_egress : ℕ → ℕ → Option (FlowKey × Flags) → KernelMap → KernelMap
on_egress now len none m = m
on_egress now len (some (k, f)) m = elim (find_flow k m) [
  | none ↦ m
  | some v ↦ put_flow k (count_rx now len f v) m
]

-- A packet that leaves is counted only for a flow that a packet has come in for.
unfoldable pub audit_egress : ℕ → Packet → KernelMap → KernelMap
unfolding ends count_rx on_egress
audit_egress now p m = on_egress now p.len (key_from_packet true p.bytes) m
