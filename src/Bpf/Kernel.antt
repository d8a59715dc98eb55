-- ===== src/Bpf/Kernel.antt =====
-- The kernel map as the programs of sensor/bpf/audit.bpf.c, the kernel and the sensor of
-- internal/sensor/sensor.go change it together, in any order.
pub mod Laws
pub mod Reported
use net_bird_audit.Prelude.{ℕ, ◌≤◌, ◌<◌, List, []}
use net_bird_audit.Sensor.Types.{FlowKey}
use net_bird_audit.Sensor.Flush.{KernelMap, delete_keys}
use net_bird_audit.Bpf.Programs.{Packet, audit_ingress, audit_egress}

-- The monotonic clock, and the map.
pub record Kernel : Type 0 where
  pub clock : ℕ
  pub flows : KernelMap

-- A packet comes in or goes out, at a time not before the last one; the kernel evicts keys that were
-- not used for long, since the map is an LRU map, or the sensor deletes keys.
pub data Step : Kernel → Kernel → Type 0 where
  packet_in :
      (k : Kernel) (now : ℕ) (evicted : List FlowKey) (p : Packet)
      → k.clock ≤ now
      → Step k (record { clock = now; flows = audit_ingress now evicted p k.flows })
  packet_out :
      (k : Kernel) (now : ℕ) (p : Packet)
      → k.clock ≤ now
      → Step k (record { clock = now; flows = audit_egress now p k.flows })
  removed :
      (k : Kernel) (keys : List FlowKey)
      → Step k (record { clock = k.clock; flows = delete_keys keys k.flows })

pub data Reach (k : Kernel) : Kernel → Type 0 where
  here : Reach k k
  next : {i j : Kernel} → Reach k i → Step i j → Reach k j

-- The map of a program that was just loaded.
abbrev pub loaded : ℕ → Kernel
loaded now = record { clock = now; flows = [] }
