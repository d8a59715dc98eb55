-- ===== src/Sensor/Types.antt =====
-- The structs of internal/sensor/sensor.go.
use net_bird_audit.Prelude.{ℕ, Text, Bool, ◌&&◌, ◌==◌, nat_eq}
use net_bird_audit.Time.{Time, Duration}

pub record Config : Type 0 where
  pub interface : Text
  pub object_path : Text
  pub audit_url : Text
  pub sensor_key : Text
  pub overlay_cidr : Text
  pub interval : Duration
  pub idle_timeout : Duration

-- The key of the kernel map. An address is the 32-bit number of its four bytes.
pub record FlowKey : Type 0 where
  pub src_ip : ℕ
  pub dst_ip : ℕ
  pub src_port : ℕ
  pub dst_port : ℕ
  pub proto : ℕ

pub record FlowVal : Type 0 where
  pub start_ns : ℕ
  pub last_ns : ℕ
  pub bytes_tx : ℕ
  pub bytes_rx : ℕ
  pub packets_tx : ℕ
  pub packets_rx : ℕ
  pub ended : ℕ

pub record FlowEvent : Type 0 where
  pub flow_key : Text
  pub started_at : Time
  pub last_seen_at : Time
  pub src_ip : Text
  pub dst_ip : Text
  pub protocol : Text
  pub src_port : ℕ
  pub dst_port : ℕ
  pub bytes_tx : ℕ
  pub bytes_rx : ℕ
  pub packets_tx : ℕ
  pub packets_rx : ℕ
  pub ended : Bool

unfoldable pub key_beq : FlowKey → FlowKey → Bool
key_beq a b =
    a.src_ip == b.src_ip
    && a.dst_ip == b.dst_ip
    && a.src_port == b.src_port
    && a.dst_port == b.dst_port
    && a.proto == b.proto
