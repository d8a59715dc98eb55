-- ===== src/Sensor/Flush.antt =====
-- flush of internal/sensor/sensor.go.
pub mod Laws
pub mod Keys
pub mod Deletion
pub mod Told
use net_bird_audit.Prelude.{
  ℕ, ◌+◌, ◌-◌, Text, codes, Bool, true, false, not, ◌&&◌, ◌||◌, List, [], ◌∷◌, ◌++◌, Option, none,
  some, ◌==◌, nat_eq, if◌then◌else◌, ltb, keep,
}
use net_bird_audit.Prelude.Int.{int64, ltz}
use net_bird_audit.Time.{Time}
use net_bird_audit.Text.Decimal.{print}
use net_bird_audit.Netip.{Prefix, v4, contains, print_addr}
use net_bird_audit.Sensor.Types.{Config, FlowKey, FlowVal, FlowEvent, key_beq}
use net_bird_audit.Sensor.Clock.{wall_from_mono}
use net_bird_audit.Sensor.Setup.{success}

-- The kernel map, as a list of its entries; BPF programs change it at any time.
abbrev pub KernelMap : Type 0
KernelMap = List (FlowKey × FlowVal)

unfoldable pub proto_name : ℕ → Text
proto_name p = if p == 6 then codes "tcp" else if p == 17 then codes "udp" else print p

-- The entry has been quiet for longer than the timeout. The difference is read as an int64.
pub is_idle : Config → ℕ → FlowVal → Bool
is_idle cfg mn v = ltb v.last_ns mn && ltz cfg.idle_timeout (int64 (mn - v.last_ns))

unfoldable pub is_ended : Config → ℕ → FlowVal → Bool
unfolding is_idle
is_ended cfg mn v = not (v.ended == 0) || is_idle cfg mn v

unfoldable pub flow_text : FlowKey → FlowVal → Text
flow_text k v =
    print_addr (v4 k.src_ip)
    ++ codes ":"
    ++ print k.src_port
    ++ codes ">"
    ++ print_addr (v4 k.dst_ip)
    ++ codes ":"
    ++ print k.dst_port
    ++ codes "/"
    ++ proto_name k.proto
    ++ codes "@"
    ++ print v.start_ns

pub event_of : Config → Time → ℕ → FlowKey → FlowVal → FlowEvent
event_of cfg now mn k v = record {
  flow_key = flow_text k v;
  started_at = wall_from_mono v.start_ns mn now;
  last_seen_at = wall_from_mono v.last_ns mn now;
  src_ip = print_addr (v4 k.src_ip);
  dst_ip = print_addr (v4 k.dst_ip);
  protocol = proto_name k.proto;
  src_port = k.src_port;
  dst_port = k.dst_port;
  bytes_tx = v.bytes_tx;
  bytes_rx = v.bytes_rx;
  packets_tx = v.packets_tx;
  packets_rx = v.packets_rx;
  ended = is_ended cfg mn v;
}

-- The loop over the iterator: the events to send and the keys to delete.
unfoldable pub collect : Config → Prefix → Time → ℕ → KernelMap → List FlowEvent × List FlowKey
collect cfg pfx now mn [] = ([], [])
collect cfg pfx now mn ((k, v) ∷ rest) =
    let (events, dels) = collect cfg pfx now mn rest in
    if not (contains pfx (v4 k.src_ip))
    then (events, dels)
    else (event_of cfg now mn k v ∷ events, if is_ended cfg mn v then k ∷ dels else dels)

unfoldable pub delete_key : FlowKey → KernelMap → KernelMap
delete_key k m = keep (λ e. not (key_beq e.0 k)) m

unfoldable pub delete_keys : List FlowKey → KernelMap → KernelMap
unfolding delete_key
delete_keys [] m = m
delete_keys (k ∷ ks) m = delete_keys ks (delete_key k m)

pub data FlushError : Type 0 where
  iterate_error request_error : FlushError

-- What a round did: its error, the events that it sent, and the map that it leaves.
pub record Flushed : Type 0 where
  pub error : Option FlushError
  pub sent : Option (List FlowEvent)
  pub left : KernelMap

-- The answer decides whether the ended flows are deleted from the map as it is by then.
answered : List FlowEvent → List FlowKey → Option ℕ → KernelMap → Flushed
answered events dels status later =
    if success status
    then record { error = none; sent = some events; left = delete_keys dels later }
    else record { error = some request_error; sent = some events; left = later }

-- No request is made for no events.
deliver : List FlowEvent → List FlowKey → Option ℕ → KernelMap → Flushed
deliver [] dels status later = record { error = none; sent = none; left = later }
deliver (e ∷ es) dels status later = answered (e ∷ es) dels status later

-- `seen` is what the iterator returned and `complete` whether it ended without an error; `status`
-- is the answer of the audit server, `none` if the request failed; `later` is the map when the
-- answer is there, or when the round ends without a request.
unfoldable pub flush :
    Config → Prefix → Time → ℕ → KernelMap → Bool → Option ℕ → KernelMap → Flushed
unfolding answered deliver
flush cfg pfx now mn seen complete status later =
    let (events, dels) = collect cfg pfx now mn seen in
    if not complete
    then record { error = some iterate_error; sent = none; left = later }
    else deliver events dels status later
