-- ===== src/Bpf/Packet.antt =====
-- parse_ipv4 and key_from_packet of sensor/bpf/audit.bpf.c. The bytes of a packet are those from
-- data to data_end; a bit field of a header is the bits of its byte, and a port is the number that
-- bpf_ntohs makes of it.
pub mod Frames
pub mod Laws
use net_bird_audit.Prelude.{
  ℕ, zero, suc, ◌+◌, ◌-◌, ◌*◌, ◌/◌, ◌%◌, ◌^◌, Text, Bool, true, false, not, ◌&&◌, ◌||◌, List, [],
  ◌∷◌, Option, none, some, length, ◌==◌, nat_eq, if◌then◌else◌, ltb, leb,
}
use net_bird_audit.Prelude.Maybe.{◌>>=◌, ◌>>◌, guard}
use net_bird_audit.Sensor.Types.{FlowKey}

-- A byte that is there: the code looks at no other.
unfoldable pub byte : ℕ → List ℕ → ℕ
byte i [] = 0
byte zero (b ∷ bs) = b
byte (suc i) (b ∷ bs) = byte i bs

-- Two and four bytes in network order.
abbrev pub ntohs : ℕ → List ℕ → ℕ
ntohs i bs = byte i bs * 2 ^ 8 + byte (i + 1) bs

abbrev pub addr_at : ℕ → List ℕ → ℕ
addr_at i bs = ntohs i bs * 2 ^ 16 + ntohs (i + 2) bs

-- Where the IPv4 header starts, and its length in words of four bytes.
pub record Ipv4 : Type 0 where
  pub off : ℕ
  pub ihl : ℕ

-- The header stands first, or behind an Ethernet header.
unfoldable pub ip_offset : List ℕ → Option ℕ
ip_offset bs =
    if byte 0 bs / 16 == 4
    then some 0
    else if leb 14 (length bs) && ntohs 12 bs == 0x0800
    then some 14
    else none

unfoldable pub parse_ipv4 : List ℕ → Option Ipv4
parse_ipv4 bs = do
  guard (leb 1 (length bs))
  off ← ip_offset bs
  guard (leb (off + 20) (length bs))
  let ihl = byte off bs % 16
  guard (byte off bs / 16 == 4 && leb 5 ihl && leb (off + ihl * 4) (length bs))
  some (record { off = off; ihl = ihl })

pub record Flags : Type 0 where
  pub fin : Bool
  pub syn : Bool
  pub rst : Bool
  pub ack : Bool

abbrev pub no_flags : Flags
no_flags = record { fin = false; syn = false; rst = false; ack = false }

abbrev pub bit : ℕ → ℕ → Bool
bit n b = b / 2 ^ n % 2 == 1

unfoldable pub tcp_flags : ℕ → Flags
tcp_flags b = record { fin = bit 0 b; syn = bit 1 b; rst = bit 2 b; ack = bit 4 b }

-- The ports and the flags of the header behind the IPv4 header: at least 20 bytes for TCP, and 8
-- for UDP, which has no flags.
unfoldable pub transport : ℕ → ℕ → List ℕ → Option (ℕ × (ℕ × Flags))
unfolding tcp_flags
transport proto off bs =
    if proto == 6
    then (if leb (off + 20) (length bs)
        then some (ntohs off bs, (ntohs (off + 2) bs, tcp_flags (byte (off + 13) bs)))
        else none)
    else if proto == 17
    then (if leb (off + 8) (length bs)
        then some (ntohs off bs, (ntohs (off + 2) bs, no_flags))
        else none)
    else none

-- The key of the direction in which the client sends: `reverse` is for packets the other way.
unfoldable pub make_key : Bool → ℕ → ℕ → ℕ → ℕ → ℕ → FlowKey
make_key reverse saddr daddr sport dport proto =
    if reverse
    then record {
      src_ip = daddr;
      dst_ip = saddr;
      src_port = dport;
      dst_port = sport;
      proto = proto;
    }
    else record {
      src_ip = saddr;
      dst_ip = daddr;
      src_port = sport;
      dst_port = dport;
      proto = proto;
    }

unfoldable pub key_from_packet : Bool → List ℕ → Option (FlowKey × Flags)
key_from_packet reverse bs = do
  ip ← parse_ipv4 bs
  let proto = byte (ip.off + 9) bs
  (sport, (dport, flags)) ← transport proto (ip.off + ip.ihl * 4) bs
  some (
    make_key reverse (addr_at (ip.off + 12) bs) (addr_at (ip.off + 16) bs) sport dport proto,
    flags,
  )
