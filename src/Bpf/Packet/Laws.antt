-- ===== src/Bpf/Packet/Laws.antt =====
-- The keys of packets that are built from their fields, by key_from_packet of
-- sensor/bpf/audit.bpf.c.
use net_bird_audit.Prelude.{
  ℕ, ◌+◌, ◌*◌, ◌/◌, ◌%◌, ◌^◌, Bool, true, false, List, ◌∷◌, ◌++◌, some, length, nat_eq, leb, ◌≡◌,
  refl, ◌∙◌, ap, arith,
}
use net_bird_audit.Bpf.Packet.{
  byte, addr_at, Flags, no_flags, tcp_flags, transport, make_key, key_from_packet,
}
use net_bird_audit.Bpf.Packet.Frames.{
  htons, htonl, Other, IsFrame, header_bytes, packet_bytes, start, in_header, in_payload,
  length-packet_bytes, parse_ipv4-packet_bytes,
}

-- A TCP header: `seq`, `ack` and the rest behind the flags are not looked at.
abbrev pub tcp_bytes : ℕ → ℕ → ℕ → ℕ → ℕ → ℕ → ℕ → ℕ → ℕ → List ℕ → List ℕ
tcp_bytes sport dport seq ack offset flags window checksum urgent rest = htons sport (
    htons dport
      (htonl seq (htonl ack (offset ∷ flags ∷ htons window (htons checksum (htons urgent rest))))))

ntohs-htons : (n : ℕ) → n / 2 ^ 8 * 2 ^ 8 + n % 2 ^ 8 ≡ n
ntohs-htons n = omega arith

ntohl-htonl :
    (n : ℕ)
    → (n / 2 ^ 16 / 2 ^ 8 * 2 ^ 8 + n / 2 ^ 16 % 2 ^ 8) * 2 ^ 16
        + (n % 2 ^ 16 / 2 ^ 8 * 2 ^ 8 + n % 2 ^ 16 % 2 ^ 8)
      ≡ n
ntohl-htonl n = omega arith

-- Bytes of a list that stand at an offset in another.
module _ (off : ℕ) (bs cs : List ℕ) (same : (i : ℕ) → byte (off + i) bs ≡ byte i cs) where
  byte_at : (n i : ℕ) → n ≡ off + i → byte n bs ≡ byte i cs
  byte_at n i e = ap (λ (m : ℕ). byte m bs) e ∙ same i

  addr_at-shift : (i : ℕ) → addr_at (off + i) bs ≡ addr_at i cs
  addr_at-shift i =
      rw
        (
          same i,
          byte_at (off + i + 1) (i + 1) (omega arith),
          byte_at (off + i + 2) (i + 2) (omega arith),
          byte_at (off + i + 2 + 1) (i + 2 + 1) (omega arith),
        )
        refl

  transport-shift :
      (proto : ℕ) → length bs ≡ off + length cs → transport proto off bs ≡ transport proto 0 cs
  unfolding transport
  transport-shift proto size =
      let long : (n : ℕ) → leb (off + n) (length bs) ≡ leb (0 + n) (length cs) =
        λ n. ground (arith, size) in
      rw
        (
          long 20,
          long 8,
          byte_at off 0 (omega arith),
          byte_at (off + 1) (0 + 1) (omega arith),
          byte_at (off + 2) (0 + 2) (omega arith),
          byte_at (off + 2 + 1) (0 + 2 + 1) (omega arith),
          byte_at (off + 13) (0 + 13) (omega arith),
        )
        refl

addresses_of :
    (o : Other) (proto src dst : ℕ) (rest : List ℕ)
    → (byte 9 (header_bytes o proto src dst ++ rest) ≡ proto)
      × (addr_at 12 (header_bytes o proto src dst ++ rest) ≡ src)
      × (addr_at 16 (header_bytes o proto src dst ++ rest) ≡ dst)
unfolding byte
addresses_of o proto src dst rest = (refl, ntohl-htonl src, ntohl-htonl dst)

-- The key of a packet, given what its payload says of the ports and the flags.
key_of_payload :
    (reverse : Bool) (o : Other) (proto src dst sport dport : ℕ) (flags : Flags) (payload : List ℕ)
    → IsFrame o
    → transport proto 0 payload ≡ some (sport, (dport, flags))
    → key_from_packet reverse (packet_bytes o proto src dst payload)
      ≡ some (make_key reverse src dst sport dport proto, flags)
unfolding key_from_packet
key_of_payload reverse o proto src dst sport dport flags payload frame ports =
    let bs = packet_bytes o proto src dst payload in
    let ip = header_bytes o proto src dst ++ (o.options ++ payload) in
    let off = start o proto src dst payload in
    let header = in_header o proto src dst payload in
    let (nine, from, to) = addresses_of o proto src dst (o.options ++ payload) in
    let parsed = parse_ipv4-packet_bytes o proto src dst payload frame in
    let protocol : byte (off + 9) bs ≡ proto = header 9 ∙ nine in
    let source : addr_at (off + 12) bs ≡ src = addr_at-shift off bs ip header 12 ∙ from in
    let destination : addr_at (off + 16) bs ≡ dst = addr_at-shift off bs ip header 16 ∙ to in
    let behind : transport proto (off + (5 + o.words) * 4) bs ≡ some (sport, (dport, flags)) =
      transport-shift (off + (5 + o.words) * 4) bs payload
        (λ i. in_payload o proto src dst payload i frame) proto
        (length-packet_bytes o proto src dst payload frame)
      ∙ ports in
    rw (parsed, protocol, behind, source, destination) refl

-- The key that the fields of a packet have, in either direction.
module _ (o : Other) (src dst sport dport : ℕ) where
  -- What follows the ports, or stands in the headers, of no interest.
  module _ (seq ack offset flags window checksum urgent : ℕ) (rest : List ℕ) where
    abbrev pub tcp_packet : List ℕ
    tcp_packet =
        packet_bytes o 6 src dst
          (tcp_bytes sport dport seq ack offset flags window checksum urgent rest)

    tcp_transport :
        transport 6 0 (tcp_bytes sport dport seq ack offset flags window checksum urgent rest)
        ≡ some (sport, (dport, tcp_flags flags))
    unfolding transport byte
    tcp_transport = ground (arith, ntohs-htons sport, ntohs-htons dport)

    key_from_packet-tcp :
        (reverse : Bool)
        → IsFrame o
        → key_from_packet reverse tcp_packet
          ≡ some (make_key reverse src dst sport dport 6, tcp_flags flags)
    key_from_packet-tcp reverse frame =
        key_of_payload reverse o 6 src dst sport dport (tcp_flags flags)
          (tcp_bytes sport dport seq ack offset flags window checksum urgent rest) frame
          tcp_transport

  -- A UDP header with its length and checksum, and the data.
  module _ (len checksum : ℕ) (rest : List ℕ) where
    abbrev pub udp_bytes : List ℕ
    udp_bytes = htons sport (htons dport (htons len (htons checksum rest)))

    abbrev pub udp_packet : List ℕ
    udp_packet = packet_bytes o 17 src dst udp_bytes

    udp_transport : transport 17 0 udp_bytes ≡ some (sport, (dport, no_flags))
    unfolding transport byte
    udp_transport = ground (arith, ntohs-htons sport, ntohs-htons dport)

    key_from_packet-udp :
        (reverse : Bool)
        → IsFrame o
        → key_from_packet reverse udp_packet
          ≡ some (make_key reverse src dst sport dport 17, no_flags)
    key_from_packet-udp reverse frame =
        key_of_payload reverse o 17 src dst sport dport no_flags udp_bytes frame udp_transport

reply_key :
    (src dst sport dport proto : ℕ)
    → make_key true dst src dport sport proto ≡ make_key false src dst sport dport proto
unfolding make_key
reply_key src dst sport dport proto = refl

-- A TCP packet, bare or behind an Ethernet header whose first byte does not begin with the digit 4
-- in base 16, and with any options in its IPv4 header, is read as its own addresses, ports and flags
-- when it comes in. The packet that answers it when it goes out, with addresses and ports the other
-- way round, is counted under the same key, whatever the links, the options and the other fields of
-- the two are; and so for UDP.
pub key_from_packet-reply :
    (o o' : Other) (src dst sport dport seq ack offset flags window checksum urgent : ℕ)
    (seq' ack' offset' flags' window' checksum' urgent' : ℕ) (rest rest' : List ℕ)
    → IsFrame o
    → IsFrame o'
    → (key_from_packet false
          (tcp_packet o src dst sport dport seq ack offset flags window checksum urgent rest)
        ≡ some (
          record { src_ip = src; dst_ip = dst; src_port = sport; dst_port = dport; proto = 6 },
          tcp_flags flags,
        ))
      × (key_from_packet true (
            tcp_packet o' dst src dport sport seq' ack' offset' flags' window' checksum' urgent'
              rest')
          ≡ some (
            record { src_ip = src; dst_ip = dst; src_port = sport; dst_port = dport; proto = 6 },
            tcp_flags flags',
          ))
      × (key_from_packet false (udp_packet o src dst sport dport window checksum rest)
          ≡ some (
            record { src_ip = src; dst_ip = dst; src_port = sport; dst_port = dport; proto = 17 },
            no_flags,
          ))
      × (key_from_packet true (udp_packet o' dst src dport sport window' checksum' rest')
          ≡ some (
            record { src_ip = src; dst_ip = dst; src_port = sport; dst_port = dport; proto = 17 },
            no_flags,
          ))
unfolding make_key
key_from_packet-reply o o' src dst sport dport seq ack offset flags window checksum urgent seq' ack'
      offset' flags' window' checksum' urgent' rest rest' frame frame' =
    (
      key_from_packet-tcp o src dst sport dport seq ack offset flags window checksum urgent rest
          false frame,
      key_from_packet-tcp o' dst src dport sport seq' ack' offset' flags' window' checksum' urgent'
          rest' true frame',
      key_from_packet-udp o src dst sport dport window checksum rest false frame,
      key_from_packet-udp o' dst src dport sport window' checksum' rest' true frame',
    )
