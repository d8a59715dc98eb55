-- ===== src/Bpf/Tests.antt =====
-- The programs on concrete packets, and the theorems on them.
use net_bird_audit.Prelude.{
  ℕ, ◌≡◌, ◌≤◌, inl, refl, true, false, [], ◌∷◌, some, List, In, All, arith,
}
use net_bird_audit.Netip.{v4, contains, prefix_from}
use net_bird_audit.Sensor.Types.{FlowKey, FlowVal, FlowEvent, key_beq}
use net_bird_audit.Sensor.Flush.{delete_keys, event_of, flush}
use net_bird_audit.Sensor.Flush.Laws.{events_of}
use net_bird_audit.Bpf.Packet.{
  no_flags, key_from_packet, tcp_flags, parse_ipv4, byte, ip_offset, transport, make_key,
}
use net_bird_audit.Bpf.Packet.Frames.{Other, IsFrame, bare, ethernet}
use net_bird_audit.Bpf.Packet.Laws.{tcp_packet, udp_packet, key_from_packet-reply}
use net_bird_audit.Bpf.Programs.{
  Packet, audit_ingress, audit_egress, update_flow, find_flow, put_flow, is_new_tcp,
}
use net_bird_audit.Bpf.Programs.Counting.{
  Event, came_in, went_out, deleted, count_event, count_events, flags_in,
}
use net_bird_audit.Bpf.Programs.Adds.{continues}
use net_bird_audit.Bpf.Programs.Tallies.{Tally, count_events-Tally}
use net_bird_audit.Bpf.Kernel.{Kernel, Reach, here, next, packet_in, loaded}
use net_bird_audit.Bpf.Kernel.Laws.{Reach-events_of}
use net_bird_audit.Bpf.Kernel.Reported.{Accounts, count_events-flush}
use net_bird_audit.Sensor.Tests.{cfg, overlay}

abbrev plain : Other
plain = record {
  link = bare;
  words = 0;
  options = [];
  tos = 0;
  total = 40;
  id = 7;
  fragment = 0;
  ttl = 64;
  checksum = 0;
}

-- Behind an Ethernet header, and with a word of options.
abbrev framed : Other
framed = record plain {
  link = ethernet (2 ∷ 0 ∷ 0 ∷ 0 ∷ 0 ∷ 1 ∷ 2 ∷ 0 ∷ 0 ∷ 0 ∷ 0 ∷ 2 ∷ []);
  words = 1;
  options = 1 ∷ 1 ∷ 1 ∷ 0 ∷ [];
}

plain-IsFrame : IsFrame plain
plain-IsFrame = record { link = tt; room = omega arith; options = omega arith }

framed-IsFrame : IsFrame framed
unfolding byte
framed-IsFrame = record { link = (omega arith, refl); room = omega arith; options = omega arith }

-- 100.64.0.1 port 40000, to 10.0.0.9 port 443.
abbrev key : FlowKey
key = record {
  src_ip = 1682964481;
  dst_ip = 167772169;
  src_port = 40000;
  dst_port = 443;
  proto = 6;
}

abbrev request_bytes : ℕ → List ℕ
request_bytes flags = tcp_packet plain 1682964481 167772169 40000 443 1 2 80 flags 100 0 0 []

abbrev reply_bytes : ℕ → List ℕ
reply_bytes flags = tcp_packet plain 167772169 1682964481 443 40000 3 4 80 flags 100 0 0 []

abbrev syn : Packet
syn = record { bytes = request_bytes 2; len = 60 }

abbrev syn_ack : Packet
syn_ack = record { bytes = reply_bytes 18; len = 52 }

abbrev fin : Packet
fin = record { bytes = request_bytes 17; len = 40 }

abbrev framed_reply : List ℕ
framed_reply = tcp_packet framed 167772169 1682964481 443 40000 3 4 80 18 100 0 0 []

key_from_packet-reply_example :
    (key_from_packet false (request_bytes 2) ≡ some (key, tcp_flags 2))
    × (key_from_packet true framed_reply ≡ some (key, tcp_flags 18))
    × (key_from_packet false (udp_packet plain 1682964481 167772169 40000 443 100 0 [])
        ≡ some (record key { proto = 17 }, no_flags))
    × (key_from_packet true (udp_packet framed 167772169 1682964481 443 40000 100 0 [])
        ≡ some (record key { proto = 17 }, no_flags))
key_from_packet-reply_example =
    key_from_packet-reply plain framed 1682964481 167772169 40000 443 1 2 80 2 100 0 0 3 4 80 18 100
      0 0 [] [] plain-IsFrame framed-IsFrame

-- The key of another flow, which the kernel evicts and the sensor deletes.
abbrev other_key : FlowKey
other_key = record key { src_port = 40001 }

abbrev after_syn : List Event
after_syn = went_out 200 syn_ack ∷ deleted (other_key ∷ []) ∷ came_in 300 [] fin ∷ []

syn_key : flags_in key (came_in 100 (other_key ∷ []) syn) ≡ some (tcp_flags 2)
unfolding flags_in key_from_packet parse_ipv4 byte ip_offset transport tcp_flags key_beq make_key
syn_key = refl

no_restart : All (λ e. continues key e ≡ true) after_syn
unfolding flags_in key_from_packet parse_ipv4 byte ip_offset transport tcp_flags key_beq make_key
    is_new_tcp
no_restart = (refl, (refl, (refl, tt)))

count_events-Tally_example :
    (v : FlowVal) × (find_flow key (count_events (came_in 100 (other_key ∷ []) syn ∷ after_syn) [])
      ≡ some v)
    × Tally key 100 (came_in 100 (other_key ∷ []) syn ∷ after_syn) v
unfolding find_flow
count_events-Tally_example =
    count_events-Tally key 100 (other_key ∷ []) syn (tcp_flags 2) after_syn [] syn_key (inl refl)
      (omega arith) no_restart

counted :
    find_flow key (count_events (came_in 100 (other_key ∷ []) syn ∷ after_syn) [])
    ≡ some (record {
      start_ns = 100;
      last_ns = 300;
      bytes_tx = 100;
      bytes_rx = 52;
      packets_tx = 2;
      packets_rx = 1;
      ended = 1;
    })
unfolding count_events count_event find_flow audit_ingress audit_egress put_flow key_from_packet
    parse_ipv4 byte ip_offset transport tcp_flags key_beq make_key delete_keys update_flow
counted = refl

abbrev after_in : Kernel
after_in = record { clock = 100; flows = audit_ingress 100 [] syn [] }

reached : Reach (loaded 50) after_in
reached = next here (packet_in (loaded 50) 100 [] syn (omega arith))

abbrev first_value : FlowVal
first_value = record {
  start_ns = 100;
  last_ns = 100;
  bytes_tx = 60;
  bytes_rx = 0;
  packets_tx = 1;
  packets_rx = 0;
  ended = 0;
}

abbrev first_event : FlowEvent
first_event = event_of cfg 1000 300 key first_value

is_reported : In first_event (events_of cfg overlay 1000 300 after_in.flows)
unfolding audit_ingress put_flow find_flow key_from_packet parse_ipv4 byte ip_offset transport
    tcp_flags make_key contains prefix_from delete_keys update_flow
is_reported = inl refl

Reach-events_of_example : first_event.started_at ≤ first_event.last_seen_at
Reach-events_of_example =
    Reach-events_of 50 after_in cfg overlay 1000 300 first_event (omega arith) reached (omega arith)
      is_reported

in_overlay : contains overlay (v4 key.src_ip) ≡ true
unfolding contains prefix_from
in_overlay = refl

count_events-flush_example :
    (sent : List FlowEvent) × ((flush cfg overlay 1000 400
        (count_events (came_in 100 (other_key ∷ []) syn ∷ after_syn) [])
        true
        (some 200)
        []).sent
      ≡ some sent)
    × ((x : FlowEvent) × In x sent × Accounts key (came_in 100 (other_key ∷ []) syn ∷ after_syn) x)
unfolding find_flow
count_events-flush_example =
    count_events-flush key 100 (other_key ∷ []) syn (tcp_flags 2) after_syn [] cfg overlay 1000 400
      (some 200) [] syn_key (inl refl) (omega arith) no_restart in_overlay
