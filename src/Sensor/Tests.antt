-- ===== src/Sensor/Tests.antt =====
-- Runs of the sensor's round, and the theorems at concrete inputs.
use net_bird_audit.Prelude.{
  ◌+◌, ◌-◌, ◌≡◌, ◌⊎◌, inl, inr, refl, codes, true, false, [], ◌∷◌, some, arith, In, nat_eq,
  text_beq, none, length,
}
use net_bird_audit.Prelude.Int.{pos}
use net_bird_audit.Netip.{Prefix, v4, contains, prefix_from, parse_prefix}
use net_bird_audit.Sensor.Types.{Config, FlowKey, FlowVal, key_beq}
use net_bird_audit.Sensor.Clock.{wall_from_mono, wall_from_mono-eq, wall_from_mono-distance}
use net_bird_audit.Sensor.Setup.{success}
use net_bird_audit.Sensor.Flush.{
  flow_text, KernelMap, Flushed, flush, collect, is_ended, delete_keys,
}
use net_bird_audit.Sensor.Flush.Keys.{flow_text-injective}
use net_bird_audit.Sensor.Setup.{resolve_interface}
use net_bird_audit.Sensor.Run.{Host, Round, run, set_up, rounds}
use net_bird_audit.Sensor.Run.Laws.{left_after}
use net_bird_audit.Sensor.Flush.Laws.{
  events_of, ended_in, Reported, sent-flush, flush-unconfirmed, flush-deletes_ended,
  flush-keeps_unreported,
}

seen_sixty_ago : wall_from_mono 40 100 1000 ≡ 940
seen_sixty_ago = wall_from_mono-eq 40 100 1000 (omega arith)

distance_kept : wall_from_mono 60 100 1000 ≡ wall_from_mono 40 100 1000 + (60 - 40)
distance_kept =
    wall_from_mono-distance 40 60 100 1000 (omega arith) (omega arith) (omega arith) (omega arith)
      (omega arith)

abbrev pub cfg : Config
cfg = record {
  interface = codes "wt0";
  object_path = [];
  audit_url = codes "http://audit:9080/api/v1/flows";
  sensor_key = codes "secret";
  overlay_cidr = codes "100.64.0.0/10";
  interval = pos 5000000000;
  idle_timeout = pos 120000000000;
}

abbrev pub overlay : Prefix
overlay = prefix_from (v4 0x64400000) 10

abbrev key : FlowKey
key = record {
  src_ip = 0x64400001;
  dst_ip = 0x0a000009;
  src_port = 40000;
  dst_port = 443;
  proto = 6;
}

abbrev counters : FlowVal
counters = record {
  start_ns = 40;
  last_ns = 60;
  bytes_tx = 100;
  bytes_rx = 200;
  packets_tx = 1;
  packets_rx = 2;
  ended = 1;
}

abbrev seen : KernelMap
seen = (key, counters) ∷ []

abbrev the_round : Flushed
the_round = flush cfg overlay 1000 100 seen true (some 200) seen

ended : ended_in cfg overlay 100 (key, counters) ≡ true
unfolding contains prefix_from is_ended
ended = refl

nothing_left : the_round.left ≡ []
unfolding flush collect contains prefix_from success delete_keys is_ended key_beq
nothing_left = refl

sent-flush_example : the_round.sent ≡ some (events_of cfg overlay 1000 100 seen)
unfolding contains prefix_from
sent-flush_example = sent-flush cfg overlay 1000 100 seen true (some 200) seen

nothing_deleted : (flush cfg overlay 1000 100 seen true (some 500) seen).left ≡ seen
unfolding success
nothing_deleted = flush-unconfirmed cfg overlay 1000 100 seen true (some 500) seen (inr refl)

abbrev other_key : FlowKey
other_key = record key { src_port = 40001 }

abbrev later : KernelMap
later = (other_key, counters) ∷ seen

abbrev later_round : Flushed
later_round = flush cfg overlay 1000 100 seen true (some 204) later

other_left : In (other_key, counters) later_round.left
unfolding flush collect contains prefix_from success delete_keys is_ended key_beq
other_left = inl refl

flush-deletes_ended_example : key_beq other_key key ≡ false
unfolding success
flush-deletes_ended_example =
    flush-deletes_ended cfg overlay 1000 100 seen true (some 204) later (key, counters)
      (other_key, counters) refl refl (inl refl) ended other_left

flush-keeps_unreported_example :
    In (other_key, counters) later_round.left
    ⊎ Reported cfg overlay 1000 100 seen true (some 204) later (other_key, counters)
flush-keeps_unreported_example =
    flush-keeps_unreported cfg overlay 1000 100 seen true (some 204) later (other_key, counters)
      (inl refl)

flow_text-injective_example :
    (key_beq key key ≡ true) × (counters.start_ns ≡ (record counters { bytes_tx = 5 }).start_ns)
unfolding flow_text
flow_text-injective_example =
    flow_text-injective key key counters (record counters { bytes_tx = 5 }) (omega arith)
      (omega arith) (omega arith) (omega arith) refl

-- A host on which the set-up succeeds, and two rounds, the first of which gets no answer.
abbrev host : Host
host = record {
  interfaces = some [];
  index_of = λ name. some 3;
  reads_object = λ path. true;
  loads_object = λ path. true;
  has_programs = true;
  has_flows = true;
  attaches_ingress = λ index. true;
  attaches_egress = λ index. true;
}

abbrev unanswered : Round
unanswered = record { now = 1000; mono = 100; complete = true; status = none; later = λ m. m }

abbrev taken : Round
taken = record { now = 2000; mono = 1100; complete = true; status = some 200; later = λ m. m }

both_rounds : length (run cfg host seen (unanswered ∷ taken ∷ [])).done ≡ 2
unfolding run set_up resolve_interface text_beq parse_prefix rounds
both_rounds = refl

map_emptied : left_after seen (run cfg host seen (unanswered ∷ taken ∷ [])).done ≡ []
unfolding run set_up resolve_interface text_beq parse_prefix rounds flush collect contains success
    delete_keys is_ended key_beq
map_emptied = refl
