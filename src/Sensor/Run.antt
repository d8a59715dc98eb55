-- ===== src/Sensor/Run.antt =====
-- Run of internal/sensor/sensor.go: the set-up, and the rounds until the context is done.
pub mod Laws
use net_bird_audit.Prelude.{
  ℕ, Text, Bool, true, false, not, ◌||◌, List, [], ◌∷◌, Option, none, some, if◌then◌else◌,
}
use net_bird_audit.Time.{Time}
use net_bird_audit.Netip.{Prefix, parse_prefix}
use net_bird_audit.Sensor.Types.{Config}
use net_bird_audit.Sensor.Setup.{Interface, Request, resolve_interface, heartbeat_request}
use net_bird_audit.Sensor.Flush.{KernelMap, Flushed, flush}

-- What a sensor that runs holds, in the order in which it was opened.
pub data Handle : Type 0 where
  collection ingress_link egress_link : Handle

-- The system under the sensor: the interfaces, the index of an interface by its name, whether the
-- object file is read and loaded, which programs and maps it has, and whether the links attach to an
-- index.
pub record Host : Type 0 where
  pub interfaces : Option (List Interface)
  pub index_of : Text → Option ℕ
  pub reads_object : Text → Bool
  pub loads_object : Text → Bool
  pub has_programs : Bool
  pub has_flows : Bool
  pub attaches_ingress : ℕ → Bool
  pub attaches_egress : ℕ → Bool

pub data Failure : Type 0 where
  no_interface unknown_interface object_unread object_unloaded object_incomplete : Failure
  ingress_unattached egress_unattached no_prefix : Failure

-- How the set-up ends, with what is open then.
pub data SetUp : Type 0 where
  failed : Failure → List Handle → SetUp
  attached : ℕ → Prefix → List Handle → SetUp

attach : Config → Host → ℕ → SetUp
attach cfg host index =
    if not (host.attaches_ingress index)
    then failed ingress_unattached (collection ∷ [])
    else if not (host.attaches_egress index)
    then failed egress_unattached (collection ∷ ingress_link ∷ [])
    else let open_handles = collection ∷ ingress_link ∷ egress_link ∷ [] in
      elim (parse_prefix cfg.overlay_cidr) [
        | none ↦ failed no_prefix open_handles
        | some pfx ↦ attached index pfx open_handles
      ]

load : Config → Host → ℕ → SetUp
unfolding attach
load cfg host index =
    if not (host.reads_object cfg.object_path)
    then failed object_unread []
    else if not (host.loads_object cfg.object_path)
    then failed object_unloaded []
    else if not host.has_programs || not host.has_flows
    then failed object_incomplete (collection ∷ [])
    else attach cfg host index

unfoldable pub set_up : Config → Host → SetUp
unfolding load
set_up cfg host = elim (resolve_interface cfg host.interfaces) [
  | none ↦ failed no_interface []
  | some name ↦ elim (host.index_of name) [
    | none ↦ failed unknown_interface []
    | some index ↦ load cfg host index
  ]
]

-- The configuration with the interface that was found.
unfoldable pub with_interface : Config → Host → Config
with_interface cfg host = elim (resolve_interface cfg host.interfaces) [
  | none ↦ cfg
  | some name ↦ record cfg { interface = name }
]

-- What a round reads from outside: see `flush`. `later` is what the kernel makes of the map in the
-- time of the round.
pub record Round : Type 0 where
  pub now : Time
  pub mono : ℕ
  pub complete : Bool
  pub status : Option ℕ
  pub later : KernelMap → KernelMap

-- The loop: a heartbeat and a flush in each round, whose errors are only written to the log. Each
-- round sees the map that the one before it left.
unfoldable pub rounds : Config → Prefix → KernelMap → List Round → List (Request × Flushed)
rounds cfg pfx m [] = []
rounds cfg pfx m (r ∷ rs) =
    let done = flush cfg pfx r.now r.mono m r.complete r.status (r.later m) in
    (heartbeat_request cfg, done) ∷ rounds cfg pfx done.left rs

-- What Run returns when the context is done after `rs` rounds: the error of the set-up if there is
-- one, what it did in each round, and what it closes, the last first.
pub record Ran : Type 0 where
  pub error : Option Failure
  pub done : List (Request × Flushed)
  pub closed : List Handle

closing : List Handle → List Handle → List Handle
closing seen [] = seen
closing seen (h ∷ hs) = closing (h ∷ seen) hs

unfoldable pub run : Config → Host → KernelMap → List Round → Ran
unfolding closing
run cfg host m rs = elim (set_up cfg host) [
  | failed e held ↦ record { error = some e; done = []; closed = closing [] held }
  | attached index pfx held ↦ record {
    error = none;
    done = rounds (with_interface cfg host) pfx m rs;
    closed = closing [] held;
  }
]
