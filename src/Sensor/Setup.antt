-- ===== src/Sensor/Setup.antt =====
-- autoInterface, the choice of the interface in Run, and the heartbeat of
-- internal/sensor/sensor.go.
use net_bird_audit.Prelude.{
  ℕ, ◌/◌, Text, codes, Bool, false, ◌||◌, List, [], ◌∷◌, ◌++◌, Option, none, some, ◌==◌, nat_eq,
  text_eq, if◌then◌else◌,
}
use net_bird_audit.Text.{trim_suffix}
use net_bird_audit.Netip.{Addr, Prefix, parse_prefix, contains, unmap}
use net_bird_audit.Sensor.Types.{Config}

-- An interface: its name, and its addresses as net.ParseCIDR reads them, `none` where it cannot.
pub record Interface : Type 0 where
  pub name : Text
  pub addrs : List (Option Addr)

any_inside : Prefix → List (Option Addr) → Bool
any_inside pfx [] = false
any_inside pfx (none ∷ more) = any_inside pfx more
any_inside pfx (some a ∷ more) = contains pfx (unmap a) || any_inside pfx more

first_inside : Prefix → List Interface → Option Text
first_inside pfx [] = none
first_inside pfx (i ∷ is) =
    let rest = first_inside pfx is in if any_inside pfx i.addrs then some i.name else rest

-- autoInterface: `none` is an error. The interfaces are `none` if net.Interfaces fails.
unfoldable pub auto_interface : Text → Option (List Interface) → Option Text
unfolding any_inside first_inside
auto_interface cidr interfaces = elim (parse_prefix cidr) [
  | none ↦ none
  | some pfx ↦ elim interfaces [ none ↦ none | some is ↦ first_inside pfx is ]
]

-- The first test of Run: no name, or `auto`, asks for the search.
unfoldable pub resolve_interface : Config → Option (List Interface) → Option Text
resolve_interface cfg interfaces =
    if cfg.interface == [] || cfg.interface == codes "auto"
    then auto_interface cfg.overlay_cidr interfaces
    else some cfg.interface

pub record Request : Type 0 where
  pub url : Text
  pub sensor_key : Text

-- The request of `heartbeat`, without its body.
unfoldable pub heartbeat_request : Config → Request
heartbeat_request cfg = record {
  url = trim_suffix cfg.audit_url (codes "/flows") ++ codes "/sensor-heartbeat";
  sensor_key = cfg.sensor_key;
}

-- An answer is a success if its status is in the two hundreds; no answer is `none`.
unfoldable pub success : Option ℕ → Bool
success none = false
success (some status) = status / 100 == 2
