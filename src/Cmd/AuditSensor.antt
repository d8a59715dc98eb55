-- ===== src/Cmd/AuditSensor.antt =====
-- cmd/audit-sensor/main.go, with the part of Go's flag package that it uses. How the package reads
-- an int is an argument, and so is the answer to a flag that it does not know or cannot read: the
-- program ends then.
use net_bird_audit.Prelude.{
  Text, codes, List, [], ◌∷◌, Option, none, some, ◌==◌, nat_eq, text_eq, if◌then◌else◌,
}
use net_bird_audit.Prelude.Int.{ℤ, pos}
use net_bird_audit.Sensor.Types.{Config}
use net_bird_audit.Cmd.AuditServer.{seconds}

-- The variables of the flags; the two durations are set after the parse.
pub record Flags : Type 0 where
  pub interface : Text
  pub bpf_object : Text
  pub audit_url : Text
  pub sensor_key : Text
  pub overlay_cidr : Text
  pub interval : ℤ
  pub idle : ℤ

pub defaults : Flags
defaults = record {
  interface = codes "auto";
  bpf_object = codes "/opt/netbird-audit/bpf/audit.bpf.o";
  audit_url = codes "http://127.0.0.1:9080/api/v1/flows";
  sensor_key = [];
  overlay_cidr = codes "100.64.0.0/10";
  interval = pos 10;
  idle = pos 60;
}

-- A flag gets its value; `none` for a flag that is not there, or an int that cannot be read.
set_flag : (Text → Option ℤ) → Text → Text → Flags → Option Flags
set_flag read_int name value f =
    if name == codes "interface"
    then some (record f { interface = value })
    else if name == codes "bpf-object"
    then some (record f { bpf_object = value })
    else if name == codes "audit-url"
    then some (record f { audit_url = value })
    else if name == codes "sensor-key"
    then some (record f { sensor_key = value })
    else if name == codes "overlay-cidr"
    then some (record f { overlay_cidr = value })
    else if name == codes "interval"
    then elim (read_int value) [ none ↦ none | some n ↦ some (record f { interval = n }) ]
    else if name == codes "idle"
    then elim (read_int value) [ none ↦ none | some n ↦ some (record f { idle = n }) ]
    else none

-- Cuts at the first `=`; `none` if there is none.
cut_value : Text → Text × Option Text
cut_value [] = ([], none)
cut_value (c ∷ s) =
    let (name, value) = cut_value s in if c == b'=' then ([], some s) else (c ∷ name, value)

-- The name and the value of an argument that starts with one or two dashes.
pub data Argument : Type 0 where
  no_flag bad_flag end_of_flags : Argument
  flag : Text → Option Text → Argument

named : Text × Option Text → Argument
named ([], value) = bad_flag
named (c ∷ name, value) = if c == b'-' then bad_flag else flag (c ∷ name) value

read_argument : Text → Argument
read_argument (b ∷ c ∷ s) =
    if b == b'-'
    then (if c == b'-'
        then elim s [ [] ↦ end_of_flags | d ∷ t ↦ named (cut_value (d ∷ t)) ]
        else named (cut_value (c ∷ s)))
    else no_flag
read_argument _ = no_flag

-- Every flag takes a value, behind `=` or as the next argument. What is no flag ends the parse.
parse_flags : (Text → Option ℤ) → List Text → Flags → Option Flags
parse_flags read_int [] f = some f
parse_flags read_int (a ∷ []) f = elim (read_argument a) [
  | no_flag ↦ some f
  | bad_flag ↦ none
  | end_of_flags ↦ some f
  | flag name none ↦ none
  | flag name (some value) ↦ set_flag read_int name value f
]
parse_flags read_int (a ∷ next ∷ more) f = elim (read_argument a) [
  | no_flag ↦ some f
  | bad_flag ↦ none
  | end_of_flags ↦ some f
  | flag name none ↦ elim (set_flag read_int name next f) [
    | none ↦ none
    | some g ↦ parse_flags read_int more g
  ]
  | flag name (some value) ↦ elim (set_flag read_int name value f) [
    | none ↦ none
    | some g ↦ parse_flags read_int (next ∷ more) g
  ]
]

sensor_config : Flags → Config
sensor_config f = record {
  interface = f.interface;
  object_path = f.bpf_object;
  audit_url = f.audit_url;
  sensor_key = f.sensor_key;
  overlay_cidr = f.overlay_cidr;
  interval = seconds f.interval;
  idle_timeout = seconds f.idle;
}

-- The configuration that Run is called with; `none` if the program ends before.
unfoldable pub main : (Text → Option ℤ) → List Text → Option Config
unfolding defaults set_flag cut_value named read_argument parse_flags sensor_config
main read_int args = elim (parse_flags read_int args defaults) [
  | none ↦ none
  | some f ↦ if f.sensor_key == [] then none else some (sensor_config f)
]
