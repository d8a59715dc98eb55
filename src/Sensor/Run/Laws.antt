-- ===== src/Sensor/Run/Laws.antt =====
-- The rounds of Run of internal/sensor/sensor.go together.
use net_bird_audit.Prelude.{length, ℕ, some, none, In, List, [], ◌∷◌, ◌≡◌, ◌⊎◌}
use net_bird_audit.Netip.{Prefix}
use net_bird_audit.Sensor.Types.{Config, FlowKey, FlowVal}
use net_bird_audit.Sensor.Setup.{Request}
use net_bird_audit.Sensor.Flush.{KernelMap, Flushed}
use net_bird_audit.Sensor.Flush.Told.{Told}
use net_bird_audit.Sensor.Run.{Handle, Failure, Host, failed, attached, set_up, Round, run}

-- The map has an entry of the key.
abbrev pub HasKey : FlowKey → KernelMap → Type 0
HasKey k m = (v : FlowVal) × In (k, v) m

-- In the time of the round the kernel does not evict the key.
abbrev pub Keeps : FlowKey → Round → Type 0
Keeps k r = (m : KernelMap) → HasKey k m → HasKey k (r.later m)

-- The map that the last round leaves.
abbrev pub left_after : KernelMap → List (Request × Flushed) → KernelMap
left_after m [] = m
left_after m (d ∷ ds) = left_after d.1.left ds

-- One of the rounds has told the server of the key.
abbrev pub ToldOnce : FlowKey → List (Request × Flushed) → Type 0
ToldOnce k ds = (d : Request × Flushed) × In d ds × Told k d.1

-- The set-up fails, and the run makes no round and returns its error; or it succeeds, and the run
-- makes every round and returns no error.
abbrev pub Ends : Config → Host → KernelMap → List Round → Type 0
Ends cfg host m rs =
    ((e : Failure) × (held : List Handle) × (set_up cfg host ≡ failed e held)
      × ((run cfg host m rs).error ≡ some e)
      × ((run cfg host m rs).done ≡ []))
    ⊎ ((index : ℕ) × (pfx : Prefix) × (held : List Handle) × (set_up cfg host
          ≡ attached index pfx held)
        × ((run cfg host m rs).error ≡ none)
        × (length (run cfg host m rs).done ≡ length rs))
