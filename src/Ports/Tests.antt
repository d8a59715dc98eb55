-- ===== src/Ports/Tests.antt =====
-- Runs of `port_allowed`.
use net_bird_audit.Prelude.{ℕ, ◌≡◌, refl, codes, true, false, [], ◌∷◌, ◌==◌, nat_eq, arith}
use net_bird_audit.Ports.{port_allowed}
use net_bird_audit.Ports.PrintSpec.{
  one, range, print_spec, any_entry, port_allowed-print_spec, port_allowed-reversed,
}

list_and_range : port_allowed (codes "22, 8000-8080 ,443") 8080 ≡ true
unfolding port_allowed
list_and_range = refl

outside : port_allowed (codes "22, 8000-8080 ,443") 8081 ≡ false
unfolding port_allowed
outside = refl

star : port_allowed (codes " * ") 1 ≡ true
unfolding port_allowed
star = refl

spaced_range : port_allowed (codes "80 - 90") 85 ≡ false
unfolding port_allowed
spaced_range = refl

trailing : port_allowed (codes "80tcp") 80 ≡ true
unfolding port_allowed
trailing = refl

reversed : port_allowed (codes "90-80") 90 ≡ true
unfolding port_allowed
reversed = refl

port_allowed-print_spec_example :
    port_allowed (print_spec (one 22 ∷ range 8000 8080 ∷ [])) 8080
    ≡ any_entry 8080 (one 22 ∷ range 8000 8080 ∷ [])
port_allowed-print_spec_example =
    port_allowed-print_spec (one 22) (range 8000 8080 ∷ []) 8080 (omega arith)

reversed_range : port_allowed (print_spec (range 90 80 ∷ [])) 85 ≡ ◌==◌ {T = ℕ} 90 85
reversed_range = port_allowed-reversed 90 80 85 (omega arith) (omega arith)
