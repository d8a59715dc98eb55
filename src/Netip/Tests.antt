-- ===== src/Netip/Tests.antt =====
-- Runs of the parser and the printer.
use net_bird_audit.Prelude.{◌≡◌, refl, [], ◌∷◌, codes, none, some, true}
use mathlib.Core.Option
use net_bird_audit.Netip.{
  v4, v6, parse_addr, parse_prefix, parse_addr_port, print_addr, print_prefix, contains,
}

addr4 : parse_addr (codes "10.0.0.255") ≡ some (v4 0x0a0000ff)
unfolding parse_addr
addr4 = refl

addr4_bad : parse_addr (codes "10.0.00.255") ≡ none
unfolding parse_addr
addr4_bad = refl

addr6 :
    parse_addr (codes "2001:DB8::1") ≡ some (v6 (0x2001 ∷ 0xdb8 ∷ 0 ∷ 0 ∷ 0 ∷ 0 ∷ 0 ∷ 1 ∷ []) [])
unfolding parse_addr
addr6 = refl

addr6_zone :
    parse_addr (codes "fe80::1%eth0")
    ≡ some (v6 (0xfe80 ∷ 0 ∷ 0 ∷ 0 ∷ 0 ∷ 0 ∷ 0 ∷ 1 ∷ []) (codes "eth0"))
unfolding parse_addr
addr6_zone = refl

addr6_mapped :
    parse_addr (codes "::ffff:1.2.3.4")
    ≡ some (v6 (0 ∷ 0 ∷ 0 ∷ 0 ∷ 0 ∷ 0xffff ∷ 0x102 ∷ 0x304 ∷ []) [])
unfolding parse_addr
addr6_mapped = refl

addr6_bad : parse_addr (codes "1::2::3") ≡ none
unfolding parse_addr
addr6_bad = refl

printed6 :
    Option.map print_addr (parse_addr (codes "2001:0db8:0:0:1::0"))
    ≡ some (codes "2001:db8:0:0:1::")
unfolding parse_addr print_addr
printed6 = refl

printed_mapped :
    Option.map print_addr (parse_addr (codes "::FFFF:1.2.3.4")) ≡ some (codes "::ffff:1.2.3.4")
unfolding parse_addr print_addr
printed_mapped = refl

printed_prefix :
    Option.map print_prefix (parse_prefix (codes "10.1.2.3/8")) ≡ some (codes "10.1.2.3/8")
unfolding parse_prefix print_prefix
printed_prefix = refl

prefix_zero : parse_prefix (codes "10.0.0.0/08") ≡ none
unfolding parse_prefix
prefix_zero = refl

inside :
    Option.map (λ p. contains p (v4 0x0affffff)) (parse_prefix (codes "10.1.2.3/8")) ≡ some true
unfolding parse_prefix contains
inside = refl

addr_port :
    Option.map (λ r. print_addr r.0) (parse_addr_port (codes "[::1]:51820")) ≡ some (codes "::1")
unfolding parse_addr_port print_addr
addr_port = refl
