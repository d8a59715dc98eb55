-- ===== src/Netip/Print.antt =====
-- ip.String() and p.String().
pub mod Laws
use net_bird_audit.Prelude.{
  ℕ, zero, suc, ◌+◌, ◌-◌, ◌*◌, ◌/◌, ◌%◌, ◌^◌, Bool, true, false, not, ◌&&◌, List, [], ◌∷◌, ◌++◌,
  Text, codes, ltb, ◌==◌, nat_eq, if◌then◌else◌,
}
use net_bird_audit.Text.Decimal.{print}
use net_bird_audit.Netip.Types.{Addr, v4, v6, Prefix}

print4 : ℕ → Text
unfolding print
print4 n =
    print (n / 2 ^ 24)
    ++ b'.'
      ∷ (print (n / 2 ^ 16 % 256) ++ b'.' ∷ (print (n / 2 ^ 8 % 256) ++ b'.' ∷ print (n % 256)))

hex_digit : ℕ → ℕ
hex_digit d = if ltb d 10 then b'0' + d else b'a' + (d - 10)

-- A group in hex without leading zeros.
print_group : ℕ → Text
unfolding hex_digit
print_group g =
    let d = hex_digit (g % 16) ∷ [] in
    let c = hex_digit (g / 16 % 16) ∷ d in
    let b = hex_digit (g / 256 % 16) ∷ c in
    if ltb g 16
    then d
    else if ltb g 256
    then c
    else if ltb g 4096
    then b
    else hex_digit (g / 4096) ∷ b

zero_run : List ℕ → ℕ
zero_run [] = 0
zero_run (g ∷ gs) = let n = zero_run gs in if g == 0 then suc n else 0

-- The first longest run of at least two zero groups: its start and its length, length 0 if none.
longest : List ℕ → ℕ → ℕ → ℕ → ℕ × ℕ
longest [] i start run = (start, run)
longest (g ∷ gs) i start run =
    let n = zero_run (g ∷ gs) in
    let better = ltb 1 n && ltb run n in
    longest gs (i + 1) (if better then i else start) (if better then n else run)

-- The groups from `i` on; `skip` groups of the run are still to be left out.
print_groups : List ℕ → ℕ → ℕ → ℕ → ℕ → Bool → Text
print_groups [] i start run skip colon = []
print_groups (g ∷ gs) i start run zero colon =
    let here = print_groups gs (i + 1) start run (run - 1) false in
    let next = print_groups gs (i + 1) start run 0 true in
    if not (run == 0) && i == start
    then b':' ∷ b':' ∷ here
    else if colon
    then b':' ∷ print_group g ++ next
    else print_group g ++ next
print_groups (g ∷ gs) i start run (suc skip) colon = print_groups gs (i + 1) start run skip false

print6 : List ℕ → Text
unfolding print4 print_group zero_run longest print_groups
print6 (zero ∷ zero ∷ zero ∷ zero ∷ zero ∷ f ∷ g ∷ h ∷ []) =
    if f == 0xffff
    then codes "::ffff:" ++ print4 (g * 2 ^ 16 + h)
    else let (start, run) = longest (0 ∷ 0 ∷ 0 ∷ 0 ∷ 0 ∷ f ∷ g ∷ h ∷ []) 0 0 0 in
      print_groups (0 ∷ 0 ∷ 0 ∷ 0 ∷ 0 ∷ f ∷ g ∷ h ∷ []) 0 start run 0 false
print6 gs = let (start, run) = longest gs 0 0 0 in print_groups gs 0 start run 0 false

unfoldable pub print_addr : Addr → Text
unfolding print4 print6
print_addr (v4 n) = print4 n
print_addr (v6 gs []) = print6 gs
print_addr (v6 gs (c ∷ zone)) = print6 gs ++ b'%' ∷ c ∷ zone

unfoldable pub print_prefix : Prefix → Text
unfolding print_addr print
print_prefix p = print_addr p.addr ++ b'/' ∷ print p.bits
