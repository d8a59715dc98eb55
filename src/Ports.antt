-- ===== src/Ports.antt =====
-- portAllowed of internal/db/db.go, with the part of fmt.Sscanf that it calls.

pub mod PrintSpec
pub mod Scanning
pub mod Tests
use net_bird_audit.Prelude.{
  ℕ, ◌^◌, Bool, true, false, ◌&&◌, ◌||◌, List, [], ◌∷◌, Text, codes, ltb, leb, ◌==◌, nat_eq,
  text_eq, text_beq, if◌then◌else◌, Option, none, some,
}
use net_bird_audit.Prelude.Int.{ℤ, pos, minus, ltz, pos_part}
use net_bird_audit.Prelude.Maybe.{◌>>=◌, ◌>>◌, guard}
use net_bird_audit.Text.{is_space, trim_space, split}
use net_bird_audit.Text.Decimal.Scan.{scan, starts_digit}

-- Spaces before a number; a newline there is an error.
skip_space : Text → Option Text
skip_space [] = some []
skip_space (c ∷ s) =
    let more = skip_space s in
    if c == b'\n' then none else if is_space c then more else some (c ∷ s)

sign : Text → Bool × Text
sign [] = (false, [])
sign (c ∷ s) = if c == b'-' then (true, s) else if c == b'+' then (false, s) else (false, c ∷ s)

-- `%d` into an int: an optional sign, one digit or more, and a value that fits in 64 bits.
pub scan_int : Text → Option (ℤ × Text)
unfolding skip_space sign scan starts_digit is_space
scan_int s = do
  t ← skip_space s
  let (negative, u) = sign t
  guard (starts_digit u)
  let (n, rest) = scan u 0
  if negative
      then (if ltb (2 ^ 63) n then none else some (minus n, rest))
      else (if ltb n (2 ^ 63) then some (pos n, rest) else none)

literal : ℕ → Text → Option Text
literal b [] = none
literal b (c ∷ s) = if c == b then some s else none

-- fmt.Sscanf(part, "%d-%d", &a, &b); what follows is not looked at.
pub scan_range : Text → Option (ℤ × ℤ)
scan_range part = do (a, s) ← scan_int part; t ← literal b'-' s; (b, rest) ← scan_int t; some (a, b)

lez : ℤ → ℤ → Bool
lez a b = elim (ltz b a) [ true ↦ false | false ↦ true ]

in_range : ℕ → Option (ℤ × ℤ) → Bool
in_range p none = false
in_range p (some (a, b)) = lez a (pos p) && lez (pos p) b

is_one : ℕ → Option (ℤ × Text) → Bool
is_one p none = false
is_one p (some (a, rest)) = lez a (pos p) && lez (pos p) a

-- One round of the loop over the parts.
part_allows : ℕ → Text → Bool
part_allows p part =
    in_range p (scan_range (trim_space part)) || is_one p (scan_int (trim_space part))

any_part : ℕ → List Text → Bool
any_part p [] = false
any_part p (part ∷ parts) = part_allows p part || any_part p parts

unfoldable pub port_allowed : Text → ℕ → Bool
unfolding any_part part_allows in_range is_one lez scan_range literal scan_int split trim_space
    text_beq
port_allowed spec p =
    if trim_space spec == [] || trim_space spec == codes "*"
    then true
    else any_part p (split spec b',')
