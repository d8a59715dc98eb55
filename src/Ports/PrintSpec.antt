-- ===== src/Ports/PrintSpec.antt =====
-- A port list written as numbers and ranges, and what portAllowed makes of it.
use net_bird_audit.Prelude.{
  ℕ, ◌^◌, ◌≤◌, ◌<◌, ◌≡◌, refl, ap, Bool, true, false, ◌&&◌, ◌||◌, List, [], ◌∷◌, ◌++◌, Text, leb,
  ◌==◌, nat_eq, text_eq, text_beq, arith, append-nil, map, All, append_assoc,
}
use net_bird_audit.Text.{
  NoSpace, Lacks, split, split-append, split-of_Lacks, trim_space-of_NoSpace, is_space,
}
use net_bird_audit.Text.Decimal.{print}
use net_bird_audit.Text.Decimal.Scan.{starts_digit, starts_digit-print, AllDigits-print}
use net_bird_audit.Ports.{port_allowed, any_part, part_allows, in_range, is_one, lez}
use net_bird_audit.Ports.Scanning.{
  scan_int-print, scan_int-print_end, scan_range-print, scan_range-print_one, NoSpace-of_AllDigits,
  Lacks-of_AllDigits,
}

pub data PortEntry : Type 0 where
  one : ℕ → PortEntry
  range : ℕ → ℕ → PortEntry

abbrev pub print_entry : PortEntry → Text
print_entry (one n) = print n
print_entry (range a b) = print a ++ b'-' ∷ print b

abbrev pub print_spec : List PortEntry → Text
print_spec [] = []
print_spec (e ∷ []) = print_entry e
print_spec (e ∷ f ∷ es) = print_entry e ++ b',' ∷ print_spec (f ∷ es)

abbrev pub entry_allows : ℕ → PortEntry → Bool
entry_allows p (one n) = n == p
entry_allows p (range a b) = leb a p && leb p b

abbrev pub any_entry : ℕ → List PortEntry → Bool
any_entry p [] = false
any_entry p (e ∷ es) = entry_allows p e || any_entry p es

-- The numbers fit in an int, and a range is not reversed.
abbrev pub IsProper : PortEntry → Type 0
IsProper (one n) = n < 2 ^ 63
IsProper (range a b) = (a ≤ b) × (b < 2 ^ 63)

NoSpace-entry : (e : PortEntry) (rest : Text) → NoSpace rest → NoSpace (print_entry e ++ rest)
unfolding is_space
NoSpace-entry (one n) rest h = NoSpace-of_AllDigits (print n) rest (AllDigits-print n) h
NoSpace-entry (range a b) rest h = rw append_assoc (
    NoSpace-of_AllDigits (print a) (b'-' ∷ (print b ++ rest)) (AllDigits-print a)
      (refl, NoSpace-of_AllDigits (print b) rest (AllDigits-print b) h))

NoSpace-print_entry : (e : PortEntry) → NoSpace (print_entry e)
NoSpace-print_entry e = rw (append-nil (print_entry e)) at (NoSpace-entry e [] tt)

NoSpace-print_spec : (es : List PortEntry) → NoSpace (print_spec es)
unfolding is_space
NoSpace-print_spec [] = tt
NoSpace-print_spec (e ∷ []) = NoSpace-print_entry e
NoSpace-print_spec (e ∷ f ∷ es) =
    NoSpace-entry e (b',' ∷ print_spec (f ∷ es)) (refl, NoSpace-print_spec (f ∷ es))

Lacks-print : (n : ℕ) → Lacks b',' (print n)
Lacks-print n =
    rw (append-nil (print n)) at (Lacks-of_AllDigits (print n) [] (AllDigits-print n) tt)

Lacks-print_entry : (e : PortEntry) → Lacks b',' (print_entry e)
Lacks-print_entry (one n) = Lacks-print n
Lacks-print_entry (range a b) =
    Lacks-of_AllDigits (print a) (b'-' ∷ print b) (AllDigits-print a) (omega arith, Lacks-print b)

split-print_spec :
    (e : PortEntry) (es : List PortEntry)
    → split (print_spec (e ∷ es)) b',' ≡ map print_entry (e ∷ es)
split-print_spec e [] = split-of_Lacks (print_entry e) b',' (Lacks-print_entry e)
split-print_spec e (f ∷ es) =
    rw (split-append (print_entry e) (print_spec (f ∷ es)) b',' (Lacks-print_entry e))
      (ap (λ (ps : List Text). print_entry e ∷ ps) (split-print_spec f es))

part_allows-one : (p n : ℕ) → n < 2 ^ 63 → part_allows p (print n) ≡ (n == p)
unfolding part_allows in_range is_one lez
part_allows-one p n fits =
    rw (trim_space-of_NoSpace (print n) (NoSpace-print_entry (one n)))
      (rw (scan_range-print_one n fits) (rw (scan_int-print_end n fits) (ground arith)))

part_allows-range :
    (p a b : ℕ)
    → a < 2 ^ 63
    → b < 2 ^ 63
    → part_allows p (print_entry (range a b)) ≡ (leb a p && leb p b || a == p)
unfolding part_allows in_range is_one lez starts_digit
part_allows-range p a b ha hb =
    rw (trim_space-of_NoSpace (print_entry (range a b)) (NoSpace-print_entry (range a b))) (
      rw (scan_range-print a b ha hb)
        (rw (scan_int-print a (b'-' ∷ print b) ha refl) (ground arith)))

part_allows-print_entry :
    (p : ℕ) (e : PortEntry) → IsProper e → part_allows p (print_entry e) ≡ entry_allows p e
part_allows-print_entry p (one n) h = part_allows-one p n h
part_allows-print_entry p (range a b) h = ground (arith, part_allows-range p a b (omega arith) h.1)

any_part-map :
    (p : ℕ) (es : List PortEntry)
    → All IsProper es
    → any_part p (map print_entry es) ≡ any_entry p es
unfolding any_part
any_part-map p [] h = refl
any_part-map p (e ∷ es) h = ground (arith, part_allows-print_entry p e h.0, any_part-map p es h.1)

starts_digit-print_entry :
    (e : PortEntry) (rest : Text) → starts_digit (print_entry e ++ rest) ≡ true
starts_digit-print_entry (one n) rest = starts_digit-print n rest
starts_digit-print_entry (range a b) rest =
    rw append_assoc (starts_digit-print a (b'-' ∷ (print b ++ rest)))

starts_digit-print_spec :
    (e : PortEntry) (es : List PortEntry) → starts_digit (print_spec (e ∷ es)) ≡ true
starts_digit-print_spec e [] = rw (append-nil (print_entry e)) at (starts_digit-print_entry e [])
starts_digit-print_spec e (f ∷ es) = starts_digit-print_entry e (b',' ∷ print_spec (f ∷ es))

-- A text that begins with a digit is neither empty nor a star, so the parts decide.
port_allowed-at_digit :
    (s : Text) (p : ℕ)
    → NoSpace s
    → starts_digit s ≡ true
    → port_allowed s p ≡ any_part p (split s b',')
unfolding port_allowed starts_digit text_beq
port_allowed-at_digit [] p hs hd = cc
port_allowed-at_digit (c ∷ s) p hs hd = rw (trim_space-of_NoSpace (c ∷ s) hs) (ground arith)

-- A list of ports and ranges, written with commas, allows exactly the ports that one of its
-- entries holds, if the numbers fit in an int and no range is reversed.
pub port_allowed-print_spec :
    (e : PortEntry) (es : List PortEntry) (p : ℕ)
    → All IsProper (e ∷ es)
    → port_allowed (print_spec (e ∷ es)) p ≡ any_entry p (e ∷ es)
port_allowed-print_spec e es p h =
    rw (port_allowed-at_digit _ p (NoSpace-print_spec (e ∷ es)) (starts_digit-print_spec e es))
      (rw (split-print_spec e es) (any_part-map p (e ∷ es) h))

-- A range whose first number is greater than its last allows its first number, and no other port.
pub port_allowed-reversed :
    (a b p : ℕ) → b < a → a < 2 ^ 63 → port_allowed (print_spec (range a b ∷ [])) p ≡ (a == p)
unfolding any_part
port_allowed-reversed a b p h ha =
    rw
      (port_allowed-at_digit _ p (NoSpace-print_spec (range a b ∷ []))
        (starts_digit-print_spec (range a b) []))
      (rw (split-print_spec (range a b) [])
        (ground (arith, part_allows-range p a b ha (omega arith))))
