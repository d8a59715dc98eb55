-- ===== src/Netip/Parse.antt =====
-- netip.ParseAddr, ParsePrefix and ParseAddrPort. An error is `none`.
use mathlib.Core.List.{reverse}
use net_bird_audit.Prelude.{
  ℕ, zero, suc, ◌+◌, ◌-◌, ◌*◌, ◌/◌, ◌%◌, ◌^◌, Bool, true, false, not, ◌&&◌, ◌||◌, List, [], ◌∷◌,
  ◌++◌, Text, ltb, leb, ◌==◌, nat_eq, if◌then◌else◌, Option, none, some, length, take,
}
use net_bird_audit.Prelude.Maybe.{◌>>=◌, ◌>>◌, guard}
use net_bird_audit.Text.{last_index}
use net_bird_audit.Text.Decimal.Scan.{is_digit, scan}
use net_bird_audit.Netip.Types.{Addr, v4, v6, Prefix, is6, bit_len, prefix_from}

-- parseIPv4Fields: `val` and `dig` are the current octet and its digits, `done` the octets before.
fields : Text → ℕ → ℕ → ℕ → ℕ → Option ℕ
unfolding is_digit
fields [] val dig done acc = if done == 3 then some (acc * 256 + val) else none
fields (c ∷ s) val dig done acc =
    let v = val * 10 + (c - b'0') in
    let more = fields s v (dig + 1) done acc in
    let next = fields s 0 0 (done + 1) (acc * 256 + val) in
    if is_digit c
    then (if dig == 1 && val == 0 || ltb 255 v then none else more)
    else if c == b'.' && not (dig == 0 || length s == 0 || done == 3)
    then next
    else none

hex_value : ℕ → Option ℕ
unfolding is_digit
hex_value c =
    if is_digit c
    then some (c - b'0')
    else if leb b'a' c && leb c b'f'
    then some (c - b'a' + 10)
    else if leb b'A' c && leb c b'F'
    then some (c - b'A' + 10)
    else none

-- The hex digits in front: how many, their value, and the rest. A fifth digit is an error.
hex_run : Text → ℕ → ℕ → Option (ℕ × ℕ × Text)
hex_run [] off acc = some (off, acc, [])
hex_run (c ∷ s) off acc = elim (hex_value c) [
  | none ↦ some (off, acc, c ∷ s)
  | some d ↦ if ltb 3 off then none else hex_run s (off + 1) (acc * 16 + d)
]

-- What follows a group: the end, one colon, or the ellipsis.
after_group : Text → List ℕ → Option ℕ → Option (Text × Option ℕ)
after_group [] gs ellipsis = some ([], ellipsis)
after_group (c ∷ []) gs ellipsis = none
after_group (c ∷ d ∷ s) gs ellipsis =
    if not (c == b':')
    then none
    else if d == b':'
    then elim ellipsis [ none ↦ some (s, some (length gs)) | some _ ↦ none ]
    else some (d ∷ s, ellipsis)

-- The loop of parseIPv6: `room` groups are missing.
groups : ℕ → Text → List ℕ → Option ℕ → Option (List ℕ × Option ℕ × Text)
unfolding fields hex_value hex_run after_group
groups zero s gs ellipsis = some (gs, ellipsis, s)
groups (suc room) s gs ellipsis = do
  (off, acc, rest) ← hex_run s 0 0
  guard (not (off == 0))
  elim rest [
    | [] ↦ some (gs ++ acc ∷ [], ellipsis, [])
    | c ∷ t ↦
        if c == b'.'
        then (do
          elim ellipsis [ none ↦ guard (room == 1) | some _ ↦ guard (not (room == 0)) ]
          n ← fields s 0 0 0 0
          some (gs ++ n / 2 ^ 16 ∷ n % 2 ^ 16 ∷ [], ellipsis, []))
        else (do
          (s', ellipsis') ← after_group (c ∷ t) (gs ++ acc ∷ []) ellipsis
          elim s' [
            | [] ↦ some (gs ++ acc ∷ [], ellipsis', [])
            | d ∷ u ↦ groups room (d ∷ u) (gs ++ acc ∷ []) ellipsis'
          ])
  ]

zeros : ℕ → List ℕ
zeros zero = []
zeros (suc n) = 0 ∷ zeros n

split_at : ℕ → List ℕ → List ℕ × List ℕ
split_at zero gs = ([], gs)
split_at (suc n) [] = ([], [])
split_at (suc n) (g ∷ gs) = let (a, b) = split_at n gs in (g ∷ a, b)

-- Eight groups, the ellipsis filled with zeros.
expand : List ℕ × Option ℕ × Text → Option (List ℕ)
unfolding zeros split_at
expand (gs, ellipsis, s) = do
  guard (length s == 0)
  elim ellipsis [
    | none ↦ if length gs == 8 then some gs else none
    | some e ↦
        if ltb (length gs) 8
        then (let (a, b) = split_at e gs in some (a ++ zeros (8 - length gs) ++ b))
        else none
  ]

-- Cuts at the first '%'.
cut_zone : Text → Text × Option Text
cut_zone [] = ([], none)
cut_zone (c ∷ s) = let (a, z) = cut_zone s in if c == b'%' then ([], some s) else (c ∷ a, z)

parse6_body : Text → Option (List ℕ)
unfolding groups expand
parse6_body (c ∷ d ∷ []) =
    if c == b':' && d == b':'
    then expand ([], some 0, [])
    else groups 8 (c ∷ d ∷ []) [] none >>= expand
parse6_body (c ∷ d ∷ e ∷ s) =
    if c == b':' && d == b':'
    then groups 8 (e ∷ s) [] (some 0) >>= expand
    else groups 8 (c ∷ d ∷ e ∷ s) [] none >>= expand
parse6_body s = groups 8 s [] none >>= expand

parse6 : Text → Option Addr
unfolding cut_zone parse6_body
parse6 s =
    let (body, zone) = cut_zone s in
    elim zone [
      | none ↦ (do gs ← parse6_body body; some (v6 gs []))
      | some z ↦ (do guard (not (length z == 0)); gs ← parse6_body body; some (v6 gs z))
    ]

-- The first '.', ':' or '%' decides the family.
choose : Text → Text → Option Addr
choose [] whole = none
choose (c ∷ s) whole =
    let more = choose s whole in
    if c == b'.'
    then (do n ← fields whole 0 0 0 0; some (v4 n))
    else if c == b':'
    then parse6 whole
    else if c == b'%'
    then none
    else more

unfoldable pub parse_addr : Text → Option Addr
unfolding choose parse6 fields
parse_addr s = choose s s

drop_after : ℕ → Text → Text
drop_after zero s = s
drop_after (suc n) [] = []
drop_after (suc n) (c ∷ s) = drop_after n s

-- A number written with digits only; more than one digit do not begin with a zero.
prefix_length : Text → Option ℕ
unfolding scan is_digit
prefix_length [] = none
prefix_length (c ∷ s) =
    let (n, rest) = scan (c ∷ s) 0 in
    if length rest == 0 && is_digit c && (length s == 0 || not (c == b'0')) then some n else none

has_zone : Addr → Bool
has_zone (v4 n) = false
has_zone (v6 gs zone) = not (length zone == 0)

unfoldable pub parse_prefix : Text → Option Prefix
unfolding parse_addr last_index drop_after prefix_length has_zone bit_len prefix_from
parse_prefix s = do
  i ← last_index s b'/'
  ip ← parse_addr (take i s)
  guard (not (has_zone ip))
  n ← prefix_length (drop_after (i + 1) s)
  guard (not (ltb (bit_len ip) n))
  some (prefix_from ip n)

-- strconv.ParseUint(s, 10, 16), which takes leading zeros.
port16 : Text → Option ℕ
unfolding scan is_digit
port16 s =
    let (n, rest) = scan s 0 in
    if length s == 0 || not (length rest == 0) || ltb 65535 n then none else some n

strip_brackets : Text → Option (Text × Bool)
strip_brackets [] = none
strip_brackets (c ∷ s) =
    if not (c == b'[')
    then some (c ∷ s, false)
    else elim (reverse s) [ [] ↦ none | d ∷ r ↦ if d == b']' then some (reverse r, true) else none ]

unfoldable pub parse_addr_port : Text → Option (Addr × ℕ)
unfolding parse_addr last_index drop_after port16 strip_brackets is6
parse_addr_port s = do
  i ← last_index s b':'
  (host, bracketed) ← strip_brackets (take i s)
  port ← port16 (drop_after (i + 1) s)
  ip ← parse_addr host
  if bracketed then guard (is6 ip) else guard (not (is6 ip))
  some (ip, port)
