-- ===== src/Netip/Types.antt =====
-- netip.Addr and netip.Prefix.
use mathlib.Core.List.{foldl}
use net_bird_audit.Prelude.{
  ℕ, ◌+◌, ◌-◌, ◌*◌, ◌/◌, ◌^◌, Bool, true, false, ◌&&◌, List, [], ◌∷◌, Text, ◌==◌, nat_eq,
  if◌then◌else◌,
}

-- `v4 n` is the 32-bit number n; `v6` has eight 16-bit groups and a zone, empty if there is none.
pub data Addr : Type 0 where
  v4 : ℕ → Addr
  v6 : List ℕ → Text → Addr

unfoldable pub is6 : Addr → Bool
is6 (v4 n) = false
is6 (v6 gs zone) = true

unfoldable pub bit_len : Addr → ℕ
bit_len (v4 n) = 32
bit_len (v6 gs zone) = 128

-- ip.Unmap(): an IPv4-mapped IPv6 address as IPv4.
unfoldable pub unmap : Addr → Addr
unmap (v6 (a ∷ b ∷ c ∷ d ∷ e ∷ f ∷ g ∷ h ∷ []) zone) =
    if a == 0 && b == 0 && c == 0 && d == 0 && e == 0 && f == 0xffff
    then v4 (g * 2 ^ 16 + h)
    else v6 (a ∷ b ∷ c ∷ d ∷ e ∷ f ∷ g ∷ h ∷ []) zone
unmap ip = ip

pub record Prefix : Type 0 where
  pub addr : Addr
  pub bits : ℕ

without_zone : Addr → Addr
without_zone (v4 n) = v4 n
without_zone (v6 gs zone) = v6 gs []

-- netip.PrefixFrom, called with a length that fits.
unfoldable pub prefix_from : Addr → ℕ → Prefix
unfolding without_zone
prefix_from ip bits = record { addr = without_zone ip; bits = bits }

value6 : List ℕ → ℕ
value6 = foldl (λ n g. n * 2 ^ 16 + g) 0

contains_addr : ℕ → Addr → Addr → Bool
contains_addr bits (v4 p) (v4 n) = p / 2 ^ (32 - bits) == n / 2 ^ (32 - bits)
contains_addr bits (v6 ps z) (v6 gs []) =
    value6 ps / 2 ^ (128 - bits) == value6 gs / 2 ^ (128 - bits)
contains_addr bits _ _ = false

-- p.Contains(ip): the same family, no zone, and the same leading bits.
unfoldable pub contains : Prefix → Addr → Bool
unfolding contains_addr value6
contains p ip = contains_addr p.bits p.addr ip
