-- ===== src/Server/RateLimit.antt =====
-- clientIP, rateOK and fail of internal/server/server.go. Each of the last two holds the mutex
-- from its first access to the map to its last, so each is one step.
pub mod Laws
use net_bird_audit.Prelude.{
  ℕ, zero, suc, ◌+◌, ◌*◌, ◌-◌, Text, Bool, true, false, ◌||◌, List, [], ◌∷◌, ◌++◌, Option, none,
  some, if◌then◌else◌, ◌==◌, nat_eq, length, keep, take, ltb,
}
use net_bird_audit.Prelude.Int.{minus}
use net_bird_audit.Time.{Time, add, after, minute}
use net_bird_audit.Text.{last_index}
use net_bird_audit.GoMap
use net_bird_audit.GoMap.{GoMap}

pub has_byte : ℕ → Text → Bool
has_byte b [] = false
has_byte b (x ∷ s) = x == b || has_byte b s

-- The text before the first such byte.
before_byte : ℕ → Text → Option Text
before_byte b [] = none
before_byte b (x ∷ s) =
    let rest = before_byte b s in
    if x == b then some [] else elim rest [ none ↦ none | some p ↦ some (x ∷ p) ]

drop : ℕ → Text → Text
drop zero s = s
drop (suc n) [] = []
drop (suc n) (x ∷ s) = drop n s

-- The host in brackets: the first `]` stands right before the last `:`, which is at `i`.
bracketed : Text → ℕ → Option Text
bracketed s i = elim (before_byte b']' s) [
  | none ↦ none
  | some p ↦
      if length p + 1 == i
      then (if has_byte b'[' (drop 1 s) || has_byte b']' (drop (length p + 1) s)
          then none
          else some (drop 1 p))
      else none
]

bare : Text → ℕ → Option Text
bare s i =
    if has_byte b':' (take i s) || has_byte b'[' s || has_byte b']' s then none else some (take i s)

split_at : Text → Option ℕ → Option Text
split_at s none = none
split_at [] (some i) = none
split_at (x ∷ s) (some i) = if x == b'[' then bracketed (x ∷ s) i else bare (x ∷ s) i

-- net.SplitHostPort: the host, or `none` for an error.
unfoldable pub split_host : Text → Option Text
unfolding has_byte before_byte drop bracketed bare split_at
split_host s = split_at s (last_index s b':')

unfoldable pub client_ip : Text → Text
client_ip remote_addr = elim (split_host remote_addr) [ none ↦ remote_addr | some h ↦ h ]

abbrev pub Failures : Type 0
Failures = GoMap (List Time)

times_of : Option (List Time) → List Time
times_of none = []
times_of (some ts) = ts

-- s.failures[ip], which is empty for a key that is not there.
unfoldable pub failures_of : Text → Failures → List Time
unfolding times_of
failures_of ip m = times_of (GoMap.lookup ip m)

abbrev pub recent : Time → Time → Bool
recent now t = after t (add now (minus (10 * minute)))

-- rateOK: the slice is filtered in place, behind the place that the loop has read.
unfoldable pub rate_ok : Text → Time → Failures → Bool × Failures
rate_ok ip now m =
    let xs = keep (recent now) (failures_of ip m) in (ltb (length xs) 8, GoMap.insert ip xs m)

unfoldable pub fail : Text → Time → Failures → Failures
fail ip now m = GoMap.insert ip (failures_of ip m ++ now ∷ []) m
