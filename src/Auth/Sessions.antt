-- ===== src/Auth/Sessions.antt =====
-- SessionStore of internal/auth/auth.go. Each method holds the mutex from its first access to the
-- map to its last, so a method is one step.
pub mod Laws
pub mod Runs
use net_bird_audit.Prelude.{
  Text, Bool, true, false, Option, none, some, List, [], ◌∷◌, if◌then◌else◌,
}
use net_bird_audit.Prelude.Int.{pos}
use net_bird_audit.Time.{Time, Duration, add, after}
use net_bird_audit.GoMap
use net_bird_audit.GoMap.{GoMap}
use net_bird_audit.Crypto.Hex.{hex}

pub record SessionStore : Type 0 where
  pub sessions : GoMap Time
  pub ttl : Duration

unfoldable pub new_session_store : Duration → SessionStore
new_session_store ttl = record { sessions = GoMap.empty; ttl = ttl }

-- New: the random bytes, or `none` if the source of random numbers fails.
unfoldable pub new : Option Text → Time → SessionStore → Option Text × SessionStore
new none now s = (none, s)
new (some b) now s =
    let token = hex b in
    (some token, record s { sessions = GoMap.insert token (add now s.ttl) s.sessions })

-- Valid reads the clock twice: `now` for the test, `later` for the new deadline.
valid_entry : Text → Time → Time → Option Time → SessionStore → Bool × SessionStore
valid_entry token now later none s = (false, record s { sessions = GoMap.remove token s.sessions })
valid_entry token now later (some exp) s =
    if after now exp
    then (false, record s { sessions = GoMap.remove token s.sessions })
    else (true, record s { sessions = GoMap.insert token (add later s.ttl) s.sessions })

unfoldable pub valid : Text → Time → Time → SessionStore → Bool × SessionStore
unfolding valid_entry
valid token now later s = valid_entry token now later (GoMap.lookup token s.sessions) s

unfoldable pub delete : Text → SessionStore → SessionStore
delete token s = record s { sessions = GoMap.remove token s.sessions }
