-- ===== src/Auth/Sessions/Laws.antt =====
-- What each method does to the deadline of each token.
use net_bird_audit.Prelude.{
  Text, Bool, true, false, Option, none, some, if◌then◌else◌, ◌≡◌, arith, ◌==◌, text_eq,
}
use net_bird_audit.Time.{Time, add, after}
use net_bird_audit.GoMap
use net_bird_audit.GoMap.{map_laws, lookup-insert, lookup-remove}
use net_bird_audit.Crypto.Hex.{hex}
use net_bird_audit.Auth.Sessions.{SessionStore, new, valid, delete}

-- The deadline of a token, if the store has it.
abbrev pub deadline : SessionStore → Text → Option Time
deadline s token = GoMap.lookup token s.sessions

abbrev pub expired_at : Time → Option Time → Bool
expired_at now none = true
expired_at now (some exp) = after now exp

-- A check accepts exactly the tokens whose deadline is there and has not passed.
pub valid-eq :
    (t : Text) (now later : Time) (s : SessionStore)
    → (valid t now later s).0 ≡ (if expired_at now (deadline s t) then false else true)
unfolding valid
valid-eq t now later s = ground arith

pub deadline-valid :
    (t j : Text) (now later : Time) (s : SessionStore)
    → deadline (valid t now later s).1 j ≡ (
        if t == j
        then (if expired_at now (deadline s t) then none else some (add later s.ttl))
        else deadline s j)
unfolding valid
deadline-valid t j now later s =
    ground (arith, lookup-insert t j (add later s.ttl) s.sessions, lookup-remove t j s.sessions)

pub ttl-valid :
    (t : Text) (now later : Time) (s : SessionStore) → (valid t now later s).1.ttl ≡ s.ttl
unfolding valid
ttl-valid t now later s = ground arith

pub deadline-new :
    (b j : Text) (now : Time) (s : SessionStore)
    → deadline (new (some b) now s).1 j
      ≡ (if hex b == j then some (add now s.ttl) else deadline s j)
unfolding new
deadline-new b j now s = lookup-insert (hex b) j (add now s.ttl) s.sessions

pub deadline-delete :
    (t j : Text) (s : SessionStore)
    → deadline (delete t s) j ≡ (if t == j then none else deadline s j)
unfolding delete
deadline-delete t j s = lookup-remove t j s.sessions
