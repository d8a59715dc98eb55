-- ===== src/Server/Access.antt =====
-- requireAuth of internal/server/server.go.
pub mod Laws
use net_bird_audit.Prelude.{
  ℕ, Text, codes, Bool, true, false, not, ◌&&◌, ◌||◌, List, [], ◌∷◌, Option, none, some,
  if◌then◌else◌, ◌==◌, text_eq,
}
use net_bird_audit.Time.{Time}
use net_bird_audit.Auth.Sessions.{SessionStore, valid}
use net_bird_audit.Db.Tables.{Db}
use net_bird_audit.Server.Types.{
  Server, World, Request, Response, Handler, http_error, redirect, message,
}

pub to_login : Response
to_login = redirect (codes "/login") []

pub csrf_failed : Response
csrf_failed = http_error (message (codes "CSRF validation failed")) 403

-- The methods that need a token.
unfoldable pub needs_csrf : Text → Bool
needs_csrf m = m == codes "POST" || m == codes "PUT" || m == codes "DELETE" || m == codes "PATCH"

-- hmac.Equal tells whether the texts are the same.
unfoldable pub csrf_ok : Request → Bool
csrf_ok r = elim (r.cookie (codes "nba_csrf")) [
  | none ↦ false
  | some c ↦ not (c == []) && c == r.form (codes "csrf")
]

guarded : Handler → Handler
guarded next r w = if needs_csrf r.method && not (csrf_ok r) then (csrf_failed, w) else next r w

checked : Handler → Request → Server → Db → Bool × SessionStore → Response × World
checked next r s d (ok, store) =
    let t = record s { sessions = store } in
    if ok then guarded next r (t, d) else (to_login, (t, d))

with_session : Time → Time → Handler → Option Text → Handler
with_session now later next none r (s, d) = (to_login, (s, d))
with_session now later next (some token) r (s, d) =
    checked next r s d (valid token now later s.sessions)

-- `now` and `later` are the two times that Valid reads.
unfoldable pub require_auth : Time → Time → Handler → Handler
unfolding to_login csrf_failed guarded checked with_session
require_auth now later next r w = with_session now later next (r.cookie (codes "nba_session")) r w
