-- ===== src/Db/VpnSessions.antt =====
-- VPN sessions: ReconcileSession and RecentSessions of internal/db/db.go.
pub mod Invariant
pub mod Reconcile
pub mod Others
pub mod History
pub mod Frame
use net_bird_audit.Prelude.{
  ℕ, ◌+◌, Text, Bool, true, false, not, ◌&&◌, ◌||◌, List, [], ◌∷◌, ◌++◌, Option, none, some, map,
  if◌then◌else◌, ◌==◌, nat_eq, leb, take,
}
use net_bird_audit.Time.{Time}
use net_bird_audit.Db.Collation.{Collation, same}
use net_bird_audit.Db.Tables.{Db, User, Peer, SessionRow}
use net_bird_audit.Db.Identity.{nullable_time}
use net_bird_audit.Db.Query.{newest, update, sort_by}
use net_bird_audit.Db.Monad.{M, ◌>>=◌, ◌>>◌, pure, gets, modify, statement}

pub is_open : SessionRow → Bool
is_open r = elim r.disconnected_at [ none ↦ true | some t ↦ false ]

-- COALESCE(?, NOW(6))
coalesce_time : Option Time → Time → Time
coalesce_time none now = now
coalesce_time (some t) now = t

new_session : ℕ → Time → Peer → User → SessionRow
new_session id now p u = record {
  id = id;
  peer_id = p.id;
  user_id = p.user_id;
  user_email = u.email;
  user_name = u.name;
  peer_name = p.name;
  peer_ip = p.ip;
  public_ip = p.public_ip;
  connected_at = now;
  disconnected_at = none;
}

pub insert_session : Time → Peer → User → Db → Db
insert_session now p u s = record s {
  vpn_sessions = s.vpn_sessions ++ new_session s.next_session now p u ∷ [];
  next_session = s.next_session + 1;
}

pub close_session : Time → Peer → ℕ → Db → Db
close_session now p id s = record s {
  vpn_sessions =
      update (λ (r : SessionRow). r.id == id)
        (λ r. record r { disconnected_at = some (coalesce_time (nullable_time p.last_seen) now) })
        s.vpn_sessions;
}

pub record Session : Type 0 where
  pub id : ℕ
  pub user_email : Text
  pub user_name : Text
  pub peer_name : Text
  pub peer_ip : Text
  pub public_ip : Text
  pub connected_at : Time
  pub disconnected_at : Option Time

session_of_row : SessionRow → Session
session_of_row r = record {
  id = r.id;
  user_email = r.user_email;
  user_name = r.user_name;
  peer_name = r.peer_name;
  peer_ip = r.peer_ip;
  public_ip = r.public_ip;
  connected_at = r.connected_at;
  disconnected_at = r.disconnected_at;
}

unfoldable pub recent_sessions : ℕ → M (List Session)
unfolding session_of_row
recent_sessions limit = do
  statement
  gets (λ s.
      map session_of_row
        (take limit (sort_by (λ (a : SessionRow) (b : SessionRow). leb b.id a.id) s.vpn_sessions)))

module _ ⦃c : Collation⦄ where
  pub open_for : Text → SessionRow → Bool
  open_for peer r = same r.peer_id peer && is_open r

  -- The session that the peer has open, by the first query of the method.
  pub active : Text → List SessionRow → Option SessionRow
  active peer rows = newest (λ (r : SessionRow). r.id) (open_for peer) rows

  -- What follows the query: `none` is sql.ErrNoRows.
  pub settle : Time → Peer → User → Option SessionRow → M Unit
  settle now p u none =
      if p.connected then (do statement; modify (insert_session now p u)) else pure tt
  settle now p u (some r) =
      if p.connected then pure tt else (do statement; modify (close_session now p r.id))

  -- `now` is the time of NOW(6).
  unfoldable pub reconcile_session : Time → Peer → User → M Unit
  unfolding is_open coalesce_time new_session insert_session close_session open_for active settle
  reconcile_session now p u = do
    statement
    found ← gets (λ s. active p.id s.vpn_sessions)
    settle now p u found
