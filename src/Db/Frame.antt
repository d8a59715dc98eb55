-- ===== src/Db/Frame.antt =====
-- The table vpn_sessions before and after the other methods of internal/db/db.go.
use net_bird_audit.Prelude.{[], ◌≡◌, arith}
use net_bird_audit.Db.Collation.{Collation}
use net_bird_audit.Db.Tables.{Db, User, Peer}
use net_bird_audit.Db.Monad.{statement, answers_left}
use net_bird_audit.Db.Identity.{upsert_user, upsert_peer}
use net_bird_audit.Db.VpnSessions.Invariant.{IsValid}
use net_bird_audit.Db.Resources.Replace.{SameSessions}

module _ ⦃c : Collation⦄ where
  pub upsert_user-SameSessions : (u : User) (s : Db) → SameSessions s (upsert_user u s).1
  unfolding upsert_user statement
  upsert_user-SameSessions u s = ground arith

  pub upsert_peer-SameSessions : (p : Peer) (s : Db) → SameSessions s (upsert_peer p s).1
  unfolding upsert_peer statement
  upsert_peer-SameSessions p s = ground arith

  pub upsert_user-quiet : (u : User) (s : Db) → s.outcomes ≡ [] → (upsert_user u s).1.outcomes ≡ []
  unfolding upsert_user statement answers_left
  upsert_user-quiet u s h = ground arith

  pub upsert_peer-quiet : (p : Peer) (s : Db) → s.outcomes ≡ [] → (upsert_peer p s).1.outcomes ≡ []
  unfolding upsert_peer statement answers_left
  upsert_peer-quiet p s h = ground arith

  -- The invariant is about that table only.
  pub IsValid-SameSessions : (s t : Db) → SameSessions s t → IsValid s → IsValid t
  IsValid-SameSessions s t (rows, next) v = record {
    at_most_one = rw rows v.at_most_one;
    distinct = rw rows v.distinct;
    below = rw (rows, next) v.below;
  }
