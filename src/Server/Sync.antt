-- ===== src/Server/Sync.antt =====
-- sync and syncResources of internal/server/server.go. What the calls of the NetBird client return
-- is an argument, `none` for an error.
pub mod Laws
pub mod Frame
pub mod History
use net_bird_audit.Prelude.{
  ℕ, suc, Text, Bool, true, false, ◌||◌, List, [], ◌∷◌, Option, none, some, if◌then◌else◌,
}
use net_bird_audit.Prelude.Int.{pos, ltz}
use net_bird_audit.Time.{Time, is_zero, sub, minute}
use net_bird_audit.GoMap
use net_bird_audit.GoMap.{GoMap}
use net_bird_audit.Db.Collation.{Collation}
use net_bird_audit.Db.Tables.{Db, User, Peer, NetBirdResource}
use net_bird_audit.Db.Monad.{DbError, Result, ok, err}
use net_bird_audit.Db.Identity.{upsert_user, upsert_peer}
use net_bird_audit.Db.VpnSessions.{reconcile_session}
use net_bird_audit.Db.Resources.{replace_netbird_resources}
use net_bird_audit.Server.Types.{Server, World}

pub data SyncError : Type 0 where
  netbird_error : SyncError
  db_error : DbError → SyncError

pub user_map : List User → GoMap User → GoMap User
user_map [] m = m
user_map (u ∷ us) m = user_map us (GoMap.insert u.id u m)

or_no_user : Option User → User
or_no_user none = record { id = []; name = []; email = [] }
or_no_user (some u) = u

-- um[id]: a key that is not there has the empty user.
pub user_in : GoMap User → Text → User
user_in m id = or_no_user (GoMap.lookup id m)

module _ ⦃c : Collation⦄ where
  -- The loop over the users, without the map that it fills.
  unfoldable pub store_users : List User → Db → Db
  store_users [] s = s
  store_users (u ∷ us) s = store_users us (upsert_user u s).1

  -- The loop over the peers; each round has its own time of NOW(6). The errors are dropped.
  pub store_peers : (ℕ → Time) → GoMap User → List Peer → Db → Db
  store_peers db_time m [] s = s
  store_peers db_time m (p ∷ ps) s =
      store_peers (λ n. db_time (suc n)) m ps
        (reconcile_session (db_time 0) p (user_in m p.user_id) (upsert_peer p s).1).1

  mark_resources : Time → Server → Result (Unit {0}) × Db → Option SyncError × World
  mark_resources now s (ok u, d) = (none, (record s { last_resource_sync = now }, d))
  mark_resources now s (err e, d) = (some (db_error e), (s, d))

  unfoldable pub sync_resources :
      Time → Option (List NetBirdResource) → World → Option SyncError × World
  unfolding mark_resources
  sync_resources now none (s, d) = (some netbird_error, (s, d))
  sync_resources now (some rs) (s, d) = mark_resources now s (replace_netbird_resources rs d)

  -- `since` is the time that time.Since reads.
  pub needs_resources : Time → Server → Bool
  needs_resources since s =
      is_zero s.last_resource_sync || ltz (pos minute) (sub since s.last_resource_sync)

  -- The end of sync: an error of the resources is only written to the log.
  pub finish_sync : Time → Time → Time → Option (List NetBirdResource) → World → World
  finish_sync now since later resources (s, d) =
      let t = record s { last_netbird_sync = now } in
      if needs_resources since s then (sync_resources later resources (t, d)).1 else (t, d)

  pub with_peers :
      (ℕ → Time)
      → Time
      → Time
      → Time
      → GoMap User
      → Option (List Peer)
      → Option (List NetBirdResource)
      → World
      → Option SyncError × World
  with_peers db_time now since later m none resources w = (some netbird_error, w)
  with_peers db_time now since later m (some ps) resources (s, d) =
      (none, finish_sync now since later resources (s, store_peers db_time m ps d))

  -- The clock is read at the end of the loops (`now`), by time.Since (`since`), and at the end of
  -- syncResources (`later`).
  unfoldable pub sync :
      (ℕ → Time)
      → Time
      → Time
      → Time
      → Option (List User)
      → Option (List Peer)
      → Option (List NetBirdResource)
      → World
      → Option SyncError × World
  unfolding needs_resources finish_sync with_peers
  sync db_time now since later none peers resources w = (some netbird_error, w)
  sync db_time now since later (some us) peers resources (s, d) =
      with_peers db_time now since later (user_map us GoMap.empty) peers resources
        (s, store_users us d)
