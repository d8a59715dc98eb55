-- ===== src/Server/Sync/History.antt =====
-- The flows and the sessions before and after sync of internal/server/server.go.
use net_bird_audit.Prelude.{
  ℕ, suc, List, [], ◌∷◌, Option, none, some, ◌≡◌, refl, ap, ◌∙◌, arith, inl, inr, Bool-cases,
}
use net_bird_audit.Time.{Time}
use net_bird_audit.GoMap
use net_bird_audit.GoMap.{GoMap}
use net_bird_audit.Db.Collation.{Collation}
use net_bird_audit.Db.Tables.{Db, User, Peer, SessionRow, NetBirdResource}
use net_bird_audit.Db.Monad.{statement}
use net_bird_audit.Db.Frame.{upsert_peer-SameSessions, IsValid-SameSessions}
use net_bird_audit.Db.Queries.{KeepsRecords}
use net_bird_audit.Db.Identity.{upsert_user, upsert_peer}
use net_bird_audit.Db.VpnSessions.{reconcile_session}
use net_bird_audit.Db.VpnSessions.Invariant.{IsValid}
use net_bird_audit.Db.VpnSessions.Frame.{KeepsFlows, reconcile_session-KeepsFlows}
use net_bird_audit.Db.VpnSessions.History.{
  History, History-refl, History-trans, reconcile_session-History,
}
use net_bird_audit.Server.Types.{Server}
use net_bird_audit.Server.Sync.{
  user_map, user_in, store_users, store_peers, needs_resources, finish_sync, with_peers, sync,
  sync_resources,
}
use net_bird_audit.Server.Sync.Frame.{sync_resources-KeepsRecords}
use net_bird_audit.Server.Sync.Laws.{
  visit, visit-IsValid, users_stored-IsValid, store_users-SameSessions, finish_sync-SameSessions,
}

KeepsFlows-trans : (d e f : Db) → KeepsFlows d e → KeepsFlows e f → KeepsFlows d f
KeepsFlows-trans d e f (a, b) (p, q) = (p ∙ a, q ∙ b)

pub KeepsFlows-of_KeepsRecords : (d e : Db) → KeepsRecords d e → KeepsFlows d e
KeepsFlows-of_KeepsRecords d e h = (ap (λ (x : Db). x.flows) h, ap (λ (x : Db). x.next_flow) h)

History-of_eq : (a b : List SessionRow) → b ≡ a → History a b
History-of_eq a b e = rw e (History-refl a)

module _ ⦃c : Collation⦄ where
  upsert_user-KeepsFlows : (u : User) (d : Db) → KeepsFlows d (upsert_user u d).1
  unfolding upsert_user statement
  upsert_user-KeepsFlows u d = ground arith

  upsert_peer-KeepsFlows : (p : Peer) (d : Db) → KeepsFlows d (upsert_peer p d).1
  unfolding upsert_peer statement
  upsert_peer-KeepsFlows p d = ground arith

  store_users-KeepsFlows : (us : List User) (d : Db) → KeepsFlows d (store_users us d)
  unfolding store_users
  store_users-KeepsFlows [] d = (refl, refl)
  store_users-KeepsFlows (u ∷ us) d =
      KeepsFlows-trans d (upsert_user u d).1 (store_users us (upsert_user u d).1)
        (upsert_user-KeepsFlows u d) (store_users-KeepsFlows us (upsert_user u d).1)

  store_peers-KeepsFlows :
      (m : GoMap User) (db_time : ℕ → Time) (ps : List Peer) (d : Db)
      → KeepsFlows d (store_peers db_time m ps d)
  unfolding store_peers
  store_peers-KeepsFlows m db_time [] d = (refl, refl)
  store_peers-KeepsFlows m db_time (p ∷ ps) d =
      let e = (upsert_peer p d).1 in
      let f = (reconcile_session (db_time 0) p (user_in m p.user_id) e).1 in
      let g = store_peers (λ n. db_time (suc n)) m ps f in
      KeepsFlows-trans d e g (upsert_peer-KeepsFlows p d) (
        KeepsFlows-trans e f g (reconcile_session-KeepsFlows (db_time 0) p (user_in m p.user_id) e)
          (store_peers-KeepsFlows m (λ n. db_time (suc n)) ps f))

  finish_sync-KeepsFlows :
      (now since later : Time) (rs : Option (List NetBirdResource)) (s : Server) (d : Db)
      → KeepsFlows d (finish_sync now since later rs (s, d)).1
  unfolding finish_sync
  finish_sync-KeepsFlows now since later rs s d = elim (Bool-cases (needs_resources since s)) [
    | inr fresh ↦ rw fresh (refl, refl)
    | inl old ↦ rw old (
        KeepsFlows-of_KeepsRecords d
          (sync_resources later rs (record s { last_netbird_sync = now }, d)).1.1
          (sync_resources-KeepsRecords later rs (record s { last_netbird_sync = now }) d))
  ]

  store_peers-History :
      (m : GoMap User) (db_time : ℕ → Time) (ps : List Peer) (d : Db)
      → IsValid d
      → History d.vpn_sessions (store_peers db_time m ps d).vpn_sessions
  unfolding store_peers
  store_peers-History m db_time [] d v = History-refl d.vpn_sessions
  store_peers-History m db_time (p ∷ ps) d v =
      let e = (upsert_peer p d).1 in
      let f = visit m (db_time 0) p d in
      let v' = IsValid-SameSessions d e (upsert_peer-SameSessions p d) v in
      History-trans d.vpn_sessions e.vpn_sessions _
        (History-of_eq _ _ (upsert_peer-SameSessions p d).0)
        (History-trans e.vpn_sessions f.vpn_sessions _
          (reconcile_session-History (db_time 0) p (user_in m p.user_id) e v')
          (store_peers-History m (λ n. db_time (suc n)) ps f (visit-IsValid m (db_time 0) p d v)))

  module _ (db_time : ℕ → Time) (now since later : Time) (rs : Option (List NetBirdResource))
      (s : Server) (d : Db) where
    pub sync-KeepsFlows :
        (us : Option (List User)) (ps : Option (List Peer))
        → KeepsFlows d (sync db_time now since later us ps rs (s, d)).1.1
    unfolding sync with_peers
    sync-KeepsFlows none ps = (refl, refl)
    sync-KeepsFlows (some us) none = store_users-KeepsFlows us d
    sync-KeepsFlows (some us) (some ps) =
        let t = store_users us d in
        let m = user_map us GoMap.empty in
        let e = store_peers db_time m ps t in
        let f = (finish_sync now since later rs (s, e)).1 in
        KeepsFlows-trans d t f (store_users-KeepsFlows us d) (
          KeepsFlows-trans t e f (store_peers-KeepsFlows m db_time ps t)
            (finish_sync-KeepsFlows now since later rs s e))

    pub sync-History :
        (us : Option (List User)) (ps : Option (List Peer))
        → IsValid d
        → History d.vpn_sessions (sync db_time now since later us ps rs (s, d)).1.1.vpn_sessions
    unfolding sync with_peers
    sync-History none ps v = History-refl d.vpn_sessions
    sync-History (some us) none v = History-of_eq _ _ (store_users-SameSessions us d).0
    sync-History (some us) (some ps) v =
        let t = store_users us d in
        let m = user_map us GoMap.empty in
        let e = store_peers db_time m ps t in
        History-trans d.vpn_sessions t.vpn_sessions _
          (History-of_eq _ _ (store_users-SameSessions us d).0)
          (History-trans t.vpn_sessions e.vpn_sessions _
            (store_peers-History m db_time ps t (users_stored-IsValid us d v))
            (History-of_eq _ _ (finish_sync-SameSessions now since later rs s e).0))
