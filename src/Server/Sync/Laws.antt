-- ===== src/Server/Sync/Laws.antt =====
-- What a poll of NetBird leaves in the table of sessions.
use net_bird_audit.Prelude.{
  ℕ, suc, Text, false, List, [], ◌∷◌, Option, none, some, if◌then◌else◌, In, All, ◌≡◌, inl, inr,
  refl, ◌∙◌, ap, arith,
}
use net_bird_audit.Time.{Time}
use net_bird_audit.GoMap
use net_bird_audit.GoMap.{GoMap}
use net_bird_audit.Db.Collation.{Collation, same}
use net_bird_audit.Db.Tables.{Db, User, Peer, NetBirdResource}
use net_bird_audit.Db.Monad.{Result, ok, err}
use net_bird_audit.Db.Frame.{
  upsert_user-SameSessions, upsert_peer-SameSessions, upsert_user-quiet, upsert_peer-quiet,
  IsValid-SameSessions,
}
use net_bird_audit.Db.Identity.{upsert_user, upsert_peer}
use net_bird_audit.Db.VpnSessions.{reconcile_session}
use net_bird_audit.Db.VpnSessions.Invariant.{IsValid, open_count}
use net_bird_audit.Db.VpnSessions.Reconcile.{
  reconcile_session-IsValid, open_count-reconcile_session,
}
use net_bird_audit.Db.VpnSessions.Others.{open_count-reconcile_other, reconcile_session-quiet}
use net_bird_audit.Db.Resources.{replace_netbird_resources}
use net_bird_audit.Db.Resources.Replace.{SameSessions, replace_netbird_resources-SameSessions}
use net_bird_audit.Server.Types.{Server}
use net_bird_audit.Server.Sync.{
  user_map, user_in, store_users, store_peers, mark_resources, sync_resources, finish_sync,
  with_peers, sync,
}

module _ ⦃c : Collation⦄ where
  SameSessions-trans : (r s t : Db) → SameSessions r s → SameSessions s t → SameSessions r t
  SameSessions-trans r s t (a, b) (p, q) = (p ∙ a, q ∙ b)

  pub store_users-SameSessions : (us : List User) (s : Db) → SameSessions s (store_users us s)
  unfolding store_users
  store_users-SameSessions [] s = (refl, refl)
  store_users-SameSessions (u ∷ us) s =
      SameSessions-trans s (upsert_user u s).1 (store_users us (upsert_user u s).1)
        (upsert_user-SameSessions u s) (store_users-SameSessions us (upsert_user u s).1)

  store_users-quiet : (us : List User) (s : Db) → s.outcomes ≡ [] → (store_users us s).outcomes ≡ []
  unfolding store_users
  store_users-quiet [] s h = h
  store_users-quiet (u ∷ us) s h =
      store_users-quiet us (upsert_user u s).1 (upsert_user-quiet u s h)

  -- No peer of the list has that id.
  abbrev pub Absent : Text → List Peer → Type 0
  Absent peer ps = All (λ (q : Peer). same q.id peer ≡ false) ps

  -- No id stands twice in the list.
  abbrev pub PeersDistinct : List Peer → Type 0
  PeersDistinct [] = Unit
  PeersDistinct (p ∷ ps) = Absent p.id ps × PeersDistinct ps

  module _ (m : GoMap User) where
    -- One round of the loop over the peers.
    abbrev pub visit : Time → Peer → Db → Db
    visit now p s = (reconcile_session now p (user_in m p.user_id) (upsert_peer p s).1).1

    upserted-IsValid : (p : Peer) (s : Db) → IsValid s → IsValid (upsert_peer p s).1
    upserted-IsValid p s v = IsValid-SameSessions s _ (upsert_peer-SameSessions p s) v

    pub visit-IsValid : (now : Time) (p : Peer) (s : Db) → IsValid s → IsValid (visit now p s)
    visit-IsValid now p s v = reconcile_session-IsValid now p _ _ (upserted-IsValid p s v)

    store_peers-IsValid :
        (db_time : ℕ → Time) (ps : List Peer) (s : Db)
        → IsValid s
        → IsValid (store_peers db_time m ps s)
    unfolding store_peers
    store_peers-IsValid db_time [] s v = v
    store_peers-IsValid db_time (p ∷ ps) s v =
        store_peers-IsValid (λ n. db_time (suc n)) ps (visit (db_time 0) p s)
          (visit-IsValid (db_time 0) p s v)

    visit-other :
        (peer : Text) (now : Time) (p : Peer) (s : Db)
        → IsValid s
        → same p.id peer ≡ false
        → open_count peer (visit now p s).vpn_sessions ≡ open_count peer s.vpn_sessions
    visit-other peer now p s v other =
        open_count-reconcile_other peer now p _ _ (upserted-IsValid p s v) other
        ∙ ap (λ rows. open_count peer rows) (upsert_peer-SameSessions p s).0

    store_peers-other :
        (peer : Text) (db_time : ℕ → Time) (ps : List Peer) (s : Db)
        → IsValid s
        → Absent peer ps
        → open_count peer (store_peers db_time m ps s).vpn_sessions ≡ open_count peer s.vpn_sessions
    unfolding store_peers
    store_peers-other peer db_time [] s v h = refl
    store_peers-other peer db_time (p ∷ ps) s v h =
        store_peers-other peer (λ n. db_time (suc n)) ps (visit (db_time 0) p s)
          (visit-IsValid (db_time 0) p s v) h.1
        ∙ visit-other peer (db_time 0) p s v h.0

    visit-open_count :
        (now : Time) (p : Peer) (s : Db)
        → IsValid s
        → s.outcomes ≡ []
        → (open_count p.id (visit now p s).vpn_sessions ≡ (if p.connected then 1 else 0))
          × ((visit now p s).outcomes ≡ [])
    visit-open_count now p s v quiet =
        let u = user_in m p.user_id in
        let t = (upsert_peer p s).1 in
        let (done, quiet') = reconcile_session-quiet now p u t (upsert_peer-quiet p s quiet) in
        (open_count-reconcile_session now p u t (upserted-IsValid p s v) done, quiet')

    store_peers-open_count :
        (db_time : ℕ → Time) (ps : List Peer) (s : Db) (p : Peer)
        → IsValid s
        → s.outcomes ≡ []
        → PeersDistinct ps
        → In p ps
        → open_count p.id (store_peers db_time m ps s).vpn_sessions ≡ (if p.connected then 1 else 0)
    unfolding store_peers
    store_peers-open_count db_time [] s p v quiet d member = absurd member
    store_peers-open_count db_time (q ∷ ps) s p v quiet d (inl e) =
        let t = visit (db_time 0) q s in
        rw e (
          store_peers-other q.id (λ n. db_time (suc n)) ps t (visit-IsValid (db_time 0) q s v) d.0
          ∙ (visit-open_count (db_time 0) q s v quiet).0)
    store_peers-open_count db_time (q ∷ ps) s p v quiet d (inr member) =
        let t = visit (db_time 0) q s in
        store_peers-open_count (λ n. db_time (suc n)) ps t p (visit-IsValid (db_time 0) q s v)
          (visit-open_count (db_time 0) q s v quiet).1 d.1 member

  mark_resources-SameSessions :
      (now : Time) (s : Server) (d : Db) (out : Result (Unit {0}) × Db)
      → SameSessions d out.1
      → SameSessions d (mark_resources now s out).1.1
  unfolding mark_resources
  mark_resources-SameSessions now s d (ok tt, e) h = h
  mark_resources-SameSessions now s d (err x, e) h = h

  sync_resources-SameSessions :
      (now : Time) (resources : Option (List NetBirdResource)) (s : Server) (d : Db)
      → SameSessions d (sync_resources now resources (s, d)).1.1
  unfolding sync_resources
  sync_resources-SameSessions now none s d = (refl, refl)
  sync_resources-SameSessions now (some rs) s d =
      mark_resources-SameSessions now s d (replace_netbird_resources rs d)
        (replace_netbird_resources-SameSessions rs d)

  pub finish_sync-SameSessions :
      (now since later : Time) (resources : Option (List NetBirdResource)) (s : Server) (d : Db)
      → SameSessions d (finish_sync now since later resources (s, d)).1
  unfolding finish_sync
  finish_sync-SameSessions now since later resources s d =
      ground (
        arith,
        sync_resources-SameSessions later resources (record s { last_netbird_sync = now }) d,
      )

  pub users_stored-IsValid : (us : List User) (d : Db) → IsValid d → IsValid (store_users us d)
  users_stored-IsValid us d v =
      IsValid-SameSessions d (store_users us d) (store_users-SameSessions us d) v

  module _ (db_time : ℕ → Time) (now since later : Time) (resources : Option (List NetBirdResource))
      (s : Server) (d : Db) where
    -- Whatever NetBird and the database answer, and wherever the poll stops, it keeps the invariant
    -- of the table of sessions: at most one open session for a peer, no id twice, and ids below the
    -- counter.
    pub sync-IsValid :
        (us : Option (List User)) (ps : Option (List Peer))
        → IsValid d
        → IsValid (sync db_time now since later us ps resources (s, d)).1.1
    unfolding sync with_peers
    sync-IsValid none ps v = v
    sync-IsValid (some us) none v = users_stored-IsValid us d v
    sync-IsValid (some us) (some ps) v =
        let t = store_users us d in
        let m = user_map us GoMap.empty in
        let e = store_peers db_time m ps t in
        IsValid-SameSessions e (finish_sync now since later resources (s, e)).1
          (finish_sync-SameSessions now since later resources s e)
          (store_peers-IsValid m db_time ps t (users_stored-IsValid us d v))

    -- If the table of sessions keeps its invariant, NetBird lists users and peers, no peer id
    -- twice, and the database answers every statement, then after the poll a listed peer has one
    -- open session if it is connected, and none if not.
    pub sync-open_count :
        (us : List User) (ps : List Peer) (p : Peer)
        → IsValid d
        → d.outcomes ≡ []
        → PeersDistinct ps
        → In p ps
        → open_count p.id
            (sync db_time now since later (some us) (some ps) resources (s, d)).1.1.vpn_sessions
          ≡ (if p.connected then 1 else 0)
    unfolding sync with_peers
    sync-open_count us ps p v quiet distinct member =
        let t = store_users us d in
        let m = user_map us GoMap.empty in
        let e = store_peers db_time m ps t in
        ap (λ rows. open_count p.id rows) (finish_sync-SameSessions now since later resources s e).0
        ∙ store_peers-open_count m db_time ps t p (users_stored-IsValid us d v)
            (store_users-quiet us d quiet) distinct member
