-- ===== src/Db/VpnSessions/Reconcile.antt =====
-- What ReconcileSession leaves in the table, on every path.
use net_bird_audit.Prelude.{
  ℕ, ◌+◌, ◌≤◌, ◌<◌, Text, List, [], ◌∷◌, Option, none, some, if◌then◌else◌, ◌==◌, nat_eq, All,
  All-append, count-append, ◌≡◌, refl, arith,
}
use net_bird_audit.Time.{Time}
use net_bird_audit.Db.Collation.{Collation, same_refl}
use net_bird_audit.Db.Tables.{Db, User, Peer, SessionRow}
use net_bird_audit.Db.Query.{newest, update}
use net_bird_audit.Db.Monad.{ok, statement}
use net_bird_audit.Db.VpnSessions.{
  open_for, active, new_session, insert_session, close_session, settle, reconcile_session,
}
use net_bird_audit.Db.VpnSessions.Invariant.{
  IsValid, open_count, id_count, count-insert, count-close, newest-of_count_pos, newest-none, id_of,
}

module _ ⦃c : Collation⦄ where
  active_lem :
      (peer : Text) (rows : List SessionRow) → active peer rows ≡ newest id_of (open_for peer) rows
  unfolding active
  active_lem peer rows = refl

  All-close :
      (n : ℕ) (now : Time) (p : Peer) (id : ℕ) (rows : List SessionRow) (t : Time)
      → All (λ (r : SessionRow). r.id < n) rows
      → All
          (λ (r : SessionRow). r.id < n)
          (update
            (λ (r : SessionRow). r.id == id)
            (λ r. record r { disconnected_at = some t })
            rows)
  unfolding update
  All-close n now p id [] t h = tt
  All-close n now p id (r ∷ rows) t h = (ground (arith, h.0), All-close n now p id rows t h.1)

  All-weaken :
      (n : ℕ) (rows : List SessionRow)
      → All (λ (r : SessionRow). r.id < n) rows
      → All (λ (r : SessionRow). r.id < n + 1) rows
  All-weaken n [] h = tt
  All-weaken n (r ∷ rows) h = (omega (arith, h.0), All-weaken n rows h.1)

  id_count-close :
      (i id : ℕ) (t : Time) (rows : List SessionRow)
      → id_count i (
          update (λ (r : SessionRow). r.id == id) (λ r. record r { disconnected_at = some t }) rows)
        ≡ id_count i rows
  unfolding update
  id_count-close i id t [] = refl
  id_count-close i id t (r ∷ rows) = ground (arith, id_count-close i id t rows)

  id_count-close_session :
      (i : ℕ) (now : Time) (p : Peer) (id : ℕ) (s : Db)
      → id_count i (close_session now p id s).vpn_sessions ≡ id_count i s.vpn_sessions
  unfolding close_session
  id_count-close_session i now p id s = id_count-close i id _ s.vpn_sessions

  id_count-fresh :
      (n : ℕ) (rows : List SessionRow)
      → All (λ (r : SessionRow). r.id < n) rows
      → id_count n rows ≡ 0
  id_count-fresh n [] h = refl
  id_count-fresh n (r ∷ rows) h = ground (arith, h.0, id_count-fresh n rows h.1)

  id_count-insert :
      (i : ℕ) (now : Time) (p : Peer) (u : User) (s : Db)
      → IsValid s
      → id_count i (insert_session now p u s).vpn_sessions ≤ 1
  unfolding insert_session new_session
  id_count-insert i now p u s v = ground (
    arith,
    count-append (λ (r : SessionRow). r.id == i) s.vpn_sessions
        (new_session s.next_session now p u ∷ []),
    id_count-fresh s.next_session s.vpn_sessions v.below,
    v.distinct i,
  )

  insert-IsValid :
      (now : Time) (p : Peer) (u : User) (s : Db)
      → IsValid s
      → active p.id s.vpn_sessions ≡ none
      → IsValid (insert_session now p u s)
  insert-IsValid now p u s v none_open = record {
    at_most_one = λ peer. ground (arith, count-insert peer now p u s none_open, v.at_most_one peer);
    distinct = λ i. id_count-insert i now p u s v;
    below =
        unfold insert_session new_session in
        All-append (λ (r : SessionRow). r.id < s.next_session + 1) s.vpn_sessions _
          (All-weaken s.next_session s.vpn_sessions v.below) (omega arith, tt);
  }

  close-IsValid :
      (now : Time) (p : Peer) (r : SessionRow) (s : Db)
      → IsValid s
      → active p.id s.vpn_sessions ≡ some r
      → IsValid (close_session now p r.id s)
  close-IsValid now p r s v found = record {
    at_most_one = λ peer.
        omega
          (arith, (count-close peer now p r s (v.at_most_one p.id) found).0, v.at_most_one peer);
    distinct = λ i. omega (arith, v.distinct i, id_count-close_session i now p r.id s);
    below = unfold close_session in All-close s.next_session now p r.id s.vpn_sessions _ v.below;
  }

  -- After the first query, in any state.
  settle-IsValid :
      (now : Time) (p : Peer) (u : User) (s : Db) (found : Option SessionRow)
      → IsValid s
      → active p.id s.vpn_sessions ≡ found
      → IsValid (settle now p u found s).1
  unfolding settle statement
  settle-IsValid now p u s none v e =
      let t = (statement s).1 in
      let kept : IsValid t = record {
        at_most_one = v.at_most_one;
        distinct = v.distinct;
        below = v.below;
      } in
      ground (arith, insert-IsValid now p u t kept e)
  settle-IsValid now p u s (some r) v e =
      let t = (statement s).1 in
      let kept : IsValid t = record {
        at_most_one = v.at_most_one;
        distinct = v.distinct;
        below = v.below;
      } in
      ground (arith, close-IsValid now p r t kept e)

  -- Whatever the database answers, the method keeps the invariant: at most one open session for a
  -- peer, no id twice, and ids below the counter.
  pub reconcile_session-IsValid :
      (now : Time) (p : Peer) (u : User) (s : Db)
      → IsValid s
      → IsValid (reconcile_session now p u s).1
  unfolding reconcile_session statement
  reconcile_session-IsValid now p u s v =
      let t = (statement s).1 in
      let kept : IsValid t = record {
        at_most_one = v.at_most_one;
        distinct = v.distinct;
        below = v.below;
      } in
      ground (arith, settle-IsValid now p u t (active p.id s.vpn_sessions) kept refl)

  settle-open_count :
      (now : Time) (p : Peer) (u : User) (s : Db) (found : Option SessionRow)
      → open_count p.id s.vpn_sessions ≤ 1
      → active p.id s.vpn_sessions ≡ found
      → (settle now p u found s).0 ≡ ok tt
      → open_count p.id (settle now p u found s).1.vpn_sessions ≡ (if p.connected then 1 else 0)
  unfolding settle statement
  settle-open_count now p u s none le e h = ground (
    arith,
    count-insert p.id now p u (statement s).1 e,
    same_refl p.id,
    newest-none (open_for p.id) s.vpn_sessions,
    active_lem p.id s.vpn_sessions,
  )
  settle-open_count now p u s (some r) le e h = ground (
    arith,
    count-close p.id now p r (statement s).1 le e,
    newest-of_count_pos (open_for p.id) s.vpn_sessions r,
    active_lem p.id s.vpn_sessions,
  )

  -- If the table keeps its invariant and the method returns no error, the peer has one open session
  -- if it is connected, and none if it is not.
  pub open_count-reconcile_session :
      (now : Time) (p : Peer) (u : User) (s : Db)
      → IsValid s
      → (reconcile_session now p u s).0 ≡ ok tt
      → open_count p.id (reconcile_session now p u s).1.vpn_sessions
        ≡ (if p.connected then 1 else 0)
  unfolding reconcile_session statement
  open_count-reconcile_session now p u s v h = ground (
    arith,
    settle-open_count now p u (statement s).1 (active p.id s.vpn_sessions) (v.at_most_one p.id)
        refl,
  )
