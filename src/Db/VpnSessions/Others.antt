-- ===== src/Db/VpnSessions/Others.antt =====
-- ReconcileSession of internal/db/db.go and the sessions of other peers.
use net_bird_audit.Prelude.{
  In, ℕ, ◌≤◌, ◌<◌, Text, true, false, List, [], ◌∷◌, Option, none, some, ◌==◌, nat_eq, All, ◌≡◌,
  refl, arith, inl, inr, Option-cases,
}
use net_bird_audit.Time.{Time}
use net_bird_audit.Db.Collation.{Collation, same, same-sym, same_trans}
use net_bird_audit.Db.Tables.{Db, User, Peer, SessionRow}
use net_bird_audit.Db.Query.{update}
use net_bird_audit.Db.Monad.{ok, statement, answer, answers_left}
use net_bird_audit.Db.VpnSessions.{
  is_open, open_for, active, insert_session, close_session, settle, reconcile_session,
}
use net_bird_audit.Db.VpnSessions.Invariant.{
  IsValid, open_count, id_count, count-insert, newest-some,
}

module _ ⦃c : Collation⦄ where
  -- Every row with that id is closed or another peer's.
  abbrev NotOf : Text → ℕ → List SessionRow → Type 0
  NotOf peer id rows = All (λ (r : SessionRow). (r.id == id) ≡ true → open_for peer r ≡ false) rows

  NotOf-absent :
      (peer : Text) (id : ℕ) (rows : List SessionRow) → id_count id rows ≡ 0 → NotOf peer id rows
  NotOf-absent peer id [] h = tt
  NotOf-absent peer id (r ∷ rows) h = (λ e. ground arith, NotOf-absent peer id rows (ground arith))

  id_count-In : (r : SessionRow) (rows : List SessionRow) → In r rows → 0 < id_count r.id rows
  id_count-In r [] m = absurd m
  id_count-In r (q ∷ rows) (inl e) = ground arith
  id_count-In r (q ∷ rows) (inr m) = ground (arith, id_count-In r rows m)

  NotOf-In :
      (peer : Text) (r : SessionRow) (rows : List SessionRow)
      → In r rows
      → id_count r.id rows ≤ 1
      → open_for peer r ≡ false
      → NotOf peer r.id rows
  NotOf-In peer r [] m le h = absurd m
  NotOf-In peer r (q ∷ rows) (inl e) le h =
      (λ _. ground arith, NotOf-absent peer r.id rows (ground arith))
  NotOf-In peer r (q ∷ rows) (inr m) le h =
      (λ hit. ground (arith, id_count-In r rows m), NotOf-In peer r rows m (ground arith) h)

  open_count-update :
      (peer : Text) (id : ℕ) (t : Time) (rows : List SessionRow)
      → NotOf peer id rows
      → open_count peer (
          update (λ (r : SessionRow). r.id == id) (λ r. record r { disconnected_at = some t }) rows)
        ≡ open_count peer rows
  unfolding update open_for is_open
  open_count-update peer id t [] h = refl
  open_count-update peer id t (r ∷ rows) h =
      ground (arith, h.0, open_count-update peer id t rows h.1)

  -- The session of one peer is not open for another.
  open_for-other :
      (a b : Text) (r : SessionRow) → same a b ≡ false → open_for a r ≡ true → open_for b r ≡ false
  unfolding open_for
  open_for-other a b r h e = ground (arith, same-sym a r.peer_id, same_trans a r.peer_id b)

  active-some :
      (peer : Text) (rows : List SessionRow) (r : SessionRow)
      → active peer rows ≡ some r
      → (open_for peer r ≡ true) × In r rows
  unfolding active
  active-some peer rows r h = newest-some (open_for peer) rows r h

  close-other :
      (peer : Text) (now : Time) (p : Peer) (r : SessionRow) (s : Db)
      → IsValid s
      → same p.id peer ≡ false
      → active p.id s.vpn_sessions ≡ some r
      → open_count peer (close_session now p r.id s).vpn_sessions ≡ open_count peer s.vpn_sessions
  unfolding close_session
  close-other peer now p r s v other found =
      let (mine, member) = active-some p.id s.vpn_sessions r found in
      open_count-update peer r.id _ s.vpn_sessions (
        NotOf-In peer r s.vpn_sessions member (v.distinct r.id)
          (open_for-other p.id peer r other mine))

  settle-other :
      (peer : Text) (now : Time) (p : Peer) (u : User) (s : Db) (found : Option SessionRow)
      → IsValid s
      → same p.id peer ≡ false
      → active p.id s.vpn_sessions ≡ found
      → open_count peer (settle now p u found s).1.vpn_sessions ≡ open_count peer s.vpn_sessions
  unfolding settle statement
  settle-other peer now p u s none v other e =
      ground (arith, count-insert peer now p u (statement s).1 e)
  settle-other peer now p u s (some r) v other e =
      let t = (statement s).1 in
      let kept : IsValid t = record {
        at_most_one = v.at_most_one;
        distinct = v.distinct;
        below = v.below;
      } in
      ground (arith, close-other peer now p r t kept other e)

  -- The sessions of other peers stay open or closed as they are.
  pub open_count-reconcile_other :
      (peer : Text) (now : Time) (p : Peer) (u : User) (s : Db)
      → IsValid s
      → same p.id peer ≡ false
      → open_count peer (reconcile_session now p u s).1.vpn_sessions
        ≡ open_count peer s.vpn_sessions
  unfolding reconcile_session statement
  open_count-reconcile_other peer now p u s v other =
      let t = (statement s).1 in
      let kept : IsValid t = record {
        at_most_one = v.at_most_one;
        distinct = v.distinct;
        below = v.below;
      } in
      ground (arith, settle-other peer now p u t (active p.id s.vpn_sessions) kept other refl)

  -- If the server answers every statement, there is no error.
  pub reconcile_session-quiet :
      (now : Time) (p : Peer) (u : User) (s : Db)
      → s.outcomes ≡ []
      → ((reconcile_session now p u s).0 ≡ ok tt) × ((reconcile_session now p u s).1.outcomes ≡ [])
  unfolding reconcile_session settle statement answer answers_left insert_session close_session
  reconcile_session-quiet now p u s quiet = elim (Option-cases (active p.id s.vpn_sessions)) [
    | inl nothing ↦ ground arith
    | inr (r, found) ↦ ground arith
  ]
