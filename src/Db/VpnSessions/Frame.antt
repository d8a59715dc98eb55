-- ===== src/Db/VpnSessions/Frame.antt =====
-- The flows before and after ReconcileSession of internal/db/db.go.
use net_bird_audit.Prelude.{Option, none, some, ◌≡◌, refl, arith, inl, inr}
use net_bird_audit.Time.{Time}
use net_bird_audit.Db.Collation.{Collation}
use net_bird_audit.Db.Tables.{Db, User, Peer, SessionRow}
use net_bird_audit.Db.Monad.{statement, answer, answers_left, Result-cases}
use net_bird_audit.Db.VpnSessions.{active, insert_session, close_session, settle, reconcile_session}

-- The table of flows has the same rows, and the same counter.
abbrev pub KeepsFlows : Db → Db → Type 0
KeepsFlows d e = (e.flows ≡ d.flows) × (e.next_flow ≡ d.next_flow)

module _ ⦃c : Collation⦄ where
  settle-KeepsFlows :
      (now : Time) (p : Peer) (u : User) (found : Option SessionRow) (d : Db)
      → KeepsFlows d (settle now p u found d).1
  unfolding settle statement insert_session close_session
  settle-KeepsFlows now p u none d = ground arith
  settle-KeepsFlows now p u (some r) d = ground arith

  pub reconcile_session-KeepsFlows :
      (now : Time) (p : Peer) (u : User) (d : Db) → KeepsFlows d (reconcile_session now p u d).1
  unfolding reconcile_session statement
  reconcile_session-KeepsFlows now p u d = elim (Result-cases (answer d.outcomes)) [
    | inr (x, bad) ↦ rw bad (refl, refl)
    | inl good ↦
        let t = record d { outcomes = answers_left d.outcomes } in
        rw good (settle-KeepsFlows now p u (active p.id d.vpn_sessions) t)
  ]
