-- ===== src/Db/VpnSessions/History.antt =====
-- The sessions before and after ReconcileSession of internal/db/db.go.
use net_bird_audit.Prelude.{
  In, ℕ, ◌<◌, ◌≤◌, Text, true, List, [], ◌∷◌, ◌++◌, Option, none, some, ◌==◌, nat_eq, ◌≡◌, ◌≢◌,
  refl, sym, ap, ◌∙◌, arith, inl, inr, Bool-cases,
}
use net_bird_audit.Time.{Time}
use net_bird_audit.Db.Collation.{Collation}
use net_bird_audit.Db.Tables.{Db, User, Peer, SessionRow}
use net_bird_audit.Db.Query.{update}
use net_bird_audit.Db.Monad.{statement, answer, answers_left, Result-cases}
use net_bird_audit.Db.VpnSessions.{
  is_open, open_for, active, insert_session, close_session, settle, reconcile_session,
}
use net_bird_audit.Db.VpnSessions.Invariant.{IsValid, newest-some, id_count}

-- The row with that id, if it is closed.
abbrev pub IsClosed : SessionRow → Type 0
IsClosed r = r.disconnected_at ≢ none

-- Every session on record is still there as it was, unless it was open: then it has the same start
-- and the same snapshots, and may have got an end.
abbrev pub Later : SessionRow → SessionRow → Type 0
Later r q = q ≡ record r { disconnected_at = q.disconnected_at }

abbrev pub Recorded : SessionRow → List SessionRow → Type 0
Recorded r rows = (q : SessionRow) × In q rows × (IsClosed r → q ≡ r) × Later r q

abbrev pub History : List SessionRow → List SessionRow → Type 0
History before now = (r : SessionRow) → In r before → Recorded r now

pub History-refl : (rows : List SessionRow) → History rows rows
History-refl rows r m = (r, m, λ closed. refl, refl)

pub History-trans : (a b d : List SessionRow) → History a b → History b d → History a d
History-trans a b d f g r m =
    let (q, mq, same, later) = f r m in
    let (p, mp, same', later') = g q mq in
    (p, mp, λ closed. chain r q p (same closed) closed same', later_trans r q p later later')
  where
    later_trans : (r q p : SessionRow) → Later r q → Later q p → Later r p
    later_trans r q p e f =
        f ∙ ap (λ (x : SessionRow). record x { disconnected_at = p.disconnected_at }) e

    chain : (r q p : SessionRow) → q ≡ r → IsClosed r → (IsClosed q → p ≡ q) → p ≡ r
    chain r q p e closed next =
        next (λ open_now. closed (ap (λ (x : SessionRow). x.disconnected_at) (sym e) ∙ open_now))
        ∙ e

In-append : (r : SessionRow) (rows more : List SessionRow) → In r rows → In r (rows ++ more)
In-append r [] more m = absurd m
In-append r (q ∷ rows) more (inl e) = inl e
In-append r (q ∷ rows) more (inr m) = inr (In-append r rows more m)

append-History : (rows more : List SessionRow) → History rows (rows ++ more)
append-History rows more r m = (r, In-append r rows more m, λ closed. refl, refl)

-- An update of the end, of rows that are all open.
end_open-History :
    (id : ℕ) (t : Time) (rows : List SessionRow)
    → ((x : SessionRow) → In x rows → (x.id == id) ≡ true → x.disconnected_at ≡ none)
    → History rows
        (update (λ (r : SessionRow). r.id == id) (λ r. record r { disconnected_at = some t }) rows)
unfolding update
end_open-History id t [] all_open r m = absurd m
end_open-History id t (q ∷ rows) all_open r (inl e) = elim (Bool-cases (q.id == id)) [
  | inl hit ↦ (
    record q { disconnected_at = some t },
    rw hit (inl refl),
    λ closed. absurd (closed (rw e (all_open q (inl refl) hit))),
    rw e refl,
  )
  | inr miss ↦ (q, rw miss (inl refl), λ closed. rw e refl, rw e refl)
]
end_open-History id t (q ∷ rows) all_open r (inr m) =
    let (p, mp, same, later) =
      end_open-History id t rows (λ x mx hit. all_open x (inr mx) hit) r m in
    (p, inr mp, same, later)

id_count-In :
    (i : ℕ) (rows : List SessionRow) (x : SessionRow) → In x rows → x.id ≡ i → 0 < id_count i rows
id_count-In i [] x m e = absurd m
id_count-In i (r ∷ rows) x (inl h) e = ground arith
id_count-In i (r ∷ rows) x (inr m) e = ground (arith, id_count-In i rows x m e)

-- An id that stands once names one row.
one_row :
    (i : ℕ) (rows : List SessionRow) (x y : SessionRow)
    → id_count i rows ≤ 1
    → In x rows
    → In y rows
    → x.id ≡ i
    → y.id ≡ i
    → x ≡ y
one_row i [] x y le mx my ex ey = absurd mx
one_row i (r ∷ rows) x y le (inl a) (inl b) ex ey = a ∙ sym b
one_row i (r ∷ rows) x y le (inl a) (inr b) ex ey =
    absurd (ground (arith, id_count-In i rows y b ey))
one_row i (r ∷ rows) x y le (inr a) (inl b) ex ey =
    absurd (ground (arith, id_count-In i rows x a ex))
one_row i (r ∷ rows) x y le (inr a) (inr b) ex ey = one_row i rows x y (ground arith) a b ex ey

module _ ⦃c : Collation⦄ where
  open_for-none : (peer : Text) (r : SessionRow) → open_for peer r ≡ true → r.disconnected_at ≡ none
  unfolding open_for is_open
  open_for-none peer r h = ground arith

  settle-History :
      (now : Time) (p : Peer) (u : User) (s : Db) (found : Option SessionRow)
      → IsValid s
      → active p.id s.vpn_sessions ≡ found
      → History s.vpn_sessions (settle now p u found s).1.vpn_sessions
  unfolding settle statement active insert_session close_session
  settle-History now p u s none v e = elim (Bool-cases p.connected) [
    | inr gone ↦ rw gone (History-refl s.vpn_sessions)
    | inl there ↦ elim (Result-cases (answer s.outcomes)) [
      | inr (x, bad) ↦ rw (there, bad) (History-refl s.vpn_sessions)
      | inl good ↦ rw (there, good) (append-History s.vpn_sessions _)
    ]
  ]
  settle-History now p u s (some r) v e = elim (Bool-cases p.connected) [
    | inl there ↦ rw there (History-refl s.vpn_sessions)
    | inr gone ↦ elim (Result-cases (answer s.outcomes)) [
      | inr (x, bad) ↦ rw (gone, bad) (History-refl s.vpn_sessions)
      | inl good ↦
          let (opened, member) = newest-some (open_for p.id) s.vpn_sessions r e in
          rw (gone, good)
            (end_open-History r.id _ s.vpn_sessions (λ x mx hit.
              rw (one_row r.id s.vpn_sessions x r (v.distinct r.id) mx member (ground arith) refl)
                (open_for-none p.id r opened)))
    ]
  ]

  -- ReconcileSession never takes a session off the record, never changes a closed one, and changes
  -- nothing of an open one but its end.
  pub reconcile_session-History :
      (now : Time) (p : Peer) (u : User) (s : Db)
      → IsValid s
      → History s.vpn_sessions (reconcile_session now p u s).1.vpn_sessions
  unfolding reconcile_session statement
  reconcile_session-History now p u s v = elim (Result-cases (answer s.outcomes)) [
    | inr (x, bad) ↦ rw bad (History-refl s.vpn_sessions)
    | inl good ↦
        let t = record s { outcomes = answers_left s.outcomes } in
        let kept : IsValid t = record {
          at_most_one = v.at_most_one;
          distinct = v.distinct;
          below = v.below;
        } in
        rw good (settle-History now p u t (active p.id s.vpn_sessions) kept refl)
  ]
