-- ===== src/Db/VpnSessions/Invariant.antt =====
-- The open sessions of a peer, and ReconcileSession of internal/db/db.go.
use net_bird_audit.Prelude.{
  In, ℕ, ◌≤◌, ◌<◌, Text, Bool, true, false, List, [], ◌∷◌, none, some, if◌then◌else◌, ◌==◌, nat_eq,
  count, All, count-append, ◌≡◌, refl, arith, inl, inr, Option-cases, Bool-cases,
}
use net_bird_audit.Time.{Time}
use net_bird_audit.Db.Collation.{Collation, same, same-congr, same-sym}
use net_bird_audit.Db.Tables.{Db, User, Peer, SessionRow}
use net_bird_audit.Db.Query.{newest, update}
use net_bird_audit.Db.VpnSessions.{
  is_open, open_for, active, new_session, insert_session, close_session,
}

abbrev pub id_of : SessionRow → ℕ
id_of r = r.id

pub newest-none :
    (p : SessionRow → Bool) (rows : List SessionRow) → newest id_of p rows ≡ none → count p rows ≡ 0
unfolding newest
newest-none p [] h = refl
newest-none p (r ∷ rows) h = ground (arith, newest-none p rows)

pub newest-some :
    (p : SessionRow → Bool) (rows : List SessionRow) (r : SessionRow)
    → newest id_of p rows ≡ some r
    → (p r ≡ true) × In r rows
unfolding newest
newest-some p [] r h = cc
newest-some p (q ∷ rows) r h = ground (arith, newest-some p rows r)

newest-of_count_zero :
    (p : SessionRow → Bool) (rows : List SessionRow) → count p rows ≡ 0 → newest id_of p rows ≡ none
unfolding newest
newest-of_count_zero p [] h = refl
newest-of_count_zero p (r ∷ rows) h = ground (arith, newest-of_count_zero p rows)

pub newest-of_count_pos :
    (p : SessionRow → Bool) (rows : List SessionRow) (r : SessionRow)
    → newest id_of p rows ≡ some r
    → 0 < count p rows
newest-of_count_pos p rows r h = ground (arith, newest-of_count_zero p rows)

abbrev pub id_count : ℕ → List SessionRow → ℕ
id_count i rows = count (λ (r : SessionRow). r.id == i) rows

abbrev close : ℕ → Time → SessionRow → SessionRow
close id t r = if r.id == id then record r { disconnected_at = some t } else r

module _ ⦃c : Collation⦄ where
  abbrev pub open_count : Text → List SessionRow → ℕ
  open_count peer rows = count (open_for peer) rows

  -- Closing sessions opens none.
  count-close_le :
      (peer : Text) (id : ℕ) (t : Time) (rows : List SessionRow)
      → open_count peer (
          update (λ (r : SessionRow). r.id == id) (λ r. record r { disconnected_at = some t }) rows)
        ≤ open_count peer rows
  unfolding update open_for is_open
  count-close_le peer id t [] = omega arith
  count-close_le peer id t (r ∷ rows) = ground (arith, count-close_le peer id t rows)

  closed-is_open :
      (peer : Text) (t : Time) (r : SessionRow)
      → open_for peer (record r { disconnected_at = some t }) ≡ false
  unfolding open_for is_open
  closed-is_open peer t r = ground arith

  -- With at most one open session, closing the newest leaves none.
  count-close_newest :
      (peer : Text) (t : Time) (rows : List SessionRow) (r : SessionRow)
      → open_count peer rows ≤ 1
      → newest id_of (open_for peer) rows ≡ some r
      → open_count peer (
          update
            (λ (q : SessionRow). q.id == r.id)
            (λ q. record q { disconnected_at = some t })
            rows)
        ≡ 0
  unfolding newest update
  count-close_newest peer t [] r le h = cc
  count-close_newest peer t (q ∷ rows) r le h = elim (Bool-cases (open_for peer q)) [
    | inl at ↦
        let alone : newest id_of (open_for peer) rows ≡ none =
          newest-of_count_zero (open_for peer) rows (ground arith) in
        let same_row : r ≡ q = ground arith in
        ground (arith, count-close_le peer r.id t rows, closed-is_open peer t q)
    | inr past ↦
        let later : newest id_of (open_for peer) rows ≡ some r =
          ground (arith, Option-cases (newest id_of (open_for peer) rows)) in
        ground
          (arith, count-close_newest peer t rows r (ground arith) later, closed-is_open peer t q)
  ]

  count-congr :
      (a b : Text) (rows : List SessionRow)
      → same a b ≡ true
      → open_count a rows ≡ open_count b rows
  unfolding open_for
  count-congr a b [] h = refl
  count-congr a b (r ∷ rows) h = ground (
    arith,
    count-congr a b rows h,
    same-congr a b r.peer_id h,
    same-sym a r.peer_id,
    same-sym b r.peer_id,
  )

  -- Every peer has at most one open session, no id stands in two rows, and the ids are below the
  -- counter.
  pub record IsValid (s : Db) : Type 0 where
    pub distinct : (i : ℕ) → id_count i s.vpn_sessions ≤ 1
    pub at_most_one : (peer : Text) → open_count peer s.vpn_sessions ≤ 1
    pub below : All (λ (r : SessionRow). r.id < s.next_session) s.vpn_sessions

  pub count-insert :
      (peer : Text) (now : Time) (p : Peer) (u : User) (s : Db)
      → active p.id s.vpn_sessions ≡ none
      → open_count peer (insert_session now p u s).vpn_sessions
        ≡ (if same p.id peer then 1 else open_count peer s.vpn_sessions)
  unfolding insert_session new_session active open_for is_open
  count-insert peer now p u s none_open = ground (
    arith,
    count-append (open_for peer) s.vpn_sessions (new_session s.next_session now p u ∷ []),
    newest-none (open_for p.id) s.vpn_sessions none_open,
    count-congr p.id peer s.vpn_sessions,
  )

  pub count-close :
      (peer : Text) (now : Time) (p : Peer) (r : SessionRow) (s : Db)
      → open_count p.id s.vpn_sessions ≤ 1
      → active p.id s.vpn_sessions ≡ some r
      → (open_count peer (close_session now p r.id s).vpn_sessions ≤ open_count peer s.vpn_sessions)
        × (open_count p.id (close_session now p r.id s).vpn_sessions ≡ 0)
  unfolding close_session active
  count-close peer now p r s le found = (
    count-close_le peer r.id _ s.vpn_sessions,
    count-close_newest p.id _ s.vpn_sessions r le found,
  )
