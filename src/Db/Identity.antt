-- ===== src/Db/Identity.antt =====
-- Users and peers: UpsertUser, UpsertPeer, PeerByIP and ListPeers of internal/db/db.go.
use net_bird_audit.Prelude.{
  Text, Bool, true, false, List, [], Option, none, some, map, if◌then◌else◌,
}
use net_bird_audit.Time.{Time, is_zero}
use net_bird_audit.Db.Collation.{Collation, same, le_text}
use net_bird_audit.Db.Tables.{Db, User, Peer, PeerEntry}
use net_bird_audit.Db.Query.{find, upsert, sort_by}
use net_bird_audit.Db.Monad.{M, ◌>>◌, gets, modify, statement}

-- nullableTime: the zero time is NULL.
unfoldable pub nullable_time : Time → Option Time
nullable_time t = if is_zero t then none else some t

-- A NULL last_seen leaves the field at the zero time.
unfoldable pub time_of : Option Time → Time
time_of none = 0
time_of (some t) = t

pub record PeerRow : Type 0 where
  pub peer : Peer
  pub user_name : Text
  pub user_email : Text

module _ ⦃c : Collation⦄ where
  unfoldable pub upsert_user : User → M Unit
  upsert_user u = do
    statement
    modify (λ s. record s {
      users =
          upsert (λ (r : User). same r.id u.id) (λ r. record r { name = u.name; email = u.email }) u
            s.users;
    })

  peer_entry : Peer → PeerEntry
  peer_entry p = record {
    id = p.id;
    user_id = p.user_id;
    name = p.name;
    ip = p.ip;
    public_ip = p.public_ip;
    connected = p.connected;
    last_seen = nullable_time p.last_seen;
  }

  -- The row of a known peer keeps its id, and takes every other column.
  unfoldable pub upsert_peer : Peer → M Unit
  unfolding peer_entry
  upsert_peer p = do
    statement
    modify (λ s. record s {
      peers =
          upsert (λ (r : PeerEntry). same r.id p.id) (λ r. record (peer_entry p) { id = r.id })
            (peer_entry p) s.peers;
    })

  -- The user of a peer by the left join, with empty texts where there is none.
  joined_user : PeerEntry → List User → User
  joined_user p users = elim (find (λ (u : User). same u.id p.user_id) users) [
    | none ↦ record { id = p.user_id; name = []; email = [] }
    | some u ↦ record { id = p.user_id; name = u.name; email = u.email }
  ]

  peer_of_entry : PeerEntry → Peer
  peer_of_entry r = record {
    id = r.id;
    user_id = r.user_id;
    name = r.name;
    ip = r.ip;
    public_ip = r.public_ip;
    connected = r.connected;
    last_seen = time_of r.last_seen;
  }

  -- The result of the query; `none` is sql.ErrNoRows.
  pub peer_row_by_ip : Text → List PeerEntry → List User → Option (Peer × User)
  unfolding joined_user peer_of_entry
  peer_row_by_ip ip peers users = elim (find (λ (r : PeerEntry). same r.ip ip) peers) [
    | none ↦ none
    | some r ↦ some (peer_of_entry r, joined_user r users)
  ]

  unfoldable pub peer_by_ip : Text → M (Option (Peer × User))
  unfolding peer_row_by_ip
  peer_by_ip ip = do statement; gets (λ s. peer_row_by_ip ip s.peers s.users)

  -- ORDER BY connected DESC, name
  peer_before : PeerRow → PeerRow → Bool
  peer_before a b =
      if a.peer.connected
      then (if b.peer.connected then le_text a.peer.name b.peer.name else true)
      else (if b.peer.connected then false else le_text a.peer.name b.peer.name)

  peer_row : Db → PeerEntry → PeerRow
  peer_row s r =
      let u = joined_user r s.users in
      record { peer = peer_of_entry r; user_name = u.name; user_email = u.email }

  unfoldable pub list_peers : M (List PeerRow)
  unfolding peer_before peer_row joined_user peer_of_entry
  list_peers = do statement; gets (λ s. sort_by peer_before (map (peer_row s) s.peers))
