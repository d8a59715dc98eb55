-- ===== src/Db/Flows.antt =====
-- UpsertFlow of internal/db/db.go.
pub mod Rows
pub mod Frame
pub mod Reports
use net_bird_audit.Prelude.{
  ℕ, ◌+◌, Text, Bool, true, false, not, ◌&&◌, ◌||◌, List, [], ◌∷◌, Option, none, some,
  if◌then◌else◌,
}
use net_bird_audit.Text.{to_lower}
use net_bird_audit.Time.{Time}
use net_bird_audit.Db.Collation.{Collation, same}
use net_bird_audit.Db.Tables.{Db, Resource, User, Peer, FlowRow, FlowUpsert}
use net_bird_audit.Db.Query.{any, upsert}
use net_bird_audit.Db.Monad.{M, ◌>>=◌, ◌>>◌, pure, modify, statement}
use net_bird_audit.Db.Identity.{peer_by_ip}
use net_bird_audit.Db.Matching.{match_resource}

-- The texts that the method copies from the peer and its user; empty ones if no peer has the IP.
pub record Identity : Type 0 where
  pub peer_id : Text
  pub user_id : Text
  pub peer_name : Text
  pub user_email : Text
  pub user_name : Text

unfoldable pub identity_of : Option (Peer × User) → Identity
identity_of none = record {
  peer_id = [];
  user_id = [];
  peer_name = [];
  user_email = [];
  user_name = [];
}
identity_of (some (p, u)) = record {
  peer_id = p.id;
  user_id = p.user_id;
  peer_name = p.name;
  user_email = u.email;
  user_name = u.name;
}

ended_at_of : FlowUpsert → Option Time
ended_at_of f = if f.ended then some f.last_seen_at else none

-- The row of the INSERT.
pub flow_row : ℕ → FlowUpsert → Resource → Identity → FlowRow
flow_row id f r i = record {
  id = id;
  flow_key = f.flow_key;
  started_at = f.started_at;
  last_seen_at = f.last_seen_at;
  ended_at = ended_at_of f;
  user_id = i.user_id;
  user_email = i.user_email;
  user_name = i.user_name;
  peer_id = i.peer_id;
  peer_name = i.peer_name;
  src_ip = f.src_ip;
  src_port = f.src_port;
  resource_id = r.id;
  resource_name = r.name;
  dst_ip = f.dst_ip;
  dst_port = f.dst_port;
  protocol = to_lower f.protocol;
  bytes_tx = f.bytes_tx;
  bytes_rx = f.bytes_rx;
  packets_tx = f.packets_tx;
  packets_rx = f.packets_rx;
}

-- COALESCE(VALUES(ended_at), ended_at)
coalesce_ended : Option Time → Option Time → Option Time
coalesce_ended none old = old
coalesce_ended (some t) old = some t

module _ ⦃c : Collation⦄ where
  -- COALESCE(NULLIF(VALUES(x), ''), x)
  coalesce_text : Text → Text → Text
  coalesce_text new old = if same new [] then old else new

  -- ON DUPLICATE KEY UPDATE: `n` is the row of the INSERT, `q` the row that has its key.
  pub merge_flow : FlowRow → FlowRow → FlowRow
  merge_flow n q = record q {
    last_seen_at = n.last_seen_at;
    ended_at = coalesce_ended n.ended_at q.ended_at;
    bytes_tx = n.bytes_tx;
    bytes_rx = n.bytes_rx;
    packets_tx = n.packets_tx;
    packets_rx = n.packets_rx;
    user_id = coalesce_text n.user_id q.user_id;
    user_email = coalesce_text n.user_email q.user_email;
    user_name = coalesce_text n.user_name q.user_name;
    peer_id = coalesce_text n.peer_id q.peer_id;
    peer_name = coalesce_text n.peer_name q.peer_name;
  }

  pub has_key : Text → FlowRow → Bool
  has_key key q = same q.flow_key key

  -- InnoDB takes the next id for the INSERT also where the row is updated. Whether a statement that
  -- fails takes one is left open: it takes none.
  pub put_flow : FlowUpsert → Resource → Identity → Db → Db
  put_flow f r i s =
      let n = flow_row s.next_flow f r i in
      record s {
        flows = upsert (has_key f.flow_key) (merge_flow n) n s.flows;
        next_flow = s.next_flow + 1;
      }

  store_flow : FlowUpsert → Option Resource → M Bool
  store_flow f none = pure false
  store_flow f (some r) = do
    found ← peer_by_ip f.src_ip
    statement
    modify (put_flow f r (identity_of found))
    pure true

  -- `true` is reported only with no error: the caller looks at it only then.
  unfoldable pub upsert_flow : FlowUpsert → M Bool
  unfolding store_flow
  upsert_flow f = do found ← match_resource f.dst_ip f.dst_port f.protocol; store_flow f found
