-- ===== src/Db/Tables.antt =====
-- The rows of the tables that Migrate creates, and the structs that the methods take and return.
use net_bird_audit.Prelude.{ℕ, Text, Bool, Option, List, []}
use net_bird_audit.Time.{Time}

-- The structs of the package.

pub record User : Type 0 where
  pub id : Text
  pub name : Text
  pub email : Text

-- A zero `last_seen` is a time that is not known.
pub record Peer : Type 0 where
  pub id : Text
  pub user_id : Text
  pub name : Text
  pub ip : Text
  pub public_ip : Text
  pub connected : Bool
  pub last_seen : Time

pub record Resource : Type 0 where
  pub id : ℕ
  pub name : Text
  pub cidr : Text
  pub protocol : Text
  pub ports : Text
  pub enabled : Bool

pub record NetBirdResource : Type 0 where
  pub id : Text
  pub network_id : Text
  pub network_name : Text
  pub name : Text
  pub address : Text
  pub kind : Text
  pub enabled : Bool

pub record ResourceView : Type 0 where
  pub resource : NetBirdResource
  pub audit_id : ℕ
  pub audit_enabled : Bool
  pub audit_protocol : Text
  pub audit_ports : Text
  pub supported : Bool

pub record FlowUpsert : Type 0 where
  pub flow_key : Text
  pub started_at : Time
  pub last_seen_at : Time
  pub src_ip : Text
  pub dst_ip : Text
  pub protocol : Text
  pub src_port : ℕ
  pub dst_port : ℕ
  pub bytes_tx : ℕ
  pub bytes_rx : ℕ
  pub packets_tx : ℕ
  pub packets_rx : ℕ
  pub ended : Bool

-- The tables. A nullable column is an `Option`. The column updated_at, which no statement reads,
-- is left out.

-- peers_cache; users_cache has the columns of `User`, and netbird_resources_cache those of
-- `NetBirdResource`.
pub record PeerEntry : Type 0 where
  pub id : Text
  pub user_id : Text
  pub name : Text
  pub ip : Text
  pub public_ip : Text
  pub connected : Bool
  pub last_seen : Option Time

-- vpn_sessions
pub record SessionRow : Type 0 where
  pub id : ℕ
  pub peer_id : Text
  pub user_id : Text
  pub user_email : Text
  pub user_name : Text
  pub peer_name : Text
  pub peer_ip : Text
  pub public_ip : Text
  pub connected_at : Time
  pub disconnected_at : Option Time

-- network_flows
pub record FlowRow : Type 0 where
  pub id : ℕ
  pub flow_key : Text
  pub started_at : Time
  pub last_seen_at : Time
  pub ended_at : Option Time
  pub user_id : Text
  pub user_email : Text
  pub user_name : Text
  pub peer_id : Text
  pub peer_name : Text
  pub src_ip : Text
  pub src_port : ℕ
  pub resource_id : ℕ
  pub resource_name : Text
  pub dst_ip : Text
  pub dst_port : ℕ
  pub protocol : Text
  pub bytes_tx : ℕ
  pub bytes_rx : ℕ
  pub packets_tx : ℕ
  pub packets_rx : ℕ

-- admin_audit
pub record AuditRow : Type 0 where
  pub occurred_at : Time
  pub admin_user : Text
  pub action : Text
  pub detail : Text
  pub remote_ip : Text

-- The database, and what the server will answer to the coming statements: `false` is an error, and
-- after the last answer every statement succeeds.
pub record Db : Type 0 where
  pub users : List User
  pub peers : List PeerEntry
  pub vpn_sessions : List SessionRow
  pub next_session : ℕ
  pub resources : List Resource
  pub next_resource : ℕ
  pub netbird_resources : List NetBirdResource
  pub flows : List FlowRow
  pub next_flow : ℕ
  pub admin_audit : List AuditRow
  pub outcomes : List Bool

abbrev pub empty_db : Db
empty_db = record {
  users = [];
  peers = [];
  vpn_sessions = [];
  next_session = 1;
  resources = [];
  next_resource = 1;
  netbird_resources = [];
  flows = [];
  next_flow = 1;
  admin_audit = [];
  outcomes = [];
}
