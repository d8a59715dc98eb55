-- ===== src/Db/Search.antt =====
-- SearchFlows and RecentFlows of internal/db/db.go. The nullable columns that COALESCE reads always
-- get a text, which may be empty.
pub mod Laws
use net_bird_audit.Prelude.{
  ℕ, ◌+◌, Text, codes, Bool, true, false, not, ◌&&◌, ◌||◌, List, [], ◌∷◌, ◌++◌, Option, none, some,
  map, keep, take, if◌then◌else◌, ◌==◌, nat_eq, text_eq, leb, ltb,
}
use net_bird_audit.Prelude.Int.{ℤ, pos, negsuc}
use net_bird_audit.Time.{Time, is_zero}
use net_bird_audit.Text.{to_lower}
use net_bird_audit.Db.Collation.{Collation, same, like_text}
use net_bird_audit.Db.Tables.{Db, FlowRow}
use net_bird_audit.Db.Query.{sort_by}
use net_bird_audit.Db.Monad.{M, ◌>>=◌, ◌>>◌, gets, statement}

pub record Flow : Type 0 where
  pub id : ℕ
  pub started_at : Time
  pub last_seen_at : Time
  pub user_email : Text
  pub user_name : Text
  pub peer_name : Text
  pub src_ip : Text
  pub resource_name : Text
  pub dst_ip : Text
  pub protocol : Text
  pub src_port : ℕ
  pub dst_port : ℕ
  pub bytes_tx : ℕ
  pub bytes_rx : ℕ
  pub packets_tx : ℕ
  pub packets_rx : ℕ
  pub ended : Bool

pub record FlowFilter : Type 0 where
  pub since : Time
  pub user : Text
  pub resource : Text
  pub protocol : Text
  pub query : Text
  pub limit : ℤ

is_set : Option Time → Bool
is_set none = false
is_set (some t) = true

unfoldable pub flow_of_row : FlowRow → Flow
unfolding is_set
flow_of_row r = record {
  id = r.id;
  started_at = r.started_at;
  last_seen_at = r.last_seen_at;
  user_email = r.user_email;
  user_name = r.user_name;
  peer_name = r.peer_name;
  src_ip = r.src_ip;
  resource_name = r.resource_name;
  dst_ip = r.dst_ip;
  protocol = r.protocol;
  src_port = r.src_port;
  dst_port = r.dst_port;
  bytes_tx = r.bytes_tx;
  bytes_rx = r.bytes_rx;
  packets_tx = r.packets_tx;
  packets_rx = r.packets_rx;
  ended = is_set r.ended_at;
}

-- The limit of the query: 200 for one that is not from 1 to 1000.
unfoldable pub page_size : ℤ → ℕ
page_size (pos n) = if n == 0 || ltb 1000 n then 200 else n
page_size (negsuc n) = 200

-- ORDER BY last_seen_at DESC
abbrev pub newer : FlowRow → FlowRow → Bool
newer a b = leb b.last_seen_at a.last_seen_at

module _ ⦃c : Collation⦄ where
  -- One of the six columns is LIKE the pattern.
  pub mentions : Text → FlowRow → Bool
  mentions pattern_text r =
      like_text r.user_email pattern_text
      || like_text r.user_name pattern_text
      || like_text r.peer_name pattern_text
      || like_text r.src_ip pattern_text
      || like_text r.dst_ip pattern_text
      || like_text r.resource_name pattern_text

  -- The conditions that the method adds for the fields that are set.
  wants : FlowFilter → FlowRow → Bool
  wants f r =
      (is_zero f.since || leb f.since r.started_at)
      && (f.user == [] || same r.user_email f.user || same r.user_name f.user)
      && (f.resource == [] || same r.resource_name f.resource)
      && (f.protocol == [] || same r.protocol (to_lower f.protocol))
      && (f.query == [] || mentions (codes "%" ++ f.query ++ codes "%") r)

  page : FlowFilter → List FlowRow → List FlowRow
  page f rows = take (page_size f.limit) (sort_by newer (keep (wants f) rows))

  unfoldable pub search_flows : FlowFilter → M (List Flow)
  unfolding is_set flow_of_row mentions wants page
  search_flows f = do statement; gets (λ s. map flow_of_row (page f s.flows))

  unfoldable pub recent_flows : ℤ → M (List Flow)
  recent_flows limit =
      search_flows
        (record { since = 0; user = []; resource = []; protocol = []; query = []; limit = limit })
