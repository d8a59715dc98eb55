-- ===== src/Netbird.antt =====
-- internal/netbird/client.go. HTTP and the decoder of JSON are parameters: `fetch` is the status of
-- the answer to a request and its decoded body, `none` where one of them is missing.
pub mod Laws
use net_bird_audit.Prelude.{
  ℕ, zero, suc, Text, codes, Bool, true, false, List, [], ◌∷◌, ◌++◌, Option, none, some, map,
  if◌then◌else◌, ◌==◌, nat_eq, text_eq, take,
}
use net_bird_audit.Time.{Time}
use net_bird_audit.Text.{trim_right_set, trim_set, last_index}
use net_bird_audit.Netip.{parse_addr, parse_addr_port, print_addr}
use net_bird_audit.Db.Tables.{User, Peer, NetBirdResource}

pub record Client : Type 0 where
  pub base_url : Text
  pub token : Text

-- New, with its timeout left out.
unfoldable pub new_client : Text → Text → Client
new_client base_url token = record { base_url = trim_right_set base_url (codes "/"); token = token }

pub record ApiRequest : Type 0 where
  pub url : Text
  pub authorization : Text
  pub accept : Text

abbrev pub Fetch : Type 0 → Type 0
Fetch A = ApiRequest → Option (ℕ × Option A)

checked_body : {A : Type 0} → Option (ℕ × Option A) → Option A
checked_body none = none
checked_body (some (status, body)) = if status == 200 then body else none

unfoldable pub get : {A : Type 0} → Fetch A → Client → Text → Option A
unfolding checked_body
get fetch c path = checked_body (
    fetch (record {
      url = c.base_url ++ path;
      authorization = codes "Token " ++ c.token;
      accept = codes "application/json";
    }))

pub record ApiUser : Type 0 where
  pub id : Text
  pub name : Text
  pub email : Text

pub record ApiPeer : Type 0 where
  pub id : Text
  pub name : Text
  pub hostname : Text
  pub ip : Text
  pub connection_ip : Text
  pub connected : Bool
  pub last_seen : Time
  pub user_id : Text

pub record ApiNetwork : Type 0 where
  pub id : Text
  pub name : Text

pub record ApiNetworkResource : Type 0 where
  pub id : Text
  pub kind : Text
  pub name : Text
  pub address : Text
  pub enabled : Bool

user_of : ApiUser → User
user_of x = record { id = x.id; name = x.name; email = x.email }

unfoldable pub users : Fetch (List ApiUser) → Client → Option (List User)
unfolding user_of
users fetch c = elim (get fetch c (codes "/api/users")) [
  | none ↦ none
  | some a ↦ some (map user_of a)
]

-- The text in front of the last colon, if something stands there.
host_part : Text → Option ℕ → Text
host_part s none = s
host_part s (some zero) = s
host_part s (some (suc i)) = trim_set (take (suc i) s) (codes "[]")

unfoldable pub public_ip : Text → Text
unfolding host_part
public_ip s = if s == [] then [] else elim (parse_addr_port s) [
  | some (ip, port) ↦ print_addr ip
  | none ↦ elim (parse_addr s) [ some ip ↦ print_addr ip | none ↦ host_part s (last_index s b':') ]
]

peer_of : ApiPeer → Peer
peer_of x = record {
  id = x.id;
  user_id = x.user_id;
  name = if x.name == [] then x.hostname else x.name;
  ip = x.ip;
  public_ip = public_ip x.connection_ip;
  connected = x.connected;
  last_seen = x.last_seen;
}

unfoldable pub peers : Fetch (List ApiPeer) → Client → Option (List Peer)
unfolding peer_of
peers fetch c = elim (get fetch c (codes "/api/peers")) [
  | none ↦ none
  | some a ↦ some (map peer_of a)
]

pub resource_of : ApiNetwork → ApiNetworkResource → NetBirdResource
resource_of n r = record {
  id = r.id;
  network_id = n.id;
  network_name = n.name;
  name = r.name;
  address = r.address;
  kind = r.kind;
  enabled = r.enabled;
}

pub resources_path : ApiNetwork → Text
resources_path n = codes "/api/networks/" ++ n.id ++ codes "/resources"

then_more : List NetBirdResource → Option (List NetBirdResource) → Option (List NetBirdResource)
then_more out none = none
then_more out (some more) = some (out ++ more)

-- The loop over the networks: the first request that fails ends it.
resources_of_all :
    Fetch (List ApiNetworkResource) → Client → List ApiNetwork → Option (List NetBirdResource)
resources_of_all fetch c [] = some []
resources_of_all fetch c (n ∷ ns) =
    let more = resources_of_all fetch c ns in
    elim (get fetch c (resources_path n)) [
      | none ↦ none
      | some rs ↦ then_more (map (resource_of n) rs) more
    ]

unfoldable pub network_resources :
    Fetch (List ApiNetwork)
    → Fetch (List ApiNetworkResource)
    → Client
    → Option (List NetBirdResource)
unfolding resource_of resources_path then_more resources_of_all
network_resources fetch_networks fetch c = elim (get fetch_networks c (codes "/api/networks")) [
  | none ↦ none
  | some ns ↦ resources_of_all fetch c ns
]
