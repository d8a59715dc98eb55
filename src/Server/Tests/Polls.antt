-- ===== src/Server/Tests/Polls.antt =====
-- The theorems on the poll and the client of NetBird at concrete inputs.
use net_bird_audit.Prelude.{
  ◌+◌, ◌≡◌, inl, refl, codes, true, false, [], ◌∷◌, none, some, arith, List, In, text_eq,
}
use net_bird_audit.Db.Collation.{byte_le, same}
use net_bird_audit.Db.Tables.{User, Peer, empty_db}
use net_bird_audit.Db.VpnSessions.Invariant.{IsValid, open_count}
use net_bird_audit.Server.Sync.{sync}
use net_bird_audit.Server.Sync.Laws.{sync-IsValid, sync-open_count}
use net_bird_audit.Netbird.{Client, Fetch, ApiNetwork, ApiNetworkResource, get, network_resources}
use net_bird_audit.Netbird.Laws.{Listed, network_resources-Listed}
use net_bird_audit.Server.Tests.{binary_collation, fresh}
use net_bird_audit.Server.Tests.Routes.{site}

abbrev pub ann : User
ann = record { id = codes "u1"; name = codes "Ann"; email = codes "ann@x" }

abbrev pub laptop : Peer
laptop = record {
  id = codes "p1";
  user_id = codes "u1";
  name = codes "laptop";
  ip = codes "100.64.0.1";
  public_ip = [];
  connected = true;
  last_seen = 7;
}

abbrev phone : Peer
phone = record laptop { id = codes "p2"; connected = false }

pub empty-IsValid : IsValid empty_db
empty-IsValid = record {
  at_most_one = λ peer. omega arith;
  distinct = λ i. omega arith;
  below = tt;
}

synced-IsValid :
    IsValid (sync (λ n. 50 + n) 60 61 62 (some (ann ∷ [])) none none (fresh, empty_db)).1.1
synced-IsValid =
    sync-IsValid (λ n. 50 + n) 60 61 62 none fresh empty_db (some (ann ∷ [])) none empty-IsValid

sync-open_count_example :
    open_count
      (codes "p1")
      (sync
        (λ n. 50 + n)
        60
        61
        62
        (some (ann ∷ []))
        (some (laptop ∷ phone ∷ []))
        none
        (fresh, empty_db)).1.1.vpn_sessions
    ≡ 1
unfolding same byte_le
sync-open_count_example =
    sync-open_count (λ n. 50 + n) 60 61 62 none fresh empty_db (ann ∷ []) (laptop ∷ phone ∷ [])
      laptop empty-IsValid refl ((refl, tt), (tt, tt)) (inl refl)

abbrev client : Client
client = record { base_url = codes "https://nb"; token = codes "t" }

abbrev office : ApiNetwork
office = record { id = codes "n1"; name = codes "office" }

abbrev networks : Fetch (List ApiNetwork)
networks r = some (200, some (office ∷ []))

abbrev listed : ApiNetworkResource
listed = record {
  id = codes "r1";
  kind = codes "host";
  name = codes "db";
  address = codes "10.0.0.9";
  enabled = true;
}

abbrev resources : Fetch (List ApiNetworkResource)
resources r = some (200, some (listed ∷ []))

got_networks : get networks client (codes "/api/networks") ≡ some (office ∷ [])
unfolding get
got_networks = refl

got_resources : network_resources networks resources client ≡ some (site ∷ [])
unfolding network_resources get
got_resources = refl

network_resources-Listed_example :
    (In site (site ∷ []) → Listed resources client (office ∷ []) site)
    × (Listed resources client (office ∷ []) site → In site (site ∷ []))
network_resources-Listed_example =
    network_resources-Listed resources client networks (office ∷ []) (site ∷ []) site got_networks
      got_resources
