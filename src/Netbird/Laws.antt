-- ===== src/Netbird/Laws.antt =====
-- What NetworkResources collects.
use net_bird_audit.Prelude.{
  codes, List, [], ◌∷◌, ◌++◌, Option, none, some, map, In, In-map, map-In, ◌≡◌, ◌⊎◌, inl, inr, refl,
  arith, Option-cases,
}
use net_bird_audit.Db.Tables.{NetBirdResource}
use net_bird_audit.Netbird.{
  Client, Fetch, get, ApiNetwork, ApiNetworkResource, resource_of, resources_path, then_more,
  resources_of_all, network_resources,
}

pub In-append : {A : Type 0} (a : A) (xs ys : List A) → In a (xs ++ ys) → In a xs ⊎ In a ys
In-append a [] ys m = inr m
In-append a (x ∷ xs) ys (inl e) = inl (inl e)
In-append a (x ∷ xs) ys (inr m) = elim (In-append a xs ys m) [ inl l ↦ inl (inr l) | inr r ↦ inr r ]

In-left : {A : Type 0} (a : A) (xs ys : List A) → In a xs → In a (xs ++ ys)
In-left a [] ys m = absurd m
In-left a (x ∷ xs) ys (inl e) = inl e
In-left a (x ∷ xs) ys (inr m) = inr (In-left a xs ys m)

In-right : {A : Type 0} (a : A) (xs ys : List A) → In a ys → In a (xs ++ ys)
In-right a [] ys m = m
In-right a (x ∷ xs) ys m = inr (In-right a xs ys m)

module _ (fetch : Fetch (List ApiNetworkResource)) (c : Client) where
  -- The resource stands in the answer for one of the networks, with that network's id and name.
  abbrev pub Listed : List ApiNetwork → NetBirdResource → Type 0
  Listed ns x =
      (n : ApiNetwork) × In n ns
      × ((rs : List ApiNetworkResource) × (get fetch c (resources_path n) ≡ some rs)
          × ((r : ApiNetworkResource) × In r rs × (x ≡ resource_of n r)))

  then_more-some :
      (first out : List NetBirdResource) (o : Option (List NetBirdResource))
      → then_more first o ≡ some out
      → (more : List NetBirdResource) × (o ≡ some more) × (out ≡ first ++ more)
  unfolding then_more
  then_more-some first out none h = cc
  then_more-some first out (some more) h = (more, refl, ground arith)

  cons-some :
      (n : ApiNetwork) (ns : List ApiNetwork) (out : List NetBirdResource)
      → resources_of_all fetch c (n ∷ ns) ≡ some out
      → (rs : List ApiNetworkResource) × (more : List NetBirdResource) × (get fetch c
            (resources_path n)
          ≡ some rs)
        × (resources_of_all fetch c ns ≡ some more)
        × (out ≡ map (resource_of n) rs ++ more)
  unfolding resources_of_all
  cons-some n ns out h = elim (Option-cases (get fetch c (resources_path n))) [
    | inl bad ↦ absurd (ground arith)
    | inr (rs, good) ↦
        let (more, e, parts) =
          then_more-some (map (resource_of n) rs) out (resources_of_all fetch c ns)
            (rw (resources_of_all, good) at h) in
        (rs, more, good, e, parts)
  ]

  collected-Listed :
      (ns : List ApiNetwork) (out : List NetBirdResource) (x : NetBirdResource)
      → resources_of_all fetch c ns ≡ some out
      → In x out
      → Listed ns x
  unfolding resources_of_all
  collected-Listed [] out x h m = absurd (ground arith)
  collected-Listed (n ∷ ns) out x h m =
      let (rs, more, good, e, parts) = cons-some n ns out h in
      elim (In-append x (map (resource_of n) rs) more (rw parts at m)) [
        | inl l ↦
            let (r, mr, xr) = map-In (resource_of n) x rs l in
            (n, inl refl, (rs, good, (r, mr, xr)))
        | inr l ↦ let (k, mk, rest) = collected-Listed ns more x e l in (k, inr mk, rest)
      ]

  Listed-collected :
      (ns : List ApiNetwork) (out : List NetBirdResource) (x : NetBirdResource)
      → resources_of_all fetch c ns ≡ some out
      → Listed ns x
      → In x out
  unfolding resources_of_all
  Listed-collected [] out x h (n, m, _) = absurd m
  Listed-collected (n ∷ ns) out x h (k, inl e, (rs, good, (r, mr, xr))) =
      let (rs', more, good', e', parts) = cons-some n ns out h in
      let same_rs : rs ≡ rs' = ground arith in
      rw (parts, xr, e)
        (In-left (resource_of n r) (map (resource_of n) rs') more
          (In-map (resource_of n) r rs' (rw (← same_rs) mr)))
  Listed-collected (n ∷ ns) out x h (k, inr mk, rest) =
      let (rs', more, good', e', parts) = cons-some n ns out h in
      rw parts
        (In-right x (map (resource_of n) rs') more (Listed-collected ns more x e' (k, mk, rest)))

  -- If the networks are answered and there is no error, the list has exactly the resources that the
  -- answers for the networks have, each with its network's id and name.
  pub network_resources-Listed :
      (fetch_networks : Fetch (List ApiNetwork)) (ns : List ApiNetwork) (out : List NetBirdResource)
      (x : NetBirdResource)
      → get fetch_networks c (codes "/api/networks") ≡ some ns
      → network_resources fetch_networks fetch c ≡ some out
      → (In x out → Listed ns x) × (Listed ns x → In x out)
  unfolding network_resources
  network_resources-Listed fetch_networks ns out x networks h =
      let e : resources_of_all fetch c ns ≡ some out = rw (network_resources, networks) at h in
      (collected-Listed ns out x e, Listed-collected ns out x e)
