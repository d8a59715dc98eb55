-- ===== src/Sensor/Flush/Laws.antt =====
-- What a round sends and deletes.
use net_bird_audit.Prelude.{
  In, ℕ, Bool, true, false, not, ◌&&◌, ◌||◌, List, [], ◌∷◌, Option, none, some, nat_eq,
  if◌then◌else◌, keep, keep-all, keep-keep, keep-congr, keep-In, map-In, In-map, In-keep, map, ◌≡◌,
  ◌⊎◌, inl, inr, refl, arith, Bool-cases, sym, ◌∙◌, ap,
}
use net_bird_audit.Time.{Time}
use net_bird_audit.Netip.{Prefix, v4, contains}
use net_bird_audit.Sensor.Types.{Config, FlowKey, FlowVal, FlowEvent, key_beq}
use net_bird_audit.Sensor.Setup.{success}
use net_bird_audit.Sensor.Flush.{
  KernelMap, is_ended, event_of, collect, delete_key, delete_keys, Flushed, answered, deliver,
  flush, iterate_error,
}

abbrev Entry : Type 0
Entry = FlowKey × FlowVal

-- The source of the flow lies in the overlay network.
abbrev pub in_overlay : Prefix → Entry → Bool
in_overlay pfx e = contains pfx (v4 e.0.src_ip)

abbrev pub ended_in : Config → Prefix → ℕ → Entry → Bool
ended_in cfg pfx mn e = in_overlay pfx e && is_ended cfg mn e.1

-- What is to be sent: an event for each flow of the overlay, in the order of the iterator.
abbrev pub events_of : Config → Prefix → Time → ℕ → KernelMap → List FlowEvent
events_of cfg pfx now mn seen =
    map (λ (e : Entry). event_of cfg now mn e.0 e.1) (keep (in_overlay pfx) seen)

abbrev pub ended_keys : Config → Prefix → ℕ → KernelMap → List FlowKey
ended_keys cfg pfx mn seen = map (λ (e : Entry). e.0) (keep (ended_in cfg pfx mn) seen)

collect-eq :
    (cfg : Config) (pfx : Prefix) (now : Time) (mn : ℕ) (seen : KernelMap)
    → collect cfg pfx now mn seen ≡ (events_of cfg pfx now mn seen, ended_keys cfg pfx mn seen)
unfolding collect
collect-eq cfg pfx now mn [] = refl
collect-eq cfg pfx now mn ((k, v) ∷ rest) = ground (arith, collect-eq cfg pfx now mn rest)

abbrev pub any_key : FlowKey → List FlowKey → Bool
any_key k [] = false
any_key k (j ∷ js) = key_beq k j || any_key k js

delete_keys-eq :
    (ks : List FlowKey) (m : KernelMap)
    → delete_keys ks m ≡ keep (λ (e : Entry). not (any_key e.0 ks)) m
unfolding delete_keys delete_key
delete_keys-eq [] m = sym (keep-all (λ (e : Entry). not (any_key e.0 [])) m (λ e. refl))
delete_keys-eq (k ∷ ks) m =
    delete_keys-eq ks (delete_key k m)
    ∙ keep-keep (λ (e : Entry). not (any_key e.0 ks)) (λ (e : Entry). not (key_beq e.0 k)) m
    ∙ keep-congr _ (λ (e : Entry). not (any_key e.0 (k ∷ ks))) m (λ e. ground arith)

any_key-In :
    (k : FlowKey) (ks : List FlowKey)
    → any_key k ks ≡ true
    → (j : FlowKey) × In j ks × (key_beq k j ≡ true)
any_key-In k [] h = absurd (cc)
any_key-In k (j ∷ js) h = elim (Bool-cases (key_beq k j)) [
  | inl hit ↦ (j, inl refl, hit)
  | inr miss ↦ let (i, m, e) = any_key-In k js (ground arith) in (i, inr m, e)
]

In-any_key :
    (k j : FlowKey) (ks : List FlowKey) → In j ks → key_beq k j ≡ true → any_key k ks ≡ true
In-any_key k j [] m h = absurd m
In-any_key k j (i ∷ is) (inl e) h = ground arith
In-any_key k j (i ∷ is) (inr m) h = ground (arith, In-any_key k j is m h)

no_events-no_keys :
    (cfg : Config) (pfx : Prefix) (now : Time) (mn : ℕ) (seen : KernelMap)
    → events_of cfg pfx now mn seen ≡ []
    → ended_keys cfg pfx mn seen ≡ []
no_events-no_keys cfg pfx now mn [] h = refl
no_events-no_keys cfg pfx now mn (e ∷ rest) h =
    ground (arith, no_events-no_keys cfg pfx now mn rest)

abbrev pub some_events : List FlowEvent → Option (List FlowEvent)
some_events [] = none
some_events (e ∷ es) = some (e ∷ es)

module _ (cfg : Config) (pfx : Prefix) (now : Time) (mn : ℕ) (seen : KernelMap) (complete : Bool)
    (status : Option ℕ) (later : KernelMap) where
  abbrev round : Flushed
  round = flush cfg pfx now mn seen complete status later

  abbrev events : List FlowEvent
  events = events_of cfg pfx now mn seen

  abbrev dels : List FlowKey
  dels = ended_keys cfg pfx mn seen

  -- A round over the events and the keys that are meant.
  meant : Flushed
  meant =
      if not complete
      then record { error = some iterate_error; sent = none; left = later }
      else deliver events dels status later

  round-meant : round ≡ meant
  unfolding flush meant
  round-meant =
      ap
        (λ (r : List FlowEvent × List FlowKey).
          (if not complete
            then record { error = some iterate_error; sent = none; left = later }
            else deliver r.0 r.1 status later))
        (collect-eq cfg pfx now mn seen)

  deliver-sent :
      (es : List FlowEvent) (ds : List FlowKey) → (deliver es ds status later).sent ≡ some_events es
  unfolding deliver answered
  deliver-sent [] ds = refl
  deliver-sent (e ∷ es) ds = ground arith

  -- Without an error of the iterator a round sends one event for each entry of the overlay, in
  -- order, and makes no request if there is none; with an error it sends nothing.
  pub sent-flush : round.sent ≡ (if complete then some_events events else none)
  unfolding meant
  sent-flush = rw round-meant (ground (arith, deliver-sent events dels))

  deliver-unconfirmed :
      (es : List FlowEvent) (ds : List FlowKey)
      → success status ≡ false
      → (deliver es ds status later).left ≡ later
  unfolding deliver answered
  deliver-unconfirmed [] ds h = refl
  deliver-unconfirmed (e ∷ es) ds h = rw h

  -- If the iterator or the request fails, or the answer is no success, the map is left alone.
  pub flush-unconfirmed : (complete ≡ false) ⊎ (success status ≡ false) → round.left ≡ later
  unfolding meant
  flush-unconfirmed (inl h) = rw round-meant (rw h)
  flush-unconfirmed (inr h) = rw round-meant (ground (arith, deliver-unconfirmed events dels h))

  deliver-left :
      (es : List FlowEvent) (ds : List FlowKey)
      → (es ≡ [] → ds ≡ [])
      → success status ≡ true
      → (deliver es ds status later).left ≡ keep (λ (e : Entry). not (any_key e.0 ds)) later
  unfolding deliver answered
  deliver-left [] ds none_ended h =
      rw (none_ended refl) (sym (keep-all (λ (e : Entry). not (any_key e.0 [])) later (λ e. refl)))
  deliver-left (e ∷ es) ds none_ended h = rw h (delete_keys-eq ds later)

  left-confirmed :
      complete ≡ true
      → success status ≡ true
      → round.left ≡ keep (λ (e : Entry). not (any_key e.0 dels)) later
  unfolding meant
  left-confirmed all_seen h =
      ap (λ (r : Flushed). r.left) round-meant
      ∙ (rw all_seen (deliver-left events dels (no_events-no_keys cfg pfx now mn seen) h))

  -- After a confirmed round no entry of the map has the key of an overlay flow that was seen as
  -- ended or idle.
  pub flush-deletes_ended :
      (e x : Entry)
      → complete ≡ true
      → success status ≡ true
      → In e seen
      → ended_in cfg pfx mn e ≡ true
      → In x round.left
      → key_beq x.0 e.0 ≡ false
  flush-deletes_ended e x all_seen h member ended left_in =
      let listed : In e.0 dels =
        In-map (λ (d : Entry). d.0) e (keep (ended_in cfg pfx mn) seen)
          (In-keep (ended_in cfg pfx mn) e seen member ended) in
      let (_, spared) =
        keep-In (λ (d : Entry). not (any_key d.0 dels)) x later
          (rw (left-confirmed all_seen h) at left_in) in
      ground (arith, In-any_key x.0 e.0 dels listed)

  -- What it takes for an entry to be deleted: the round is confirmed, and an overlay flow with that
  -- key was seen as ended or idle and has been sent as ended.
  abbrev pub Reported : Entry → Type 0
  Reported x =
      (complete ≡ true)
      × (success status ≡ true)
      × ((e : Entry) × In e seen
          × (key_beq x.0 e.0 ≡ true)
          × (ended_in cfg pfx mn e ≡ true)
          × (round.sent ≡ some_events events)
          × In (event_of cfg now mn e.0 e.1) events
          × ((event_of cfg now mn e.0 e.1).ended ≡ true))

  reported :
      (x : Entry) → complete ≡ true → success status ≡ true → any_key x.0 dels ≡ true → Reported x
  unfolding event_of
  reported x all_seen h hit =
      let (j, listed, same_key) = any_key-In x.0 dels hit in
      let (e, kept_in, e0) =
        map-In (λ (d : Entry). d.0) j (keep (ended_in cfg pfx mn) seen) listed in
      let (member, ended) = keep-In (ended_in cfg pfx mn) e seen kept_in in
      (
        all_seen,
        h,
        (
          e,
          member,
          rw e0 at same_key,
          ended,
          sent-flush ∙ (rw all_seen),
          In-map (λ (d : Entry). event_of cfg now mn d.0 d.1) e (keep (in_overlay pfx) seen)
              (In-keep (in_overlay pfx) e seen member (ground arith)),
          ground arith,
        ),
      )

  -- An entry of the map that a round finds at its end stays there, unless the round was confirmed
  -- and has reported a flow with its key as ended.
  pub flush-keeps_unreported : (x : Entry) → In x later → In x round.left ⊎ Reported x
  flush-keeps_unreported x member = elim (Bool-cases complete) [
    | inr broken ↦ inl (rw (flush-unconfirmed (inl broken)) member)
    | inl all_seen ↦ elim (Bool-cases (success status)) [
      | inr failed ↦ inl (rw (flush-unconfirmed (inr failed)) member)
      | inl h ↦ elim (Bool-cases (any_key x.0 dels)) [
        | inl hit ↦ inr (reported x all_seen h hit)
        | inr miss ↦ inl (
            rw (left-confirmed all_seen h)
              (In-keep (λ (d : Entry). not (any_key d.0 dels)) x later member (rw miss)))
      ]
    ]
  ]
