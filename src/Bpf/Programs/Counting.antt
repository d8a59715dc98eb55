-- ===== src/Bpf/Programs/Counting.antt =====
-- What audit_ingress and audit_egress of sensor/bpf/audit.bpf.c do to the entry of a flow.
use net_bird_audit.Prelude.{
  Bool, ◌||◌, ◌∙◌, sym, ℕ, true, false, List, [], ◌∷◌, Option, none, some, nat_eq, if◌then◌else◌,
  ◌≡◌, inl, inr, refl, arith, Bool-cases, Option-cases,
}
use net_bird_audit.Sensor.Types.{FlowKey, FlowVal, key_beq}
use net_bird_audit.Sensor.Flush.{KernelMap, delete_key, delete_keys}
use net_bird_audit.Sensor.Flush.Laws.{any_key}
use net_bird_audit.Bpf.Packet.{Flags, key_from_packet}
use net_bird_audit.Bpf.Programs.{
  Packet, find_flow, put_flow, count_rx, ingress_value, on_ingress, is_none, is_new_tcp,
  store_ingress, update_flow, audit_ingress, on_egress, audit_egress,
}

pub key_beq_eq : (a b : FlowKey) → key_beq a b ≡ true → a ≡ b
unfolding key_beq
key_beq_eq a b h = ground arith

pub key_beq_refl : (a : FlowKey) → key_beq a a ≡ true
unfolding key_beq
key_beq_refl a = ground arith

pub find-put_same :
    (k : FlowKey) (v : FlowVal) (m : KernelMap) → find_flow k (put_flow k v m) ≡ some v
unfolding find_flow put_flow
find-put_same k v [] = rw (key_beq_refl k) refl
find-put_same k v ((j, w) ∷ m) = ground (arith, find-put_same k v m)

pub find-put_other :
    (j k : FlowKey) (v : FlowVal) (m : KernelMap)
    → key_beq k j ≡ false
    → find_flow j (put_flow k v m) ≡ find_flow j m
unfolding find_flow put_flow
find-put_other j k v [] h = rw h refl
find-put_other j k v ((i, w) ∷ m) h = elim (Bool-cases (key_beq i k)) [
  | inl at ↦ let e : i ≡ k = key_beq_eq i k at in rw at (rw e (rw h refl))
  | inr past ↦ rw past (ground (arith, find-put_other j k v m h))
]

-- A packet that comes in or goes out, with the time at which its program reads the clock and what an
-- update for it evicts, or keys that the sensor deletes.
pub data Event : Type 0 where
  came_in : ℕ → List FlowKey → Packet → Event
  went_out : ℕ → Packet → Event
  deleted : List FlowKey → Event

unfoldable pub count_event : Event → KernelMap → KernelMap
count_event (came_in now evicted p) m = audit_ingress now evicted p m
count_event (went_out now p) m = audit_egress now p m
count_event (deleted keys) m = delete_keys keys m

unfoldable pub count_events : List Event → KernelMap → KernelMap
count_events [] m = m
count_events (e ∷ es) m = count_events es (count_event e m)

-- The flags of a packet of the flow.
flags_if : FlowKey → Option (FlowKey × Flags) → Option Flags
flags_if k none = none
flags_if k (some (j, f)) = if key_beq j k then some f else none

unfoldable pub flags_in : FlowKey → Event → Option Flags
unfolding flags_if
flags_in k (came_in now evicted p) = flags_if k (key_from_packet false p.bytes)
flags_in k (went_out now p) = flags_if k (key_from_packet true p.bytes)
flags_in k (deleted keys) = none

-- The event takes the entry of the key away, or may do so.
abbrev pub drops : FlowKey → Event → Bool
drops k (came_in now evicted p) = any_key k evicted
drops k (went_out now p) = false
drops k (deleted keys) = any_key k keys

find-delete_key :
    (k j : FlowKey) (m : KernelMap)
    → key_beq k j ≡ false
    → find_flow k (delete_key j m) ≡ find_flow k m
unfolding find_flow delete_key
find-delete_key k j [] differ = refl
find-delete_key k j ((i, v) ∷ m) differ = elim (Bool-cases (key_beq i j)) [
  | inr kept ↦ ground (arith, find-delete_key k j m differ)
  | inl gone ↦
      let same : i ≡ j = key_beq_eq i j gone in
      elim (Bool-cases (key_beq i k)) [
        | inl hit ↦
            let named : i ≡ k = key_beq_eq i k hit in
            let bad : key_beq k j ≡ true = (rw (sym named) gone) in absurd (ground arith)
        | inr miss ↦ rw (gone, miss) (find-delete_key k j m differ)
      ]
]

pub find-delete_keys :
    (k : FlowKey) (ks : List FlowKey) (m : KernelMap)
    → any_key k ks ≡ false
    → find_flow k (delete_keys ks m) ≡ find_flow k m
unfolding delete_keys
find-delete_keys k [] m spared = refl
find-delete_keys k (j ∷ js) m spared =
    find-delete_keys k js (delete_key j m) (ground arith) ∙ find-delete_key k j m (ground arith)

-- What the event does to the entry of the flow.
abbrev pub after_in : ℕ → ℕ → FlowKey → Option Flags → Option FlowVal → Option FlowVal
after_in now len k none found = found
after_in now len k (some f) found = some (ingress_value now len k f found)

abbrev pub after_out : ℕ → ℕ → Option Flags → Option FlowVal → Option FlowVal
after_out now len none found = found
after_out now len (some f) none = none
after_out now len (some f) (some v) = some (count_rx now len f v)

-- What a packet that comes in leaves in the map, apart from what it may evict.
ingress-own :
    (k : FlowKey) (now len : ℕ) (evicted : List FlowKey) (f : Flags) (found : Option FlowVal)
    (m : KernelMap)
    → find_flow k (store_ingress now len evicted k f found m)
      ≡ some (ingress_value now len k f found)
unfolding store_ingress update_flow
ingress-own k now len evicted f found m = elim (Bool-cases (is_none found || is_new_tcp k f)) [
  | inl updates ↦ rw updates (find-put_same k _ (delete_keys evicted m))
  | inr writes ↦ rw writes (find-put_same k _ m)
]

ingress-other :
    (k j : FlowKey) (now len : ℕ) (evicted : List FlowKey) (f : Flags) (found : Option FlowVal)
    (m : KernelMap)
    → key_beq j k ≡ false
    → any_key k evicted ≡ false
    → find_flow k (store_ingress now len evicted j f found m) ≡ find_flow k m
unfolding store_ingress update_flow
ingress-other k j now len evicted f found m miss spared =
    elim (Bool-cases (is_none found || is_new_tcp j f)) [
      | inl updates ↦
          rw updates (
            find-put_other k j _ (delete_keys evicted m) miss ∙ find-delete_keys k evicted m spared)
      | inr writes ↦ rw writes (find-put_other k j _ m miss)
    ]

ingress-find :
    (k : FlowKey) (now len : ℕ) (evicted : List FlowKey) (r : Option (FlowKey × Flags))
    (m : KernelMap)
    → any_key k evicted ≡ false
    → find_flow k (on_ingress now len evicted r m)
      ≡ after_in now len k (flags_if k r) (find_flow k m)
unfolding on_ingress flags_if
ingress-find k now len evicted none m spared = refl
ingress-find k now len evicted (some (j, f)) m spared = elim (Bool-cases (key_beq j k)) [
  | inl hit ↦
      let e : j ≡ k = key_beq_eq j k hit in
      rw hit (rw e (ingress-own k now len evicted f (find_flow k m) m))
  | inr miss ↦ rw miss (ingress-other k j now len evicted f (find_flow j m) m miss spared)
]

ingress-starts :
    (k : FlowKey) (now len : ℕ) (evicted : List FlowKey) (r : Option (FlowKey × Flags)) (f : Flags)
    (m : KernelMap)
    → flags_if k r ≡ some f
    → find_flow k (on_ingress now len evicted r m)
      ≡ some (ingress_value now len k f (find_flow k m))
unfolding on_ingress flags_if
ingress-starts k now len evicted none f m mine = absurd (ground arith)
ingress-starts k now len evicted (some (j, g)) f m mine = elim (Bool-cases (key_beq j k)) [
  | inl hit ↦
      let e : j ≡ k = key_beq_eq j k hit in
      let same : g ≡ f = ground arith in
      rw e (rw same (ingress-own k now len evicted f (find_flow k m) m))
  | inr miss ↦ absurd (ground arith)
]

egress-find :
    (k : FlowKey) (now len : ℕ) (r : Option (FlowKey × Flags)) (m : KernelMap)
    → find_flow k (on_egress now len r m) ≡ after_out now len (flags_if k r) (find_flow k m)
unfolding on_egress flags_if
egress-find k now len none m = refl
egress-find k now len (some (j, f)) m = elim (Bool-cases (key_beq j k)) [
  | inl hit ↦
      let e : j ≡ k = key_beq_eq j k hit in
      rw hit (
        rw e (elim (Option-cases (find_flow k m)) [
          | inl nothing ↦ rw (on_egress, nothing) nothing
          | inr (v, found) ↦ rw (on_egress, found) (find-put_same k (count_rx now len f v) m)
        ]))
  | inr miss ↦ rw miss (elim (Option-cases (find_flow j m)) [
    | inl nothing ↦ rw (on_egress, nothing) refl
    | inr (v, found) ↦ rw (on_egress, found) (find-put_other k j _ m miss)
  ])
]

pub came_in-find :
    (k : FlowKey) (now : ℕ) (evicted : List FlowKey) (p : Packet) (m : KernelMap)
    → any_key k evicted ≡ false
    → find_flow k (count_event (came_in now evicted p) m)
      ≡ after_in now p.len k (flags_in k (came_in now evicted p)) (find_flow k m)
unfolding count_event audit_ingress flags_in
came_in-find k now evicted p m spared =
    ingress-find k now p.len evicted (key_from_packet false p.bytes) m spared

-- Whatever the update for it evicts, the packet has an entry.
pub came_in-starts :
    (k : FlowKey) (now : ℕ) (evicted : List FlowKey) (p : Packet) (f : Flags) (m : KernelMap)
    → flags_in k (came_in now evicted p) ≡ some f
    → find_flow k (count_event (came_in now evicted p) m)
      ≡ some (ingress_value now p.len k f (find_flow k m))
unfolding count_event audit_ingress flags_in
came_in-starts k now evicted p f m mine =
    ingress-starts k now p.len evicted (key_from_packet false p.bytes) f m mine

pub went_out-find :
    (k : FlowKey) (now : ℕ) (p : Packet) (m : KernelMap)
    → find_flow k (count_event (went_out now p) m)
      ≡ after_out now p.len (flags_in k (went_out now p)) (find_flow k m)
unfolding count_event audit_egress flags_in
went_out-find k now p m = egress-find k now p.len (key_from_packet true p.bytes) m
