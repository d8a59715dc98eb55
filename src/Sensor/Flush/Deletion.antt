-- ===== src/Sensor/Flush/Deletion.antt =====
-- The deletions of flush, and the times of its events, in internal/sensor/sensor.go.
use net_bird_audit.Prelude.{
  true, false, ◌==◌, nat_eq, ℕ, Bool, not, List, [], ◌∷◌, All, keep, ◌≡◌, refl, inl, inr,
  Bool-cases,
}
use net_bird_audit.Time.{Time}
use net_bird_audit.Sensor.Types.{Config, FlowKey, FlowVal, key_beq}
use net_bird_audit.Sensor.Clock.{wall_from_mono}
use net_bird_audit.Sensor.Flush.{KernelMap, flow_text, is_ended, event_of, delete_key, delete_keys}

keep-All {κ} :
    {A : Type 0} (P : A → Type κ) (p : A → Bool) (xs : List A) → All P xs → All P (keep p xs)
keep-All P p [] h = tt
keep-All P p (x ∷ xs) h = elim (Bool-cases (p x)) [
  | inl kept ↦ rw kept (h.0, keep-All P p xs h.1)
  | inr gone ↦ rw gone (keep-All P p xs h.1)
]

pub delete_keys-All {κ} :
    (P : FlowKey × FlowVal → Type κ) (ks : List FlowKey) (m : KernelMap)
    → All P m
    → All P (delete_keys ks m)
unfolding delete_keys delete_key
delete_keys-All P [] m h = h
delete_keys-All P (k ∷ ks) m h =
    delete_keys-All P ks (delete_key k m)
      (keep-All P (λ (e : FlowKey × FlowVal). not (key_beq e.0 k)) m h)

-- The two times of an event.
pub event_times :
    (cfg : Config) (now : Time) (mn : ℕ) (k : FlowKey) (v : FlowVal)
    → ((event_of cfg now mn k v).started_at ≡ wall_from_mono v.start_ns mn now)
      × ((event_of cfg now mn k v).last_seen_at ≡ wall_from_mono v.last_ns mn now)
unfolding event_of
event_times cfg now mn k v = (refl, refl)

-- The counters of an event, its key, and that it is ended if its flow is.
pub event_counts :
    (cfg : Config) (now : Time) (mn : ℕ) (k : FlowKey) (v : FlowVal)
    → ((event_of cfg now mn k v).flow_key ≡ flow_text k v)
      × ((event_of cfg now mn k v).bytes_tx ≡ v.bytes_tx)
      × ((event_of cfg now mn k v).bytes_rx ≡ v.bytes_rx)
      × ((event_of cfg now mn k v).packets_tx ≡ v.packets_tx)
      × ((event_of cfg now mn k v).packets_rx ≡ v.packets_rx)
      × ((v.ended == 0) ≡ false → (event_of cfg now mn k v).ended ≡ true)
unfolding event_of is_ended
event_counts cfg now mn k v = (refl, refl, refl, refl, refl, λ h. rw h refl)
