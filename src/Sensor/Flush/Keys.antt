-- ===== src/Sensor/Flush/Keys.antt =====
-- The flow key tells flows apart.
use net_bird_audit.Prelude.{
  ℕ, ◌^◌, ◌<◌, ◌≡◌, ◌≢◌, refl, sym, ap, ◌∙◌, Text, codes, true, false, [], ◌∷◌, ◌++◌, nat_eq, ◌==◌,
  append_assoc, arith, Bool-cases, inl, inr,
}
use net_bird_audit.Text.Decimal.{print}
use net_bird_audit.Text.Decimal.Scan.{starts_digit, is_digit, starts_digit-print}
use net_bird_audit.Text.Decimal.Cancel.{print_cancel, print-injective}
use net_bird_audit.Netip.{v4, print_addr, print_addr_cancel}
use net_bird_audit.Sensor.Types.{FlowKey, FlowVal, key_beq}
use net_bird_audit.Sensor.Flush.{proto_name, flow_text}

tail_of : Text → Text
tail_of [] = []
tail_of (c ∷ s) = s

head_of : Text → ℕ
head_of [] = 0
head_of (c ∷ s) = c

-- A printed number does not start like a name.
not_printed : (n c : ℕ) (s t : Text) → is_digit c ≡ false → print n ++ s ≡ c ∷ t → ⊥
unfolding starts_digit
not_printed n c s t h e =
    let d : starts_digit (print n ++ s) ≡ true = starts_digit-print n s in
    let f : starts_digit (print n ++ s) ≡ starts_digit (c ∷ t) =
      ap (λ (u : Text). starts_digit u) e in
    cc

apart : (a b : ℕ) (s t : Text) → a ≢ b → a ∷ s ≡ b ∷ t → ⊥
unfolding head_of
apart a b s t h e = h (ap head_of e)

-- The three kinds of names.
data Named (p : ℕ) : Type 0 where
  tcp : p ≡ 6 → proto_name p ≡ codes "tcp" → Named p
  udp : p ≡ 17 → proto_name p ≡ codes "udp" → Named p
  number : proto_name p ≡ print p → Named p

named : (p : ℕ) → Named p
unfolding proto_name
named p = elim (Bool-cases (p == 6)) [
  | inl six ↦ tcp (ground arith) (rw six refl)
  | inr a ↦ elim (Bool-cases (p == 17)) [
    | inl seventeen ↦ udp (ground arith) (rw (a, seventeen) refl)
    | inr b ↦ number (rw (a, b) refl)
  ]
]

after_three : Text → Text
after_three s = tail_of (tail_of (tail_of s))

module _ (p q : ℕ) (s t : Text) (es : starts_digit s ≡ false) (et : starts_digit t ≡ false) where
  proto_cancel : Named p → Named q → proto_name p ++ s ≡ proto_name q ++ t → (p ≡ q) × (s ≡ t)
  unfolding is_digit after_three tail_of
  proto_cancel (tcp a n) (tcp b m) e = (a ∙ sym b, ap after_three (rw (n, m) at e))
  proto_cancel (udp a n) (udp b m) e = (a ∙ sym b, ap after_three (rw (n, m) at e))
  proto_cancel (number n) (number m) e = print_cancel p q s t es et (rw (n, m) at e)
  proto_cancel (tcp a n) (udp b m) e =
      absurd (apart b't' b'u' _ _ (λ h. omega (arith, h)) (rw (n, m) at e))
  proto_cancel (udp a n) (tcp b m) e =
      absurd (apart b'u' b't' _ _ (λ h. omega (arith, h)) (rw (n, m) at e))
  proto_cancel (tcp a n) (number m) e = absurd (not_printed q b't' t _ refl (sym (rw (n, m) at e)))
  proto_cancel (udp a n) (number m) e = absurd (not_printed q b'u' t _ refl (sym (rw (n, m) at e)))
  proto_cancel (number n) (tcp b m) e = absurd (not_printed p b't' s _ refl (rw (n, m) at e))
  proto_cancel (number n) (udp b m) e = absurd (not_printed p b'u' s _ refl (rw (n, m) at e))

module _ (k : FlowKey) (v : FlowVal) where
  -- What follows the protocol, the second port, the second address, the first port and the first
  -- address.
  abbrev rest_start : Text
  rest_start = codes "@" ++ print v.start_ns

  abbrev rest_proto : Text
  rest_proto = codes "/" ++ proto_name k.proto ++ rest_start

  abbrev rest_dst_port : Text
  rest_dst_port = codes ":" ++ print k.dst_port ++ rest_proto

  abbrev rest_dst : Text
  rest_dst = codes ">" ++ print_addr (v4 k.dst_ip) ++ rest_dst_port

  abbrev rest_src_port : Text
  rest_src_port = codes ":" ++ print k.src_port ++ rest_dst

  flow_text-parts : flow_text k v ≡ print_addr (v4 k.src_ip) ++ rest_src_port
  unfolding flow_text
  flow_text-parts = simp append_assoc

-- Two entries with IPv4 addresses have the same flow key only if they have the same addresses,
-- ports, protocol and start: reports of different flows are never taken for one another.
pub flow_text-injective :
    (k j : FlowKey) (v w : FlowVal)
    → k.src_ip < 2 ^ 32
    → j.src_ip < 2 ^ 32
    → k.dst_ip < 2 ^ 32
    → j.dst_ip < 2 ^ 32
    → flow_text k v ≡ flow_text j w
    → (key_beq k j ≡ true) × (v.start_ns ≡ w.start_ns)
unfolding tail_of starts_digit is_digit key_beq
flow_text-injective k j v w ks js kd jd e =
    let (src, e1) =
      print_addr_cancel k.src_ip j.src_ip (rest_src_port k v) (rest_src_port j w) ks js refl refl
        (sym (flow_text-parts k v) ∙ e ∙ flow_text-parts j w) in
    let (sport, e2) =
      print_cancel k.src_port j.src_port (rest_dst k v) (rest_dst j w) refl refl (ap tail_of e1) in
    let (dst, e3) =
      print_addr_cancel k.dst_ip j.dst_ip (rest_dst_port k v) (rest_dst_port j w) kd jd refl refl
        (ap tail_of e2) in
    let (dport, e4) =
      print_cancel k.dst_port j.dst_port (rest_proto k v) (rest_proto j w) refl refl
        (ap tail_of e3) in
    let (proto, e5) =
      proto_cancel k.proto j.proto (rest_start k v) (rest_start j w) refl refl (named k.proto)
        (named j.proto) (ap tail_of e4) in
    (ground arith, print-injective v.start_ns w.start_ns (ap tail_of e5))
