-- ===== src/Bpf/Packet/Frames.antt =====
-- Packets that are built from their fields, as parse_ipv4 of sensor/bpf/audit.bpf.c reads them.
use net_bird_audit.Prelude.{
  ℕ, suc, ◌+◌, ◌*◌, ◌/◌, ◌%◌, ◌^◌, ◌≤◌, false, List, [], ◌∷◌, ◌++◌, some, length, length-append,
  append_assoc, ◌==◌, nat_eq, ◌≡◌, refl, ◌∙◌, ap, sym, arith,
}
use net_bird_audit.Bpf.Packet.{byte, ip_offset, parse_ipv4}

-- Two and four bytes of a number in network order.
abbrev pub htons : ℕ → List ℕ → List ℕ
htons n rest = (n / 2 ^ 8) ∷ (n % 2 ^ 8) ∷ rest

abbrev pub htonl : ℕ → List ℕ → List ℕ
htonl n rest = htons (n / 2 ^ 16) (htons (n % 2 ^ 16) rest)

-- What stands in front of the IPv4 header: nothing, or an Ethernet header with its two addresses.
pub data Link : Type 0 where
  bare : Link
  ethernet : List ℕ → Link

abbrev pub link_bytes : Link → List ℕ
link_bytes bare = []
link_bytes (ethernet addresses) = addresses ++ 0x08 ∷ 0x00 ∷ []

-- What the key of a packet does not depend on: the link, the options, and fields of the IPv4 header.
-- The options have `words` words of four bytes.
pub record Other : Type 0 where
  pub link : Link
  pub words : ℕ
  pub options : List ℕ
  pub tos : ℕ
  pub total : ℕ
  pub id : ℕ
  pub fragment : ℕ
  pub ttl : ℕ
  pub checksum : ℕ

-- The two addresses have twelve bytes, and the first of them does not begin with the digit 4 in
-- base 16, which makes it look like an IPv4 header.
abbrev pub IsLink : Link → Type 0
IsLink bare = Unit
IsLink (ethernet addresses) = (length addresses ≡ 12) × ((byte 0 addresses / 16 == 4) ≡ false)

-- The header has room for ten words of options.
pub record IsFrame (o : Other) : Type 0 where
  pub link : IsLink o.link
  pub room : o.words ≤ 10
  pub options : length o.options ≡ o.words * 4

-- The IPv4 header without its options.
abbrev pub header_bytes : Other → ℕ → ℕ → ℕ → List ℕ
header_bytes o proto src dst =
    (0x45 + o.words)
    ∷ o.tos
    ∷ htons o.total (
        htons o.id (htons o.fragment (o.ttl ∷ proto ∷ htons o.checksum (htonl src (htonl dst [])))))

byte-skip : (xs ys : List ℕ) (i : ℕ) → byte (length xs + i) (xs ++ ys) ≡ byte i ys
unfolding byte
byte-skip [] ys i = let e : 0 + i ≡ i = omega arith in rw e refl
byte-skip (x ∷ xs) ys i =
    let e : length (x ∷ xs) + i ≡ suc (length xs + i) = omega arith in rw e (byte-skip xs ys i)

module _ (o : Other) (proto src dst : ℕ) (payload : List ℕ) where
  abbrev pub packet_bytes : List ℕ
  packet_bytes = link_bytes o.link ++ (header_bytes o proto src dst ++ (o.options ++ payload))

  -- Where the IPv4 header starts.
  abbrev pub start : ℕ
  start = length (link_bytes o.link)

  pub in_header :
      (i : ℕ)
      → byte (start + i) packet_bytes
        ≡ byte i (header_bytes o proto src dst ++ (o.options ++ payload))
  in_header i =
      byte-skip (link_bytes o.link) (header_bytes o proto src dst ++ (o.options ++ payload)) i

  -- Behind the header with its options stands the payload.
  pub in_payload :
      (i : ℕ) → IsFrame o → byte (start + (5 + o.words) * 4 + i) packet_bytes ≡ byte i payload
  in_payload i frame =
      let e : start + (5 + o.words) * 4 + i ≡ start + (20 + (length o.options + i)) =
        omega (arith, frame.options) in
      ap (λ (n : ℕ). byte n packet_bytes) e
      ∙ in_header (20 + (length o.options + i))
      ∙ byte-skip (header_bytes o proto src dst) (o.options ++ payload) (length o.options + i)
      ∙ byte-skip o.options payload i

  length-header_bytes : length (header_bytes o proto src dst) ≡ 20
  length-header_bytes = omega arith

  pub length-packet_bytes :
      IsFrame o → length packet_bytes ≡ start + (5 + o.words) * 4 + length payload
  length-packet_bytes frame = omega (
    arith,
    length-append (link_bytes o.link) (header_bytes o proto src dst ++ (o.options ++ payload)),
    length-append (header_bytes o proto src dst) (o.options ++ payload),
    length-header_bytes,
    length-append o.options payload,
    frame.options,
  )

  first_byte : byte start packet_bytes ≡ 0x45 + o.words
  unfolding byte
  first_byte =
      let e : start ≡ start + 0 = omega arith in ap (λ (n : ℕ). byte n packet_bytes) e ∙ in_header 0

byte_zero : (xs ys : List ℕ) → length xs ≡ 12 → byte 0 (xs ++ ys) ≡ byte 0 xs
unfolding byte
byte_zero [] ys h = absurd (omega (arith, h))
byte_zero (x ∷ xs) ys h = refl

byte_behind :
    (xs : List ℕ) (i n : ℕ) (ys : List ℕ) → length xs ≡ n → byte (n + i) (xs ++ ys) ≡ byte i ys
byte_behind xs i n ys h = rw (sym h) (byte-skip xs ys i)

-- The type of an Ethernet header.
ether_type :
    (xs rest : List ℕ)
    → length xs ≡ 12
    → (byte 12 (xs ++ 0x08 ∷ 0x00 ∷ rest) ≡ 0x08) × (byte 13 (xs ++ 0x08 ∷ 0x00 ∷ rest) ≡ 0x00)
unfolding byte
ether_type xs rest twelve = (
  byte_behind xs 0 12 (0x08 ∷ 0x00 ∷ rest) twelve,
  byte_behind xs 1 12 (0x08 ∷ 0x00 ∷ rest) twelve,
)

-- The header starts behind the link.
ip_offset-link_bytes :
    (l : Link) (rest : List ℕ)
    → IsLink l
    → byte 0 rest / 16 ≡ 4
    → ip_offset (link_bytes l ++ rest) ≡ some (length (link_bytes l))
unfolding ip_offset
ip_offset-link_bytes bare rest link four = ground (arith, four)
ip_offset-link_bytes (ethernet xs) rest (twelve, first) four =
    let tail = 0x08 ∷ 0x00 ∷ rest in
    let bs : (xs ++ 0x08 ∷ 0x00 ∷ []) ++ rest ≡ xs ++ tail =
      append_assoc xs (0x08 ∷ 0x00 ∷ []) rest in
    let front : byte 0 (xs ++ tail) ≡ byte 0 xs = byte_zero xs tail twelve in
    let (high, low) = ether_type xs rest twelve in
    let long : length (xs ++ tail) ≡ 14 + length rest =
      omega (arith, length-append xs tail, twelve) in
    let size : length (xs ++ 0x08 ∷ 0x00 ∷ []) ≡ 14 =
      omega (arith, length-append xs (0x08 ∷ 0x00 ∷ []), twelve) in
    rw (bs, size, front, first, high, low, long) (ground arith)

four_first :
    (o : Other) (proto src dst : ℕ) (payload : List ℕ)
    → IsFrame o
    → byte 0 (header_bytes o proto src dst ++ (o.options ++ payload)) / 16 ≡ 4
unfolding byte
four_first o proto src dst payload frame = omega (arith, frame.room)

-- The packet has an IPv4 header behind its link, with its length in words.
pub parse_ipv4-packet_bytes :
    (o : Other) (proto src dst : ℕ) (payload : List ℕ)
    → IsFrame o
    → parse_ipv4 (packet_bytes o proto src dst payload)
      ≡ some (record { off = start o proto src dst payload; ihl = 5 + o.words })
unfolding parse_ipv4
parse_ipv4-packet_bytes o proto src dst payload frame =
    let bs = packet_bytes o proto src dst payload in
    let first : byte (start o proto src dst payload) bs ≡ 0x45 + o.words =
      first_byte o proto src dst payload in
    let long = length-packet_bytes o proto src dst payload frame in
    let found =
      ip_offset-link_bytes o.link (header_bytes o proto src dst ++ (o.options ++ payload))
        frame.link (four_first o proto src dst payload frame) in
    rw (parse_ipv4, found, first, long) (ground (arith, frame.room))
