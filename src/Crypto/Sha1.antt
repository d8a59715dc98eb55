-- ===== src/Crypto/Sha1.antt =====
-- SHA-1 (crypto/sha1) on lists of bytes.
use Prim.Native.Nat.{bit_and, bit_or, bit_xor}
use net_bird_audit.Prelude.{
  ℕ, zero, suc, ◌+◌, ◌-◌, ◌*◌, ◌/◌, ◌%◌, ◌^◌, List, [], ◌∷◌, ◌++◌, Text, ltb, if◌then◌else◌, length,
  ◌≡◌, refl,
}

abbrev word : ℕ → ℕ
word n = n % 2 ^ 32

rotl : ℕ → ℕ → ℕ
rotl k x = word (x * 2 ^ k) + x / 2 ^ (32 - k)

record Digest : Type 0 where
  a : ℕ
  b : ℕ
  c : ℕ
  d : ℕ
  e : ℕ

start : Digest
start = record { a = 0x67452301; b = 0xefcdab89; c = 0x98badcfe; d = 0x10325476; e = 0xc3d2e1f0 }

choose : ℕ → Digest → ℕ
choose t s =
    if ltb t 20
    then bit_or (bit_and s.b s.c) (bit_and (2 ^ 32 - 1 - s.b) s.d)
    else if ltb t 40
    then bit_xor s.b (bit_xor s.c s.d)
    else if ltb t 60
    then bit_or (bit_and s.b s.c) (bit_or (bit_and s.b s.d) (bit_and s.c s.d))
    else bit_xor s.b (bit_xor s.c s.d)

constant : ℕ → ℕ
constant t =
    if ltb t 20
    then 0x5a827999
    else if ltb t 40
    then 0x6ed9eba1
    else if ltb t 60
    then 0x8f1bbcdc
    else 0xca62c1d6

round : ℕ → ℕ → Digest → Digest
round t w s = record {
  a = word (rotl 5 s.a + choose t s + s.e + constant t + w);
  b = s.a;
  c = rotl 30 s.b;
  d = s.c;
  e = s.d;
}

-- The last sixteen words of the schedule, and the next word.
next_word : List ℕ → ℕ
next_word
      (w0 ∷ w1 ∷ w2 ∷ w3 ∷ w4 ∷ w5 ∷ w6 ∷ w7 ∷ w8 ∷ w9 ∷ w10 ∷ w11 ∷ w12 ∷ w13 ∷ w14 ∷ w15 ∷ []) =
    rotl 1 (bit_xor w13 (bit_xor w8 (bit_xor w2 w0)))
next_word ws = 0

rounds : ℕ → ℕ → List ℕ → Digest → Digest
rounds zero t ws s = s
rounds (suc left) t [] s = s
rounds (suc left) t (w ∷ ws) s = rounds left (t + 1) (ws ++ next_word (w ∷ ws) ∷ []) (round t w s)

add_digest : Digest → Digest → Digest
add_digest s r = record {
  a = word (s.a + r.a);
  b = word (s.b + r.b);
  c = word (s.c + r.c);
  d = word (s.d + r.d);
  e = word (s.e + r.e);
}

words : Text → List ℕ
words (p ∷ q ∷ r ∷ s ∷ rest) = (p * 2 ^ 24 + q * 2 ^ 16 + r * 2 ^ 8 + s) ∷ words rest
words rest = []

compress : Digest → List ℕ → Digest
compress s ws = add_digest s (rounds 80 0 ws s)

-- Sixteen words make a block.
blocks : List ℕ → Digest → Digest
blocks (w0 ∷ w1 ∷ w2 ∷ w3 ∷ w4 ∷ w5 ∷ w6 ∷ w7 ∷ w8 ∷ w9 ∷ w10 ∷ w11 ∷ w12 ∷ w13 ∷ w14 ∷ w15 ∷ rest)
      s =
    blocks rest (
      compress s
        (w0 ∷ w1 ∷ w2 ∷ w3 ∷ w4 ∷ w5 ∷ w6 ∷ w7 ∷ w8 ∷ w9 ∷ w10 ∷ w11 ∷ w12 ∷ w13 ∷ w14 ∷ w15 ∷ []))
blocks ws s = s

zeros : ℕ → Text
zeros zero = []
zeros (suc n) = 0 ∷ zeros n

-- The `k` low bytes of a number, the highest first.
unfoldable pub big_endian : ℕ → ℕ → Text
big_endian zero n = []
big_endian (suc k) n = (n / 2 ^ (8 * k)) % 256 ∷ big_endian k n

pad : Text → Text
pad s = s ++ 0x80 ∷ zeros ((119 - length s % 64) % 64) ++ big_endian 8 (8 * length s)

digest_bytes : Digest → Text
digest_bytes s =
    big_endian 4 s.a ++ big_endian 4 s.b ++ big_endian 4 s.c ++ big_endian 4 s.d ++ big_endian 4 s.e

unfoldable pub sha1 : Text → Text
unfolding rotl start choose constant round next_word rounds add_digest words compress blocks zeros
    big_endian pad digest_bytes
sha1 s = digest_bytes (blocks (words (pad s)) start)

length-digest_bytes : (s : Digest) → length (digest_bytes s) ≡ 20
unfolding digest_bytes big_endian
length-digest_bytes s = refl

-- A digest has twenty bytes.
pub length-sha1 : (s : Text) → length (sha1 s) ≡ 20
unfolding sha1
length-sha1 s = length-digest_bytes (blocks (words (pad s)) start)
