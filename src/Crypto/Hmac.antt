-- ===== src/Crypto/Hmac.antt =====
-- HMAC with SHA-1 (crypto/hmac).
use Prim.Native.Nat.{bit_xor}
use net_bird_audit.Prelude.{
  ℕ, zero, suc, ◌-◌, [], ◌∷◌, ◌++◌, Text, ltb, if◌then◌else◌, length, map, ◌≡◌,
}
use net_bird_audit.Crypto.Sha1.{sha1, length-sha1}

zeros : ℕ → Text
zeros zero = []
zeros (suc n) = 0 ∷ zeros n

-- The key filled up to a block of 64 bytes; a longer key is hashed first.
block_key : Text → Text
block_key key = let k = if ltb 64 (length key) then sha1 key else key in k ++ zeros (64 - length k)

unfoldable pub hmac_sha1 : Text → Text → Text
unfolding zeros block_key sha1
hmac_sha1 key message = sha1 (
    map (λ b. bit_xor b 0x5c) (block_key key)
    ++ sha1 (map (λ b. bit_xor b 0x36) (block_key key) ++ message))

pub length-hmac_sha1 : (key message : Text) → length (hmac_sha1 key message) ≡ 20
unfolding hmac_sha1
length-hmac_sha1 key message = length-sha1 (
    map (λ b. bit_xor b 0x5c) (block_key key)
    ++ sha1 (map (λ b. bit_xor b 0x36) (block_key key) ++ message))
