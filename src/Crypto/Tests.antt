-- ===== src/Crypto/Tests.antt =====
-- Published test vectors.
use net_bird_audit.Prelude.{◌≡◌, refl, codes, some}
use net_bird_audit.Crypto.Base32.{encode, decode}
use net_bird_audit.Crypto.Hex.{hex}
use net_bird_audit.Crypto.Sha1.{sha1}
use net_bird_audit.Crypto.Hmac.{hmac_sha1}

sha1_abc : hex (sha1 (codes "abc")) ≡ codes "a9993e364706816aba3e25717850c26c9cd0d89d"
unfolding sha1 hex
sha1_abc = refl

hmac_jefe :
    hex (hmac_sha1 (codes "Jefe") (codes "what do ya want for nothing?"))
    ≡ codes "effcdf6ae5eb2fa2d27416d5f184df9c259a7c79"
unfolding hmac_sha1 hex
hmac_jefe = refl

base32_foobar : encode (codes "foobar") ≡ codes "MZXW6YTBOI"
unfolding encode
base32_foobar = refl

base32_back : decode (codes "MZXW6YTBOI") ≡ some (codes "foobar")
unfolding decode
base32_back = refl
