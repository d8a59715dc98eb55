-- ===== src/Db/Collation.antt =====
-- How MySQL compares text columns: a parameter, since it is the server's collation. It orders
-- texts totally, and it may count two texts as one, as most collations do with letter case.
use net_bird_audit.Prelude.{
  Text, Bool, true, false, ◌&&◌, ◌||◌, ◌≡◌, refl, arith, ◌==◌, text_eq, nat_eq, [], ◌∷◌, ltb,
  if◌then◌else◌,
}

pub record Collation : Type 0 where
  pub le : Text → Text → Bool
  pub total : (a b : Text) → (le a b || le b a) ≡ true
  pub trans : (a b c : Text) → le a b ≡ true → le b c ≡ true → le a c ≡ true
  -- The subject matches the pattern of LIKE.
  pub like : Text → Text → Bool

module _ ⦃c : Collation⦄ where
  -- a = b
  unfoldable pub same : Text → Text → Bool
  same a b = c.le a b && c.le b a

  -- ORDER BY: a comes no later than b
  unfoldable pub le_text : Text → Text → Bool
  le_text a b = c.le a b

  unfoldable pub like_text : Text → Text → Bool
  like_text a pattern_text = c.like a pattern_text

  pub same_refl : (a : Text) → same a a ≡ true
  unfolding same
  same_refl a = ground (arith, c.total a a)

  pub same-sym : (a b : Text) → same a b ≡ same b a
  unfolding same
  same-sym a b = ground arith

  pub same_trans : (a b d : Text) → same a b ≡ true → same b d ≡ true → same a d ≡ true
  unfolding same
  same_trans a b d p q = ground (arith, c.trans a b d, c.trans d b a)

  -- Texts that are one to the collation are told apart from others in the same way.
  pub same-congr : (a b d : Text) → same a b ≡ true → same a d ≡ same b d
  same-congr a b d p = ground (arith, same_trans a b d, same_trans b a d, same-sym a b)

  pub same_of_eq : (a b : Text) → a ≡ b → same a b ≡ true
  same_of_eq a b e = ground (arith, same_refl a)

-- The binary collation: byte by byte. Its LIKE takes the pattern literally.
unfoldable pub byte_le : Text → Text → Bool
byte_le [] b = true
byte_le (x ∷ a) [] = false
byte_le (x ∷ a) (y ∷ b) = if ltb x y then true else if x == y then byte_le a b else false

pub byte_le-total : (a b : Text) → (byte_le a b || byte_le b a) ≡ true
unfolding byte_le
byte_le-total [] b = refl
byte_le-total (x ∷ a) [] = refl
byte_le-total (x ∷ a) (y ∷ b) = ground (arith, byte_le-total a b)

pub byte_le_trans : (a b d : Text) → byte_le a b ≡ true → byte_le b d ≡ true → byte_le a d ≡ true
unfolding byte_le
byte_le_trans [] b d p q = refl
byte_le_trans (x ∷ a) [] d p q = cc
byte_le_trans (x ∷ a) (y ∷ b) [] p q = cc
byte_le_trans (x ∷ a) (y ∷ b) (z ∷ d) p q = ground (arith, byte_le_trans a b d)

abbrev pub binary : Collation
binary = record { le = byte_le; total = byte_le-total; trans = byte_le_trans; like = λ a p. a == p }
