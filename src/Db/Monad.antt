-- ===== src/Db/Monad.antt =====
-- Methods of `DB`: state passing over the tables, with Go's error as a value. A statement that the
-- server answers with an error changes nothing.
use net_bird_audit.Prelude.{Bool, true, false, List, [], ◌∷◌, ◌≡◌, refl, ◌⊎◌, inl, inr}
use net_bird_audit.Db.Tables.{Db}

-- `sql_error` is an error of the server, `no_rows` is sql.ErrNoRows, `duplicate` a violated key.
pub data DbError : Type 0 where
  sql_error no_rows duplicate not_an_ip bad_protocol : DbError

pub data Result {ℓ} (A : Type ℓ) : Type ℓ where
  ok : A → Result A
  err : DbError → Result A

abbrev pub M : Type 0 → Type 0
M A = Db → Result A × Db

abbrev pub continue : {A B : Type 0} → Result A → (A → M B) → M B
continue (ok a) f s = f a s
continue (err e) f s = (err e, s)

pub Result-cases : (r : Result (Unit {0})) → (r ≡ ok tt) ⊎ ((e : DbError) × (r ≡ err e))
Result-cases (ok tt) = inl refl
Result-cases (err e) = inr (e, refl)

infixl 5 ◌>>=◌ ◌>>◌
abbrev pub ◌>>=◌ : {A B : Type 0} → M A → (A → M B) → M B
◌>>=◌ m f s = let (r, s') = m s in continue r f s'

abbrev pub ◌>>◌ : {A B : Type 0} → M A → M B → M B
m >> k = m >>= λ _. k

abbrev pub pure : {A : Type 0} → A → M A
pure a s = (ok a, s)

abbrev pub fail : {A : Type 0} → DbError → M A
fail e s = (err e, s)

abbrev pub gets : {A : Type 0} → (Db → A) → M A
gets f s = (ok (f s), s)

abbrev pub modify : (Db → Db) → M (Unit {0})
modify f s = (ok tt, f s)

unfoldable pub answer : List Bool → Result (Unit {0})
answer [] = ok tt
answer (true ∷ rest) = ok tt
answer (false ∷ rest) = err sql_error

unfoldable pub answers_left : List Bool → List Bool
answers_left [] = []
answers_left (b ∷ rest) = rest

-- One statement is sent: its answer is the next one of `outcomes`.
unfoldable pub statement : M (Unit {0})
statement s = (answer s.outcomes, record s { outcomes = answers_left s.outcomes })

-- A method whose error the caller drops.
abbrev pub ignore_error : {A : Type 0} → M A → M (Unit {0})
ignore_error m s = (ok tt, (m s).1)
