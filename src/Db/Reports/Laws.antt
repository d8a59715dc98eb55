-- ===== src/Db/Reports/Laws.antt =====
-- The groups of TopResources24h and HourlyFlows24h of internal/db/db.go.
pub mod Hours
pub mod Top
pub mod Tables
use net_bird_audit.Prelude.{
  ℕ, ◌+◌, ◌^◌, Bool, true, false, List, [], ◌∷◌, Option, none, some, keep, map, length, count, In,
  All, ltb, ◌≡◌, refl, sym, ap, ◌∙◌, ◌⊎◌, inl, inr, arith, Bool-cases, Option-cases,
}
use net_bird_audit.Db.Tables.{Db, FlowRow}
use net_bird_audit.Db.Monad.{ok}
use net_bird_audit.Db.Query.Sorting.{IsSorted}
use net_bird_audit.Db.Query.Grouping.{sum_of, Apart, distinct}
use net_bird_audit.Db.Reports.{
  Summary, plus, row_bytes, sum_bytes, all_some, or_error, summarize, summaries,
}

-- The bytes of a flow in both directions.
abbrev pub volume : FlowRow → ℕ
volume r = r.bytes_tx + r.bytes_rx

sum_bytes-sum : (rows : List FlowRow) (n : ℕ) → sum_bytes rows ≡ some n → n ≡ sum_of volume rows
unfolding sum_bytes plus row_bytes
sum_bytes-sum [] n h = ground arith
sum_bytes-sum (r ∷ rows) n h = elim (Option-cases (sum_bytes rows)) [
  | inl bad ↦ absurd (ground arith)
  | inr (m, good) ↦ ground (arith, sum_bytes-sum rows m good)
]

pub length-sum : {A : Type 0} (rows : List A) → length rows ≡ sum_of (λ r. 1) rows
length-sum [] = refl
length-sum (r ∷ rows) = omega (arith, length-sum rows)

pub length-keep : {A : Type 0} (p : A → Bool) (rows : List A) → length (keep p rows) ≡ count p rows
length-keep p [] = refl
length-keep p (r ∷ rows) = ground (arith, length-keep p rows)

pub or_error-ok :
    {A : Type 0} (found : Option A) (s : Db) (a : A) → (or_error found s).0 ≡ ok a → found ≡ some a
unfolding or_error
or_error-ok none s a h = absurd (ground arith)
or_error-ok (some b) s a h = ground arith

-- The lists that are read without an error, element by element.
module _ {A B : Type 0} (f : A → Option B) where
  all_some_cons :
      (q : A) (qs : List A) (ys : List B)
      → all_some (map f (q ∷ qs)) ≡ some ys
      → (y : B) × (zs : List B) × (f q ≡ some y) × (all_some (map f qs) ≡ some zs) × (ys ≡ y ∷ zs)
  unfolding all_some
  all_some_cons q qs ys h = elim (Option-cases (f q)) [
    | inl bad ↦ absurd (ground arith)
    | inr (y, good) ↦ elim (Option-cases (all_some (map f qs))) [
      | inl bad ↦ absurd (ground arith)
      | inr (zs, rest) ↦ (y, zs, good, rest, ground arith)
    ]
  ]

  all_some_nil : (ys : List B) → all_some (map f []) ≡ some ys → ys ≡ []
  unfolding all_some
  all_some_nil ys h = ground arith

  pub all_some-In :
      (qs : List A) (ys : List B) (y : B)
      → all_some (map f qs) ≡ some ys
      → In y ys
      → (q : A) × In q qs × (f q ≡ some y)
  all_some-In [] ys y h m = absurd (rw (all_some_nil ys h) at m)
  all_some-In (q ∷ qs) ys y h m =
      let (z, zs, head, rest, e) = all_some_cons q qs ys h in
      elim (rw e at m) [
        | inl here ↦ (q, inl refl, head ∙ ap some (sym here))
        | inr later ↦ let (p, mp, ep) = all_some-In qs zs y rest later in (p, inr mp, ep)
      ]

  pub In-all_some :
      (qs : List A) (ys : List B) (q : A)
      → all_some (map f qs) ≡ some ys
      → In q qs
      → (y : B) × In y ys × (f q ≡ some y)
  In-all_some [] ys q h m = absurd m
  In-all_some (p ∷ qs) ys q h m =
      let (z, zs, head, rest, e) = all_some_cons p qs ys h in
      elim m [
        | inl here ↦ (z, rw e (inl refl), rw here head)
        | inr later ↦ let (y, my, ey) = In-all_some qs zs q rest later in (y, rw e (inr my), ey)
      ]

  pub sum-all_some :
      (m : A → ℕ) (n : B → ℕ)
      → ((q : A) (y : B) → f q ≡ some y → n y ≡ m q)
      → (qs : List A) (ys : List B) → all_some (map f qs) ≡ some ys
      → sum_of n ys ≡ sum_of m qs
  sum-all_some m n same [] ys h = rw (all_some_nil ys h) refl
  sum-all_some m n same (q ∷ qs) ys h =
      let (z, zs, head, rest, e) = all_some_cons q qs ys h in
      rw e (omega (arith, same q z head, sum-all_some m n same qs zs rest))

  pub length-all_some :
      (qs : List A) (ys : List B) → all_some (map f qs) ≡ some ys → length ys ≡ length qs
  length-all_some qs ys h =
      rw (length-sum, length-sum) (sum-all_some (λ q. 1) (λ y. 1) (λ q y e. refl) qs ys h)

  -- Relations carry over: `P` of the inputs implies `Q` of the outputs.
  module _ (P : A → A → Type 0) (Q : B → B → Type 0)
      (carries : (p q : A) (x y : B) → f p ≡ some x → f q ≡ some y → P p q → Q x y) where
    All-all_some :
        (p : A) (x : B) (qs : List A) (ys : List B)
        → f p ≡ some x
        → all_some (map f qs) ≡ some ys
        → All (P p) qs
        → All (Q x) ys
    All-all_some p x [] ys e h all_p = rw (all_some_nil ys h) tt
    All-all_some p x (q ∷ qs) ys e h all_p =
        let (z, zs, head, rest, e') = all_some_cons q qs ys h in
        rw e' (carries p q x z e head all_p.0, All-all_some p x qs zs e rest all_p.1)

-- Orders of the outputs, and outputs that differ.
module _ {A B : Type 0} (f : A → Option B) where
  pub IsSorted-all_some :
      (le : A → A → Bool) (le' : B → B → Bool)
      → ((p q : A) (x y : B) → f p ≡ some x → f q ≡ some y → le p q ≡ true → le' x y ≡ true)
      → (qs : List A) (ys : List B) → all_some (map f qs) ≡ some ys
      → IsSorted le qs
      → IsSorted le' ys
  IsSorted-all_some le le' carries [] ys h s = rw (all_some_nil f ys h) tt
  IsSorted-all_some le le' carries (q ∷ qs) ys h s =
      let (z, zs, head, rest, e) = all_some_cons f q qs ys h in
      rw e (
        All-all_some f (λ a b. le a b ≡ true) (λ a b. le' a b ≡ true) carries q z qs zs head rest
            s.0,
        IsSorted-all_some le le' carries qs zs rest s.1,
      )

  pub Apart-all_some :
      (eq : A → A → Bool) (eq' : B → B → Bool)
      → ((p q : A) (x y : B) → f p ≡ some x → f q ≡ some y → eq p q ≡ false → eq' x y ≡ false)
      → (qs : List A) (ys : List B) → all_some (map f qs) ≡ some ys
      → Apart eq qs
      → Apart eq' ys
  Apart-all_some eq eq' carries [] ys h s = rw (all_some_nil f ys h) tt
  Apart-all_some eq eq' carries (q ∷ qs) ys h s =
      let (z, zs, head, rest, e) = all_some_cons f q qs ys h in
      rw e (
        All-all_some f (λ a b. eq a b ≡ false) (λ a b. eq' a b ≡ false) carries q z qs zs head rest
            s.0,
        Apart-all_some eq eq' carries qs zs rest s.1,
      )

-- The group of the rows that count as its first one.
pub record Group (eq : FlowRow → FlowRow → Bool) (rows : List FlowRow) (g : Summary) : Type 0 where
  pub flows : g.flows ≡ count (λ r. eq g.first r) rows
  pub bytes : g.bytes ≡ sum_of volume (keep (λ r. eq g.first r) rows)

pub summarize-Group :
    (eq : FlowRow → FlowRow → Bool) (rows : List FlowRow) (q : FlowRow) (g : Summary)
    → summarize eq rows q ≡ some g
    → (g.first ≡ q) × Group eq rows g
unfolding summarize
summarize-Group eq rows q g h = elim (Option-cases (sum_bytes (keep (λ r. eq q r) rows))) [
  | inl bad ↦ absurd (ground arith)
  | inr (n, good) ↦
      let e : g ≡ record { first = q; flows = length (keep (λ r. eq q r) rows); bytes = n } =
        ground arith in
      rw e (
        refl,
        record {
          flows = length-keep (λ r. eq q r) rows;
          bytes = sum_bytes-sum (keep (λ r. eq q r) rows) n good;
        },
      )
]
