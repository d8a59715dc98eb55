-- ===== src/Server/Csv/RoundTrip.antt =====
-- A reader of CSV files, and the writer that exportFlowsCSV of internal/server/server.go uses.
use net_bird_audit.Prelude.{
  ℕ, Text, Bool, true, false, List, [], ◌∷◌, ◌++◌, append_assoc, append-nil, ◌==◌, nat_eq, text_eq,
  ◌≡◌, ◌≢◌, refl, ap, ◌∙◌, arith, Bool-cases, inl, inr, All,
}
use net_bird_audit.Server.Csv.{
  has_special, needs_quotes, double_quotes, write_field, write_more, write_record, write_all,
}

-- Where the reader stands: at the start of a record or of a field, in a field without quotes, in
-- one with quotes, or behind a quote in it.
pub data Mode : Type 0 where
  record_start field_start bare quoted quote_seen : Mode

-- A byte in front of the first field.
push : ℕ → List (List Text) → List (List Text)
push c [] = ((c ∷ []) ∷ []) ∷ []
push c ([] ∷ rs) = ((c ∷ []) ∷ []) ∷ rs
push c ((f ∷ fs) ∷ rs) = ((c ∷ f) ∷ fs) ∷ rs

-- An empty field in front of the first one.
new_field : List (List Text) → List (List Text)
new_field [] = ([] ∷ []) ∷ []
new_field (r ∷ rs) = ([] ∷ r) ∷ rs

-- The records of a file: commas end fields, line feeds end records, and in quotes two quotes are one.
unfoldable pub read_csv : Mode → Text → List (List Text)
unfolding push new_field
read_csv record_start [] = []
read_csv _ [] = ([] ∷ []) ∷ []
read_csv quoted (c ∷ s) = elim (c == b'"') [
  | true ↦ read_csv quote_seen s
  | false ↦ push c (read_csv quoted s)
]
read_csv quote_seen (c ∷ s) = elim (c == b'"') [
  | true ↦ push c (read_csv quoted s)
  | false ↦ elim (c == b',') [
    | true ↦ new_field (read_csv field_start s)
    | false ↦ elim (c == 10) [
      | true ↦ ([] ∷ []) ∷ read_csv record_start s
      | false ↦ push c (read_csv bare s)
    ]
  ]
]
read_csv bare (c ∷ s) = elim (c == b',') [
  | true ↦ new_field (read_csv field_start s)
  | false ↦ elim (c == 10) [
    | true ↦ ([] ∷ []) ∷ read_csv record_start s
    | false ↦ push c (read_csv bare s)
  ]
]
read_csv _ (c ∷ s) = elim (c == b'"') [
  | true ↦ read_csv quoted s
  | false ↦ elim (c == b',') [
    | true ↦ new_field (read_csv field_start s)
    | false ↦ elim (c == 10) [
      | true ↦ ([] ∷ []) ∷ read_csv record_start s
      | false ↦ push c (read_csv bare s)
    ]
  ]
]

-- All bytes of a text in front of the first field.
push_all : Text → List (List Text) → List (List Text)
push_all [] rs = rs
push_all (c ∷ s) rs = push c (push_all s rs)

bare_field :
    (f rest : Text)
    → has_special f ≡ false
    → read_csv bare (f ++ rest) ≡ push_all f (read_csv bare rest)
unfolding read_csv push_all has_special
bare_field [] rest h = refl
bare_field (c ∷ f) rest h = ground (arith, bare_field f rest)

quoted_field :
    (f rest : Text)
    → read_csv quoted (double_quotes f ++ b'"' ∷ rest) ≡ push_all f (read_csv quote_seen rest)
unfolding read_csv push_all double_quotes
quoted_field [] rest = refl
quoted_field (c ∷ f) rest = elim (Bool-cases (c == b'"')) [
  | inl quote ↦ rw quote (ground (arith, quoted_field f rest))
  | inr other ↦ rw other (ground (arith, quoted_field f rest))
]

-- What ends a field: a comma or a line feed.
data EndsField : Text → Type 0 where
  comma : (s : Text) → EndsField (b',' ∷ s)
  line_feed : (s : Text) → EndsField (10 ∷ s)

quote_seen-bare : (rest : Text) → EndsField rest → read_csv quote_seen rest ≡ read_csv bare rest
unfolding read_csv
quote_seen-bare rest (comma s) = refl
quote_seen-bare rest (line_feed s) = refl

starts-bare :
    (rest : Text)
    → EndsField rest
    → (read_csv field_start rest ≡ read_csv bare rest)
      × (read_csv record_start rest ≡ read_csv bare rest)
unfolding read_csv
starts-bare rest (comma s) = (refl, refl)
starts-bare rest (line_feed s) = (refl, refl)

-- The start of a field or of a record.
abbrev starting : Bool → Mode
starting true = record_start
starting false = field_start

first_byte :
    (b : Bool) (c : ℕ) (f rest : Text)
    → has_special (c ∷ f) ≡ false
    → read_csv (starting b) (c ∷ f ++ rest) ≡ push_all (c ∷ f) (read_csv bare rest)
unfolding read_csv push_all has_special
first_byte true c f rest h = ground (arith, bare_field f rest)
first_byte false c f rest h = ground (arith, bare_field f rest)

unquoted_field :
    (b : Bool) (f rest : Text)
    → has_special f ≡ false
    → EndsField rest
    → read_csv (starting b) (f ++ rest) ≡ push_all f (read_csv bare rest)
unfolding push_all
unquoted_field true [] rest h e = (starts-bare rest e).1
unquoted_field false [] rest h e = (starts-bare rest e).0
unquoted_field true (c ∷ f) rest h e = first_byte true c f rest h
unquoted_field false (c ∷ f) rest h e = first_byte false c f rest h

quote_opens : (b : Bool) (s : Text) → read_csv (starting b) (b'"' ∷ s) ≡ read_csv quoted s
unfolding read_csv
quote_opens true s = refl
quote_opens false s = refl

needs_quotes-special : (f : Text) → needs_quotes f ≡ false → has_special f ≡ false
unfolding needs_quotes
needs_quotes-special f h = ground arith

written_field :
    (b : Bool) (f rest : Text)
    → EndsField rest
    → read_csv (starting b) (write_field f ++ rest) ≡ push_all f (read_csv bare rest)
unfolding write_field
written_field b f rest e = elim (Bool-cases (needs_quotes f)) [
  | inr plain ↦ rw plain (unquoted_field b f rest (needs_quotes-special f plain) e)
  | inl quotes ↦
      rw (quotes, append_assoc)
        (quote_opens b (double_quotes f ++ b'"' ∷ rest)
          ∙ quoted_field f rest
          ∙ ap (push_all f) (quote_seen-bare rest e))
]

push_all-cons :
    (f g : Text) (gs : List Text) (rs : List (List Text))
    → push_all f ((g ∷ gs) ∷ rs) ≡ ((f ++ g) ∷ gs) ∷ rs
unfolding push_all push
push_all-cons [] g gs rs = refl
push_all-cons (c ∷ f) g gs rs = rw (push_all-cons f g gs rs) refl

write_more-EndsField : (fs : List Text) (rest : Text) → EndsField (write_more fs ++ rest)
unfolding write_more
write_more-EndsField [] rest = line_feed rest
write_more-EndsField (g ∷ gs) rest = comma _

field_and_more :
    (b : Bool) (f : Text) (fs : List Text) (rest : Text)
    → read_csv bare (write_more fs ++ rest) ≡ ([] ∷ fs) ∷ read_csv record_start rest
    → read_csv (starting b) ((write_field f ++ write_more fs) ++ rest)
      ≡ (f ∷ fs) ∷ read_csv record_start rest
field_and_more b f fs rest h =
    ap (read_csv (starting b)) (append_assoc (write_field f) (write_more fs) rest)
    ∙ written_field b f (write_more fs ++ rest) (write_more-EndsField fs rest)
    ∙ ap (push_all f) h
    ∙ push_all-cons f [] fs (read_csv record_start rest)
    ∙ ap (λ g. (g ∷ fs) ∷ read_csv record_start rest) (append-nil f)

fields_behind :
    (fs : List Text) (rest : Text)
    → read_csv bare (write_more fs ++ rest) ≡ ([] ∷ fs) ∷ read_csv record_start rest
unfolding read_csv write_more new_field
fields_behind [] rest = refl
fields_behind (g ∷ gs) rest = ap new_field (field_and_more false g gs rest (fields_behind gs rest))

nothing_read : read_csv record_start [] ≡ []
unfolding read_csv
nothing_read = refl

-- A record has at least one field.
abbrev pub HasField : List Text → Type 0
HasField r = r ≢ []

-- Records of at least one field each are read back as they were written.
pub read_csv-write_all :
    (rs : List (List Text)) → All HasField rs → read_csv record_start (write_all rs) ≡ rs
unfolding write_all write_record
read_csv-write_all [] h = nothing_read
read_csv-write_all ([] ∷ rs) h = absurd (h.0 refl)
read_csv-write_all ((f ∷ fs) ∷ rs) h =
    field_and_more true f fs (write_all rs) (fields_behind fs (write_all rs))
    ∙ ap (λ more. (f ∷ fs) ∷ more) (read_csv-write_all rs h.1)
