-- ===== src/Db/Names/Laws.antt =====
-- The lists of FlowUsers and FlowResources of internal/db/db.go.
use net_bird_audit.Prelude.{
  Text, Bool, true, false, not, ◌||◌, List, [], ◌∷◌, Option, none, some, keep, map, In, All, In-map,
  map-In, In-keep, keep-In, ◌==◌, text_eq, text_beq_iff, ◌≡◌, refl, ap, inl, inr, arith, Bool-cases,
}
use net_bird_audit.Db.Collation.{
  Collation, same, le_text, same_refl, same-sym, same_trans, same_of_eq,
}
use net_bird_audit.Db.Tables.{Db, FlowRow}
use net_bird_audit.Db.Query.Sorting.{IsSorted, sort_by-IsSorted, sort_by-In, In-sort_by}
use net_bird_audit.Db.Query.Grouping.{
  Apart, distinct, distinct-In, distinct-covers, distinct-Apart, sort_by-Apart,
}
use net_bird_audit.Db.Monad.{ok, statement}
use net_bird_audit.Db.Names.{
  scan_strings, is_blank, has_resource, same_label, le_label, labels, flow_resources,
}

module _ ⦃c : Collation⦄ where
  same_label_refl : (l : Option Text) → same_label l l ≡ true
  unfolding same_label
  same_label_refl none = refl
  same_label_refl (some t) = same_refl t

  same_label-sym : (l m : Option Text) → same_label l m ≡ same_label m l
  unfolding same_label
  same_label-sym none none = refl
  same_label-sym none (some u) = refl
  same_label-sym (some t) none = refl
  same_label-sym (some t) (some u) = same-sym t u

  same_label_trans :
      (l m n : Option Text) → same_label l m ≡ true → same_label m n ≡ true → same_label l n ≡ true
  unfolding same_label
  same_label_trans none none n p q = q
  same_label_trans none (some u) n p q = absurd (ground arith)
  same_label_trans (some t) none n p q = absurd (ground arith)
  same_label_trans (some t) (some u) none p q = absurd (ground arith)
  same_label_trans (some t) (some u) (some v) p q = same_trans t u v p q

  le_label-total : (l m : Option Text) → (le_label l m || le_label m l) ≡ true
  unfolding le_label le_text
  le_label-total none m = refl
  le_label-total (some t) none = refl
  le_label-total (some t) (some u) = c.total t u

  le_label_trans :
      (l m n : Option Text) → le_label l m ≡ true → le_label m n ≡ true → le_label l n ≡ true
  unfolding le_label le_text
  le_label_trans none m n p q = refl
  le_label_trans (some t) none n p q = absurd (ground arith)
  le_label_trans (some t) (some u) none p q = absurd (ground arith)
  le_label_trans (some t) (some u) (some v) p q = c.trans t u v p q

  scan-In : (u : Text) (vs : List (Option Text)) → In u (scan_strings vs) → In (some u) vs
  unfolding scan_strings
  scan-In u [] m = m
  scan-In u (none ∷ vs) m = inr (scan-In u vs m)
  scan-In u (some v ∷ vs) m = elim (Bool-cases (v == [])) [
    | inl empty ↦ inr (scan-In u vs (rw empty at m))
    | inr full ↦ elim (rw full at m) [ inl e ↦ inl (ap some e) | inr m' ↦ inr (scan-In u vs m') ]
  ]

  In-scan :
      (u : Text) (vs : List (Option Text))
      → In (some u) vs
      → (u == []) ≡ false
      → In u (scan_strings vs)
  unfolding scan_strings
  In-scan u [] m full = absurd m
  In-scan u (none ∷ vs) (inl e) full = absurd (ground arith)
  In-scan u (none ∷ vs) (inr m) full = In-scan u vs m full
  In-scan u (some v ∷ vs) (inl e) full = ground arith
  In-scan u (some v ∷ vs) (inr m) full = ground (arith, In-scan u vs m full)

  All-scan :
      (P : Option Text → Type 0) (vs : List (Option Text))
      → All P vs
      → All (λ u. P (some u)) (scan_strings vs)
  unfolding scan_strings
  All-scan P [] h = tt
  All-scan P (none ∷ vs) h = All-scan P vs h.1
  All-scan P (some v ∷ vs) h = elim (Bool-cases (v == [])) [
    | inl empty ↦ rw empty (All-scan P vs h.1)
    | inr full ↦ rw full (h.0, All-scan P vs h.1)
  ]

  scan-IsSorted :
      (vs : List (Option Text)) → IsSorted le_label vs → IsSorted le_text (scan_strings vs)
  unfolding scan_strings le_label
  scan-IsSorted [] h = tt
  scan-IsSorted (none ∷ vs) h = scan-IsSorted vs h.1
  scan-IsSorted (some v ∷ vs) h = elim (Bool-cases (v == [])) [
    | inl empty ↦ rw empty (scan-IsSorted vs h.1)
    | inr full ↦ rw full (All-scan (λ l. le_label (some v) l ≡ true) vs h.0, scan-IsSorted vs h.1)
  ]

  scan-Apart : (vs : List (Option Text)) → Apart same_label vs → Apart same (scan_strings vs)
  unfolding scan_strings same_label
  scan-Apart [] h = tt
  scan-Apart (none ∷ vs) h = scan-Apart vs h.1
  scan-Apart (some v ∷ vs) h = elim (Bool-cases (v == [])) [
    | inl empty ↦ rw empty (scan-Apart vs h.1)
    | inr full ↦ rw full (All-scan (λ l. same_label (some v) l ≡ false) vs h.0, scan-Apart vs h.1)
  ]

  -- The texts of the column `g` that are not blank, each once, in order.
  pub record Lists (g : FlowRow → Text) (table : List FlowRow) (out : List Text) : Type 0 where
    pub found : (u : Text) → In u out → (r : FlowRow) × In r table × (u ≡ g r)
    pub complete :
        (r : FlowRow)
        → In r table
        → same (g r) [] ≡ false
        → (u : Text) × In u out × (same u (g r) ≡ true)
    pub in_order : IsSorted le_text out
    pub once : Apart same out

  not_empty : (u t : Text) → same u t ≡ true → same t [] ≡ false → (u == []) ≡ false
  not_empty u t e full = elim (Bool-cases (u == [])) [
    | inr there ↦ there
    | inl empty ↦ absurd (
        ground
          (arith, same_of_eq u [] ((text_beq_iff u []).0 empty), same-sym t u, same_trans t u []))
  ]

  -- The rows that a list reads all have a label, the text of the column.
  module _ (g : FlowRow → Text) (f : FlowRow → Option Text)
      (labelled : (r : FlowRow) → is_blank (g r) ≡ false → f r ≡ some (g r)) where
    abbrev shown : FlowRow → Bool
    shown r = not (is_blank (g r))

    labels-In :
        (l : Option Text) (table : List FlowRow)
        → In l (labels shown f table)
        → (r : FlowRow) × In r table × (is_blank (g r) ≡ false) × (l ≡ f r)
    unfolding labels
    labels-In l table m =
        let kept = keep shown table in
        let ls = map f kept in
        let m' =
          distinct-In same_label same_label_refl same_label-sym same_label_trans l ls
            (sort_by-In le_label le_label-total le_label_trans l (distinct same_label ls) m) in
        let (r, mr, e) = map-In f l kept m' in
        let (member, full) = keep-In shown r table mr in (r, member, ground arith, e)

    labels-Lists : (table : List FlowRow) → Lists g table (scan_strings (labels shown f table))
    unfolding labels is_blank same_label
    labels-Lists table =
        let kept = keep shown table in
        let ls = map f kept in
        let ds = distinct same_label ls in
        record {
          found = λ u m.
              (let (r, member, full, e) =
                  labels-In (some u) table (scan-In u (labels shown f table) m) in
                (r, member, ground (arith, labelled r full)));
          complete = λ r m full.
              (let (l, ml, e) =
                  distinct-covers same_label same_label_refl same_label-sym same_label_trans
                    (some (g r)) ls
                    (rw (← labelled r full)
                      (In-map f r kept (In-keep shown r table m (ground arith)))) in
                pick r full l (In-sort_by le_label le_label-total le_label_trans l ds ml) e);
          in_order = scan-IsSorted _ (sort_by-IsSorted le_label le_label-total le_label_trans ds);
          once = scan-Apart _ (
              sort_by-Apart same_label same_label_refl same_label-sym same_label_trans le_label ds
                (distinct-Apart same_label same_label_refl same_label-sym same_label_trans ls));
        }
      where
        pick :
            (r : FlowRow)
            → same (g r) [] ≡ false
            → (l : Option Text) → In l (labels shown f table)
            → same_label l (some (g r)) ≡ true
            → (u : Text) × In u (scan_strings (labels shown f table)) × (same u (g r) ≡ true)
        pick r full none m e = absurd (ground arith)
        pick r full (some u) m e = (u, In-scan u _ m (not_empty u (g r) e full), e)

  -- If FlowResources returns no error, its list has the names of the flows' resources that are not
  -- blank, each once up to the collation, in its order, and nothing else.
  pub flow_resources-Lists :
      (s : Db) (out : List Text)
      → (flow_resources s).0 ≡ ok out
      → Lists (λ r. r.resource_name) s.flows out
  unfolding flow_resources statement has_resource
  flow_resources-Lists s out h =
      let name = λ (r : FlowRow). r.resource_name in
      let all = labels-Lists name (λ r. some r.resource_name) (λ r full. refl) s.flows in
      let e : scan_strings (labels has_resource (λ r. some r.resource_name) s.flows) ≡ out =
        ground arith in
      rw e at all
