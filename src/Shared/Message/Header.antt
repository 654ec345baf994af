-- ===== src/Shared/Message/Header.antt =====
-- What the reader of the protected header finds.
use synddb.Prelude.{
  ℕ, ◌≡◌, ◌≢◌, refl, sym, ap, ◌∙◌, true, Option, none, some, List, [], ◌∷◌, ◌++◌, All, ◌⊎◌, inl,
  inr, if◌then◌else◌, Bool-cases, ok, bind-ok, arith,
}
use synddb.Shared.Bytes.{Bytes}
use synddb.Shared.Cbor.Crypto.{Crypto}
use synddb.Shared.Cbor.Cose.{ℤ, pos, negsuc, int_eq, as_u64, header_sequence, header_timestamp}
use synddb.Shared.Message.{
  Node, integer, other_node, Document, mapping, other_document, Codec, last_of, field_from,
  or_parse_error, entries_of, parse_cose_protected_header_fields,
}

int_eq-path : (a b : ℤ) → int_eq a b ≡ true → a ≡ b
int_eq-path (pos a) (pos b) h = let e : a ≡ b = ground arith in ap pos e
int_eq-path (negsuc a) (negsuc b) h = let e : a ≡ b = ground arith in ap negsuc e
int_eq-path (pos a) (negsuc b) h = absurd cc
int_eq-path (negsuc a) (pos b) h = absurd cc

int_eq-same : (a : ℤ) → int_eq a a ≡ true
int_eq-same (pos a) = ground arith
int_eq-same (negsuc a) = ground arith

-- An entry that is not an integer under the label.
abbrev pub Other : ℤ → Node × Node → Type 0
Other label (key, value) = (key ≢ integer label) ⊎ (value ≡ other_node)

-- The last integer under the label is the number, as a u64.
abbrev pub FieldIs : ℤ → List (Node × Node) → ℕ → Type 0
FieldIs label entries n =
    (before : List (Node × Node)) × (value : ℤ) × (after : List (Node × Node)) × (entries
      ≡ before ++ (integer label, integer value) ∷ after)
    × (as_u64 value ≡ n)
    × All (Other label) after

step :
    (label : ℤ) (key value : Node) (found : Option ℕ)
    → ((v : ℤ) × (key ≡ integer label)
        × (value ≡ integer v)
        × (last_of label key value found ≡ some (as_u64 v)))
      ⊎ (Other label (key, value) × (last_of label key value found ≡ found))
step label (integer key) (integer value) found = elim (Bool-cases (int_eq key label)) [
  | inl same ↦ rw (same, last_of) (inl (value, ap integer (int_eq-path key label same), refl, refl))
  | inr other ↦
      rw (other, last_of)
        (inr (
          inl (λ e. absurd (
              let k : key ≡ label = cc in
              let t = ap (λ x. int_eq x label) k ∙ int_eq-same label in cc)),
          refl,
        ))
]
step label (integer key) other_node found = inr (inr refl, refl)
step label other_node value found = inr (inl (λ e. cc), refl)

field_from-others :
    (label : ℤ) (entries : List (Node × Node)) (found : Option ℕ)
    → All (Other label) entries
    → field_from found label entries ≡ found
unfolding field_from
field_from-others label [] found h = refl
field_from-others label ((key, value) ∷ entries) found (o, h) =
    field_from-others label entries (last_of label key value found) h
    ∙ elim (step label key value found) [
      | inr (p, e) ↦ e
      | inl (v, k, i, e) ↦ elim o [ inl n ↦ absurd (n k) | inr q ↦ absurd cc ]
    ]

FieldIs-field_from :
    (label : ℤ) (before after : List (Node × Node)) (value : ℤ) (found : Option ℕ)
    → All (Other label) after
    → field_from found label (before ++ (integer label, integer value) ∷ after)
      ≡ some (as_u64 value)
unfolding field_from
FieldIs-field_from label [] after value found h =
    ap (λ b. field_from (if b then some (as_u64 value) else found) label after) (int_eq-same label)
    ∙ field_from-others label after (some (as_u64 value)) h
FieldIs-field_from label ((k, v) ∷ before) after value found h =
    FieldIs-field_from label before after value (last_of label k v found) h

field_from-FieldIs :
    (label : ℤ) (entries : List (Node × Node)) (found : Option ℕ) (n : ℕ)
    → field_from found label entries ≡ some n
    → FieldIs label entries n ⊎ (All (Other label) entries × (found ≡ some n))
unfolding field_from
field_from-FieldIs label [] found n h = inr (tt, h)
field_from-FieldIs label ((key, value) ∷ entries) found n h =
    elim (field_from-FieldIs label entries (last_of label key value found) n h) [
      | inl (before, v, after, e, m, all) ↦
          inl ((key, value) ∷ before, v, after, ap (◌∷◌ (key, value)) e, m, all)
      | inr (all, e) ↦ elim (step label key value found) [
        | inl (v, k, i, f) ↦
            let m : as_u64 v ≡ n = cc in
            inl (
              [],
              v,
              entries,
              ap (λ x. x ∷ entries) (ap (λ x. (x, value)) k ∙ ap (λ x. (integer label, x)) i),
              m,
              all,
            )
        | inr (o, f) ↦ inr ((o, all), sym f ∙ e)
      ]
    ]

-- The bytes are a map whose last integers under the two labels are the sequence and the timestamp.
abbrev pub HeaderIs : Codec → Bytes → ℕ → ℕ → Type 0
HeaderIs codec raw sequence timestamp =
    (entries : List (Node × Node)) × (codec.from_reader raw ≡ some (mapping entries))
    × FieldIs header_sequence entries sequence
    × FieldIs header_timestamp entries timestamp

module _ (codec : Codec) (crypto : Crypto) where
  or_parse_error-some : (o : Option ℕ) (n : ℕ) → or_parse_error o ≡ ok n → o ≡ some n
  or_parse_error-some none n h = absurd cc
  or_parse_error-some (some m) n h = cc

  entries_of-mapping :
      (d : Option Document) (entries : List (Node × Node))
      → entries_of d ≡ ok entries
      → d ≡ some (mapping entries)
  entries_of-mapping none entries h = absurd cc
  entries_of-mapping (some other_document) entries h = absurd cc
  entries_of-mapping (some (mapping es)) entries h = cc

  found :
      (label : ℤ) (entries : List (Node × Node)) (n : ℕ)
      → field_from none label entries ≡ some n
      → FieldIs label entries n
  found label entries n h = elim (field_from-FieldIs label entries none n h) [
    | inl f ↦ f
    | inr (all, e) ↦ absurd cc
  ]

  finds :
      (label : ℤ) (entries : List (Node × Node)) (n : ℕ)
      → FieldIs label entries n
      → field_from none label entries ≡ some n
  finds label entries n (before, value, after, e, m, all) =
      ap (field_from none label) e
      ∙ FieldIs-field_from label before after value none all
      ∙ ap (λ x. some x) m

  pub parse-HeaderIs :
      (raw : Bytes) (s t : ℕ)
      → parse_cose_protected_header_fields codec crypto raw ≡ ok (s, t)
      → HeaderIs codec raw s t
  unfolding parse_cose_protected_header_fields
  parse-HeaderIs raw s t h =
      let (entries, e1, h1) = bind-ok (entries_of (codec.from_reader raw)) _ (s, t) h in
      let (s', e2, h2) =
        bind-ok (or_parse_error (field_from none header_sequence entries)) _ (s, t) h1 in
      let (t', e3, h3) =
        bind-ok (or_parse_error (field_from none header_timestamp entries)) _ (s, t) h2 in
      let es : s' ≡ s = cc in
      let et : t' ≡ t = cc in
      (
        entries,
        entries_of-mapping _ entries e1,
        found header_sequence entries s (or_parse_error-some _ s' e2 ∙ ap (λ x. some x) es),
        found header_timestamp entries t (or_parse_error-some _ t' e3 ∙ ap (λ x. some x) et),
      )

  pub HeaderIs-parse :
      (raw : Bytes) (s t : ℕ)
      → HeaderIs codec raw s t
      → parse_cose_protected_header_fields codec crypto raw ≡ ok (s, t)
  unfolding parse_cose_protected_header_fields
  HeaderIs-parse raw s t (entries, e, fs, ft) =
      rw e (rw (finds header_sequence entries s fs) (rw (finds header_timestamp entries t ft) refl))
