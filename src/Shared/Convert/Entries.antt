-- ===== src/Shared/Convert/Entries.antt =====
-- The two readings of a protected header: the first entry of a label, and the last one.
use synddb.Prelude.{
  ℕ, ◌+◌, ◌≤◌, ◌≡◌, refl, ap, ◌∙◌, Option, none, some, List, [], ◌∷◌, ◌++◌, if◌then◌else◌, arith,
  Bool-cases, inl, inr,
}
use synddb.Shared.Cbor.Cose.{
  ℤ, pos, negsuc, int_eq, as_u64, Label, int, text, Value, integer, bytes, other_value, Algorithm,
  Header, extract_u64, is_label,
}
use synddb.Shared.Message.{Node, field_from}

-- A label and a value as nodes of the decoded header.
abbrev pub label_node : Label → Node
label_node (int l) = Node.integer l
label_node (text s) = Node.other_node

abbrev pub value_node : Value → Node
value_node (integer i) = Node.integer i
value_node (bytes b) = Node.other_node
value_node other_value = Node.other_node

abbrev pub entry_nodes : List (Label × Value) → List (Node × Node)
entry_nodes [] = []
entry_nodes ((l, v) ∷ entries) = (label_node l, value_node v) ∷ entry_nodes entries

-- The entry of the algorithm has label 1.
abbrev pub algorithm_nodes : Option Algorithm → List (Node × Node)
algorithm_nodes none = []
algorithm_nodes (some Algorithm.es256k) = (Node.integer (pos 1), Node.integer (negsuc 46)) ∷ []
algorithm_nodes (some Algorithm.other_algorithm) = (Node.integer (pos 1), Node.other_node) ∷ []

abbrev pub header_nodes : Header → List (Node × Node)
header_nodes h = algorithm_nodes h.alg ++ entry_nodes h.rest

-- The number of entries of a label.
unfoldable pub occurrences : ℤ → List (Label × Value) → ℕ
occurrences l [] = 0
occurrences l ((k, v) ∷ entries) = (if is_label l k then 1 else 0) + occurrences l entries

field_from-absent :
    (l : ℤ) (entries : List (Label × Value)) (found : Option ℕ)
    → occurrences l entries ≡ 0
    → field_from found l (entry_nodes entries) ≡ found
unfolding field_from occurrences
field_from-absent l [] found h = refl
field_from-absent l ((int k, integer i) ∷ entries) found h = elim (Bool-cases (int_eq k l)) [
  | inl hit ↦ let e : 1 + occurrences l entries ≡ 0 = rw hit at h in absurd (omega (arith, e))
  | inr miss ↦ rw (miss, field_from) (field_from-absent l entries found (omega (arith, h)))
]
field_from-absent l ((int k, bytes b) ∷ entries) found h =
    field_from-absent l entries found (omega (arith, h))
field_from-absent l ((int k, other_value) ∷ entries) found h =
    field_from-absent l entries found (omega (arith, h))
field_from-absent l ((text s, v) ∷ entries) found h =
    field_from-absent l entries found (omega (arith, h))

abbrev or_found : Option ℕ → Option ℕ → Option ℕ
or_found none found = found
or_found (some n) found = some n

field_from-extract :
    (l : ℤ) (entries : List (Label × Value)) (found : Option ℕ)
    → occurrences l entries ≤ 1
    → field_from found l (entry_nodes entries) ≡ or_found (extract_u64 entries l) found
unfolding field_from occurrences extract_u64
field_from-extract l [] found h = refl
field_from-extract l ((int k, integer i) ∷ entries) found h = elim (Bool-cases (int_eq k l)) [
  | inl hit ↦
      let e : 1 + occurrences l entries ≤ 1 = rw hit at h in
      rw (hit, field_from, extract_u64)
        (field_from-absent l entries (some (as_u64 i)) (omega (arith, e)))
  | inr miss ↦
      rw (miss, field_from, extract_u64) (field_from-extract l entries found (omega (arith, h)))
]
field_from-extract l ((int k, bytes b) ∷ entries) found h = elim (Bool-cases (int_eq k l)) [
  | inl hit ↦ rw hit (field_from-extract l entries found (omega (arith, h)))
  | inr miss ↦ rw miss (field_from-extract l entries found (omega (arith, h)))
]
field_from-extract l ((int k, other_value) ∷ entries) found h = elim (Bool-cases (int_eq k l)) [
  | inl hit ↦ rw hit (field_from-extract l entries found (omega (arith, h)))
  | inr miss ↦ rw miss (field_from-extract l entries found (omega (arith, h)))
]
field_from-extract l ((text s, v) ∷ entries) found h =
    field_from-extract l entries found (omega (arith, h))

-- Where a negative label has at most one entry, both readings of a header give the same.
pub field_from-header :
    (n : ℕ) (h : Header) (v : ℕ)
    → occurrences (negsuc n) h.rest ≤ 1
    → extract_u64 h.rest (negsuc n) ≡ some v
    → field_from none (negsuc n) (header_nodes h) ≡ some v
unfolding field_from
field_from-header n h v one e =
    go h.alg ∙ field_from-extract (negsuc n) h.rest none one ∙ ap (λ o. or_found o none) e
  where
    go :
        (a : Option Algorithm)
        → field_from none (negsuc n) (algorithm_nodes a ++ entry_nodes h.rest)
          ≡ field_from none (negsuc n) (entry_nodes h.rest)
    go none = refl
    go (some Algorithm.es256k) = refl
    go (some Algorithm.other_algorithm) = refl
