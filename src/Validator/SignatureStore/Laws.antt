-- ===== src/Validator/SignatureStore/Laws.antt =====
-- Every pending id has its signature, under its own id.
use synddb.Prelude.{
  suc, ◌++◌, none, ◌⊎◌, Option-cases, ◌≡◌, ◌≢◌, refl, sym, ap, ◌∙◌, Bool, true, false, not, String,
  str_eq, str_eq_iff, some, List, [], ◌∷◌, filter, map, length, if◌then◌else◌, All, All-append,
  Bool-cases, inl, inr,
}
use synddb.Validator.SignatureStore.{
  MessageSignature, SignatureStore, lookup, insert, delete, store, get, filter_map,
  pending_signatures, mark_submitted, remove, pending_count,
}

-- The store holds, under the id, a signature that names the id.
abbrev pub Holds : List (String × MessageSignature) → String → Type 0
Holds rows id = (s : MessageSignature) × (lookup id rows ≡ some s) × (s.message_id ≡ id)

abbrev pub IsValid : SignatureStore → Type 0
IsValid d = All (Holds d.signatures) d.pending

abbrev pub ids : List MessageSignature → List String
ids = map (λ s. s.message_id)

-- In a valid store the pending signatures are those of the pending ids, in order, none missing.
pending_signatures-ids :
    (d : SignatureStore)
    → IsValid d
    → (ids (pending_signatures d) ≡ d.pending) × (length (pending_signatures d) ≡ pending_count d)
unfolding pending_signatures get pending_count
pending_signatures-ids d v = (go d.pending v, count d.pending v)
  where
    go : (ks : List String) → All (Holds d.signatures) ks → ids (filter_map (get d) ks) ≡ ks
    go [] h = refl
    go (k ∷ ks) ((s, found, named), h) = rw found (rw (go ks h, named) refl)

    count :
        (ks : List String)
        → All (Holds d.signatures) ks
        → length (filter_map (get d) ks) ≡ length ks
    count [] h = refl
    count (k ∷ ks) ((s, found, named), h) = rw found (ap suc (count ks h))

differ : (a b : String) → str_eq a b ≡ false → a ≢ b
differ a b h e = let t = (str_eq_iff a b).1 e in cc

str_eq-false : (a b : String) → a ≢ b → str_eq a b ≡ false
str_eq-false a b h = elim (Bool-cases (str_eq a b)) [
  | inl t ↦ absurd (h ((str_eq_iff a b).0 t))
  | inr f ↦ f
]

lookup-insert :
    (id k : String) (s : MessageSignature) (rows : List (String × MessageSignature))
    → lookup k (insert id s rows) ≡ (if str_eq id k then some s else lookup k rows)
unfolding lookup insert
lookup-insert id k s [] = refl
lookup-insert id k s ((j, t) ∷ rows) = elim (Bool-cases (str_eq j id)) [
  | inl same ↦
      let e : str_eq j k ≡ str_eq id k = ap (λ x. str_eq x k) ((str_eq_iff j id).0 same) in
      rw same (elim (Bool-cases (str_eq id k)) [
        | inl here ↦ rw (e ∙ here) (rw here refl)
        | inr there ↦ rw (e ∙ there) (rw there refl)
      ])
  | inr other ↦ rw other (elim (Bool-cases (str_eq j k)) [
    | inl here ↦
        let e : k ≡ j = sym ((str_eq_iff j k).0 here) in
        let not_id : str_eq id k ≡ false =
          str_eq-false id k (λ f. differ j id other (sym (f ∙ e))) in
        rw here (rw not_id refl)
    | inr there ↦ rw there (lookup-insert id k s rows)
  ])
]

Holds-insert :
    (s : MessageSignature) (rows : List (String × MessageSignature)) (k : String)
    → Holds rows k
    → Holds (insert s.message_id s rows) k
Holds-insert s rows k (t, found, named) = elim (Bool-cases (str_eq s.message_id k)) [
  | inl here ↦
      (s, lookup-insert s.message_id k s rows ∙ rw here refl, (str_eq_iff s.message_id k).0 here)
  | inr there ↦ (t, lookup-insert s.message_id k s rows ∙ rw there found, named)
]

All-insert :
    (s : MessageSignature) (rows : List (String × MessageSignature)) (ks : List String)
    → All (Holds rows) ks
    → All (Holds (insert s.message_id s rows)) ks
All-insert s rows [] h = tt
All-insert s rows (k ∷ ks) h = (Holds-insert s rows k h.0, All-insert s rows ks h.1)

Holds-self :
    (s : MessageSignature) (rows : List (String × MessageSignature))
    → Holds (insert s.message_id s rows) s.message_id
Holds-self s rows =
    let here = (str_eq_iff s.message_id s.message_id).1 refl in
    (s, lookup-insert s.message_id s.message_id s rows ∙ rw here refl, refl)

All-if :
    (P : String → Type 0) (b : Bool) (xs ys : List String)
    → All P xs
    → All P ys
    → All P (if b then xs else ys)
All-if P true xs ys hx hy = hx
All-if P false xs ys hx hy = hy

-- What storing a signature does to the pending ids: an id that had no signature becomes the last, and
-- one that had a signature changes nothing, pending or not.
abbrev pub Queues : MessageSignature → SignatureStore → SignatureStore → Type 0
Queues s d d' =
    ((get d s.message_id ≡ none) × (d'.pending ≡ d.pending ++ s.message_id ∷ []))
    ⊎ ((t : MessageSignature) × (get d s.message_id ≡ some t) × (d'.pending ≡ d.pending))

-- Storing a signature keeps the store valid, and it is then found under its id; any other id finds
-- what it did. The id becomes the last pending one exactly if it had no signature, and the pending
-- signatures are those of the pending ids, in order.
pub store-IsValid :
    (s : MessageSignature) (d : SignatureStore) (k : String)
    → IsValid d
    → IsValid (store s d)
      × (get (store s d) k ≡ (if str_eq s.message_id k then some s else get d k))
      × Queues s d (store s d)
      × (ids (pending_signatures (store s d)) ≡ (store s d).pending)
unfolding store get
store-IsValid s d k v =
    let old = All-insert s d.signatures d.pending v in
    let valid : IsValid (store s d) =
      All-if (Holds (insert s.message_id s d.signatures)) _ _ _
        (All-append (Holds (insert s.message_id s d.signatures)) d.pending (s.message_id ∷ []) old
          (Holds-self s d.signatures, tt))
        old in
    (
      valid,
      lookup-insert s.message_id k s d.signatures,
      elim (Option-cases (lookup s.message_id d.signatures)) [
        | inl new' ↦ rw new' (inl (refl, refl))
        | inr (t, there) ↦ rw there (inr (t, refl, refl))
      ],
      (pending_signatures-ids (store s d) valid).0,
    )

All-filter :
    (P : String → Type 0) (q : String → Bool) (ks : List String) → All P ks → All P (filter q ks)
All-filter P q [] h = tt
All-filter P q (k ∷ ks) h =
    All-if P (q k) (k ∷ filter q ks) (filter q ks) (h.0, All-filter P q ks h.1)
      (All-filter P q ks h.1)

lookup-delete :
    (id k : String) (rows : List (String × MessageSignature))
    → str_eq id k ≡ false
    → lookup k (delete id rows) ≡ lookup k rows
unfolding lookup delete
lookup-delete id k [] h = refl
lookup-delete id k ((j, t) ∷ rows) h = elim (Bool-cases (str_eq j id)) [
  | inl same ↦
      let e : str_eq j k ≡ str_eq id k = ap (λ x. str_eq x k) ((str_eq_iff j id).0 same) in
      rw same (rw (e ∙ h) refl)
  | inr other ↦ rw other (elim (Bool-cases (str_eq j k)) [
    | inl here ↦ rw here refl
    | inr there ↦ rw there (lookup-delete id k rows h)
  ])
]

All-delete :
    (id : String) (rows : List (String × MessageSignature)) (ks : List String)
    → All (Holds rows) ks
    → All (Holds (delete id rows)) (filter (λ k. not (str_eq k id)) ks)
All-delete id rows [] h = tt
All-delete id rows (k ∷ ks) ((s, found, named), h) = elim (Bool-cases (str_eq k id)) [
  | inl same ↦ rw same (All-delete id rows ks h)
  | inr other ↦
      let apart = str_eq-false id k (λ e. differ k id other (sym e)) in
      rw other ((s, lookup-delete id k rows apart ∙ found, named), All-delete id rows ks h)
]

-- Submitting and removing keep the store valid and take the id off the pending ones. Submitting keeps
-- every signature, and removing returns the one of the id and keeps those of the others.
remove-IsValid :
    (id k : String) (d : SignatureStore)
    → IsValid d
    → IsValid (mark_submitted id d)
      × IsValid (remove id d).0
      × (get (mark_submitted id d) k ≡ get d k)
      × ((remove id d).1 ≡ get d id)
      × (str_eq id k ≡ false → get (remove id d).0 k ≡ get d k)
      × ((mark_submitted id d).pending ≡ filter (λ k'. not (str_eq k' id)) d.pending)
unfolding mark_submitted remove get
remove-IsValid id k d v = (
  All-filter (Holds d.signatures) (λ k'. not (str_eq k' id)) d.pending v,
  All-delete id d.signatures d.pending v,
  refl,
  refl,
  λ h. lookup-delete id k d.signatures h,
  refl,
)
