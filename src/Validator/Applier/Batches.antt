-- ===== src/Validator/Applier/Batches.antt =====
-- What the rules allow, and what the changesets of a batch lead to.
use synddb.Prelude.{
  sym, ◌+◌, ◌==◌, false, ℕ, ◌≡◌, ◌≢◌, refl, ap, subst, true, String, Option, none, some, List, [],
  ◌∷◌, arith, Result, ok, err, bind-ok, Result-cases, Bool-cases, All, ◌⊎◌, inl, inr, ◌↔◌,
}
use synddb.Shared.Bytes.{Bytes}
use synddb.Validator.Sqlite.{Sqlite}
use synddb.Validator.Rules.{
  ValidationRule, ValidationResult, pass, not_applicable, fail, validate_all, judged,
}
use synddb.Validator.Applier.{
  table_columns, missing_tables, column_mismatches, report, validate_changeset_schema,
  apply_single_changeset, apply_each, run_rules, on_conflict,
}

judged-ok :
    (rule : String) (sequence : ℕ) (r : Result ValidationResult String)
    → judged rule sequence r ≡ ok tt
    → (r ≡ ok pass) ⊎ (r ≡ ok not_applicable)
judged-ok rule sequence (ok pass) h = inl refl
judged-ok rule sequence (ok not_applicable) h = inr refl
judged-ok rule sequence (ok (fail reason)) h = cc
judged-ok rule sequence (err e) h = cc

module _ {Conn : Type 0} where
  -- The rule is off, or it passes or does not apply.
  abbrev pub Allows : Conn → ℕ → ValidationRule Conn → Type 0
  Allows conn sequence rule =
      rule.is_enabled ≡ true
      → (rule.validate conn sequence ≡ ok pass) ⊎ (rule.validate conn sequence ≡ ok not_applicable)

  -- The registry accepts a database exactly when every enabled rule passes or does not apply.
  validate_all_iff :
      (rules : List (ValidationRule Conn)) (conn : Conn) (sequence : ℕ)
      → (validate_all rules conn sequence ≡ ok tt) ↔ All (Allows conn sequence) rules
  unfolding validate_all
  validate_all_iff rules conn sequence = (sound rules, complete rules)
    where
      sound :
          (rules : List (ValidationRule Conn))
          → validate_all rules conn sequence ≡ ok tt
          → All (Allows conn sequence) rules
      sound [] h = tt
      sound (r ∷ rs) h = elim (Bool-cases r.is_enabled) [
        | inr off ↦ let rest = rw (off, validate_all) at h in (λ on. cc, sound rs rest)
        | inl on ↦ elim (Result-cases (judged r.name sequence (r.validate conn sequence))) [
          | inr (e, j) ↦ absurd (let bad = rw (on, j, validate_all) at h in cc)
          | inl (done, j) ↦
              let rest = rw (on, j, validate_all) at h in
              (λ _. judged-ok r.name sequence (r.validate conn sequence) j, sound rs rest)
        ]
      ]

      complete :
          (rules : List (ValidationRule Conn))
          → All (Allows conn sequence) rules
          → validate_all rules conn sequence ≡ ok tt
      complete [] h = refl
      complete (r ∷ rs) h = elim (Bool-cases r.is_enabled) [
        | inr off ↦ rw (off, validate_all) (complete rs h.1)
        | inl on ↦ elim (h.0 on) [
          | inl e ↦ rw (on, e, validate_all) (complete rs h.1)
          | inr e ↦ rw (on, e, validate_all) (complete rs h.1)
        ]
      ]

module _ {Conn : Type 0} (sqlite : Sqlite Conn) where
  abbrev pub RulesAllow : Option (List (ValidationRule Conn)) → ℕ → Conn → Type 0
  RulesAllow none sequence conn = Unit
  RulesAllow (some rules) sequence conn = All (Allows conn sequence) rules

  pub rules-allow :
      (rules : Option (List (ValidationRule Conn))) (sequence : ℕ) (conn : Conn)
      → run_rules sqlite rules conn sequence ≡ ok tt
      → RulesAllow rules sequence conn
  rules-allow none sequence conn h = tt
  rules-allow (some rules) sequence conn h = (validate_all_iff rules conn sequence).0 h

  pub allow-rules :
      (rules : Option (List (ValidationRule Conn))) (sequence : ℕ) (conn : Conn)
      → RulesAllow rules sequence conn
      → run_rules sqlite rules conn sequence ≡ ok tt
  allow-rules none sequence conn h = refl
  allow-rules (some rules) sequence conn h = (validate_all_iff rules conn sequence).1 h

  abbrev pub Fits : Conn → String × ℕ → Type 0
  Fits conn (table, cols) = (sqlite.column_count conn table ≡ some cols) × (cols ≢ 0)

  schema-Fits :
      (conn : Conn) (tables : List (String × ℕ))
      → report sqlite (missing_tables sqlite conn tables) (column_mismatches sqlite conn tables)
        ≡ ok tt
      → All (Fits conn) tables
  schema-Fits conn [] h = tt
  schema-Fits conn ((table, cols) ∷ tables) h =
      let head : Fits conn (table, cols) = ground arith in
      let rest = schema-Fits conn tables (ground arith) in (head, rest)

  -- A changeset is applied only if every table it changes exists with the number of columns that
  -- the changeset was made for, so no row and no column is dropped silently.
  apply_single_changeset-Fits :
      (conn conn' : Conn) (raw : Bytes)
      → apply_single_changeset sqlite conn raw ≡ ok conn'
      → (found : List (String × ℕ)) × (sqlite.changes raw ≡ ok found)
        × All (Fits conn) (table_columns [] found)
        × (sqlite.apply_strm on_conflict conn raw ≡ ok conn')
  unfolding apply_single_changeset validate_changeset_schema
  apply_single_changeset-Fits conn conn' raw h =
      let (_, valid, h1) = bind-ok (validate_changeset_schema sqlite conn raw) _ conn' h in
      let (found, changed, h2) = bind-ok (sqlite.changes raw) _ tt valid in
      (found, changed, schema-Fits conn (table_columns [] found) h2, ground arith)

  Fits-schema :
      (conn : Conn) (tables : List (String × ℕ))
      → All (Fits conn) tables
      → (missing_tables sqlite conn tables ≡ []) × (column_mismatches sqlite conn tables ≡ [])
  Fits-schema conn [] h = (refl, refl)
  Fits-schema conn ((table, cols) ∷ tables) ((there, some_cols), h) =
      let (missing, wrong) = Fits-schema conn tables h in
      let c : (cols == 0) ≡ false = ground arith in
      let d : (cols == cols) ≡ true = ground arith in
      (rw there (rw c missing), rw there (rw c (rw d wrong)))

  Fits-apply_single_changeset :
      (conn conn' : Conn) (raw : Bytes) (found : List (String × ℕ))
      → sqlite.changes raw ≡ ok found
      → All (Fits conn) (table_columns [] found)
      → sqlite.apply_strm on_conflict conn raw ≡ ok conn'
      → apply_single_changeset sqlite conn raw ≡ ok conn'
  unfolding apply_single_changeset validate_changeset_schema
  Fits-apply_single_changeset conn conn' raw found e fits a =
      let (missing, wrong) = Fits-schema conn (table_columns [] found) fits in
      rw e (rw missing (rw wrong (rw a refl)))

  -- One changeset of a batch: an empty one changes nothing; any other is applied, to a database where
  -- every table that it changes exists with the number of columns that it was made for.
  abbrev pub Applies : Conn → Bytes → Conn → Type 0
  Applies conn raw conn' =
      ((raw ≡ []) × (conn' ≡ conn))
      ⊎ ((first : ℕ) × (rest : Bytes) × (found : List (String × ℕ)) × (raw ≡ first ∷ rest)
          × (sqlite.changes raw ≡ ok found)
          × All (Fits conn) (table_columns [] found)
          × (sqlite.apply_strm on_conflict conn raw ≡ ok conn'))

  -- The changesets one after the other, every one of them.
  abbrev pub AppliesAll : Conn → List Bytes → Conn → Type 0
  AppliesAll conn [] conn' = conn' ≡ conn
  AppliesAll conn (c ∷ cs) conn' = (mid : Conn) × Applies conn c mid × AppliesAll mid cs conn'

  pub apply_each-AppliesAll :
      (sequence : ℕ) (id : String) (i : ℕ) (conn conn' : Conn) (cs : List Bytes)
      → apply_each sqlite sequence id i conn cs ≡ ok conn'
      → AppliesAll conn cs conn'
  unfolding apply_each
  apply_each-AppliesAll sequence id i conn conn' [] h = cc
  apply_each-AppliesAll sequence id i conn conn' ([] ∷ cs) h =
      (conn, inl (refl, refl), apply_each-AppliesAll sequence id (i + 1) conn conn' cs h)
  apply_each-AppliesAll sequence id i conn conn' ((b ∷ bs) ∷ cs) h =
      elim (Result-cases (apply_single_changeset sqlite conn (b ∷ bs))) [
        | inr (e, bad) ↦ absurd (let f = rw (bad, apply_each) at h in cc)
        | inl (mid, good) ↦
            let (found, e, fits, a) = apply_single_changeset-Fits conn mid (b ∷ bs) good in
            let later = rw (good, apply_each) at h in
            (
              mid,
              inr (b, bs, found, refl, e, fits, a),
              apply_each-AppliesAll sequence id (i + 1) mid conn' cs later,
            )
      ]

  pub AppliesAll-apply_each :
      (sequence : ℕ) (id : String) (i : ℕ) (conn conn' : Conn) (cs : List Bytes)
      → AppliesAll conn cs conn'
      → apply_each sqlite sequence id i conn cs ≡ ok conn'
  unfolding apply_each
  AppliesAll-apply_each sequence id i conn conn' [] h = ap (λ x. ok x) (sym h)
  AppliesAll-apply_each sequence id i conn conn' ([] ∷ cs) (mid, inl (e, same), h) =
      AppliesAll-apply_each sequence id (i + 1) conn conn' cs
        (subst (λ x. AppliesAll x cs conn') same h)
  AppliesAll-apply_each sequence id i conn conn' ([] ∷ cs)
        (mid, inr (b, bs, found, e, changed, fits, a), h) =
      absurd cc
  AppliesAll-apply_each sequence id i conn conn' ((b ∷ bs) ∷ cs) (mid, inl (e, same), h) = absurd cc
  AppliesAll-apply_each sequence id i conn conn' ((b ∷ bs) ∷ cs)
        (mid, inr (b', bs', found, e, changed, fits, a), h) =
      let one = Fits-apply_single_changeset conn mid (b ∷ bs) found changed fits a in
      rw (one, apply_each) (AppliesAll-apply_each sequence id (i + 1) mid conn' cs h)
