-- ===== src/Validator/Rules.antt =====
-- crates/synddb-validator/src/rules/mod.rs: validation rules and their registry.
use synddb.Prelude.{ℕ, Bool, String, List, [], ◌∷◌, ◌++◌, Result, ok, err, if◌then◌else◌}
use synddb.Validator.Error.{ValidatorError, validation_rule_failed, format}

pub data ValidationResult : Type 0 where
  pass not_applicable : ValidationResult
  fail : String → ValidationResult

pub record ValidationRule (Conn : Type 0) : Type 0 where
  pub name : String
  pub is_enabled : Bool
  pub validate : Conn → ℕ → Result ValidationResult String

-- What one enabled rule contributes.
abbrev pub judged : String → ℕ → Result ValidationResult String → Result (Unit {0}) ValidatorError
judged rule sequence (ok pass) = ok tt
judged rule sequence (ok not_applicable) = ok tt
judged rule sequence (ok (fail reason)) = err (validation_rule_failed rule sequence reason)
judged rule sequence (err e) =
    err (validation_rule_failed rule sequence (format ("Rule error: " ∷ e ∷ [])))

module _ {Conn : Type 0} where
  -- Rules run in the order of their registration.
  abbrev pub register :
      ValidationRule Conn → List (ValidationRule Conn) → List (ValidationRule Conn)
  register rule rules = rules ++ rule ∷ []

  unfoldable pub validate_all :
      List (ValidationRule Conn) → Conn → ℕ → Result (Unit {0}) ValidatorError
  validate_all [] conn sequence = ok tt
  validate_all (rule ∷ rules) conn sequence =
      let rest = validate_all rules conn sequence in
      if rule.is_enabled
      then (elim (judged rule.name sequence (rule.validate conn sequence)) [
        | ok done ↦ rest
        | err e ↦ err e
      ])
      else rest
