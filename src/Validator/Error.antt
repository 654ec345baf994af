-- ===== src/Validator/Error.antt =====
-- crates/synddb-validator/src/error.rs: the errors that syncing meets, and their texts.
use Prim.Native.String.{◌++◌ as text_append, slice}
use text.Mathlib.Text.{find?}
use synddb.Prelude.{
  ℕ, zero, suc, ◌+◌, ◌/◌, ◌%◌, Bool, true, false, String, none, some, List, [], ◌∷◌, ltb,
  if◌then◌else◌,
}

-- `s.contains(t)`
abbrev pub contains_text : String → String → Bool
contains_text s t = elim (find? s t) [ none ↦ false | some i ↦ true ]

-- `format!` of the parts.
abbrev pub format : List String → String
format [] = ""
format (s ∷ ss) = text_append s (format ss)

abbrev digit : ℕ → String
digit n = slice "0123456789" n (n + 1)

abbrev show_digits : ℕ → ℕ → String
show_digits zero n = ""
show_digits (suc fuel) n =
    let rest = show_digits fuel (n / 10) in
    if ltb n 10 then digit n else text_append rest (digit (n % 10))

-- The decimal text of a u64, which has at most 20 digits.
abbrev pub show : ℕ → String
show n = show_digits 20 n

abbrev pub join : String → List String → String
join sep [] = ""
join sep (s ∷ []) = s
join sep (s ∷ t ∷ ts) = text_append s (text_append sep (join sep (t ∷ ts)))

pub data ValidatorError : Type 0 where
  -- the text of a failed signature check is not modelled
  signature_verification invalid_signature signer_mismatch : ValidatorError
  sequence_gap : ℕ → ℕ → ValidatorError
  decompression_error parse_error database_error : String → ValidatorError
  changeset_apply_error : ℕ → String → ValidatorError
  validation_rule_failed : String → ℕ → String → ValidatorError
  -- an error of another crate, with its context
  other : String → ValidatorError

abbrev pub to_string : ValidatorError → String
to_string signature_verification = "Signature verification failed: "
to_string invalid_signature = "Invalid signature format: "
to_string signer_mismatch = "Signer mismatch: expected "
to_string (sequence_gap expected actual) =
    format ("Sequence gap detected: expected " ∷ show expected ∷ ", got " ∷ show actual ∷ [])
to_string (decompression_error e) = format ("Decompression error: " ∷ e ∷ [])
to_string (parse_error e) = format ("Parse error: " ∷ e ∷ [])
to_string (database_error e) = format ("Database error: " ∷ e ∷ [])
to_string (changeset_apply_error sequence reason) =
    format ("Changeset application failed at sequence " ∷ show sequence ∷ ": " ∷ reason ∷ [])
to_string (validation_rule_failed rule sequence reason) =
    format
      ("Validation rule '" ∷ rule ∷ "' failed at sequence " ∷ show sequence ∷ ": " ∷ reason ∷ [])
to_string (other e) = e
