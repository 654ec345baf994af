-- ===== src/Validator/SignatureStore/Tests.antt =====
-- The signature store at concrete signatures.
use synddb.Prelude.{◌≡◌, refl, String, some, [], ◌∷◌}
use synddb.Validator.SignatureStore.{
  MessageSignature, SignatureStore, store, get, lookup, mark_submitted,
}
use synddb.Validator.SignatureStore.Laws.{IsValid, store-IsValid}

abbrev named : String → MessageSignature
named id = record { message_id = id; signature = 1 ∷ []; signer = 2 ∷ []; signed_at = 3 }

abbrev two : SignatureStore
two = record { signatures = ("a", named "a") ∷ ("b", named "b") ∷ []; pending = "a" ∷ "b" ∷ [] }

two-IsValid : IsValid two
unfolding lookup
two-IsValid = ((named "a", refl, refl), ((named "b", refl, refl), tt))

-- A signature stored again after its submission is not pending again.
stored_again : (store (named "a") (mark_submitted "a" two)).pending ≡ "b" ∷ []
unfolding store mark_submitted lookup
stored_again = refl

store-IsValid_example : get (store (named "c") two) "c" ≡ some (named "c")
store-IsValid_example = (store-IsValid (named "c") two "c" two-IsValid).1
