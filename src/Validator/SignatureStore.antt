-- ===== src/Validator/SignatureStore.antt =====
-- crates/synddb-validator/src/bridge/signature_store.rs: signatures kept for the relayers. The hash
-- map is an association list.
pub mod Laws
pub mod Tests
use synddb.Prelude.{
  ℕ, Bool, true, false, not, String, str_eq, Option, none, some, List, [], ◌∷◌, ◌++◌, ◌==◌, filter,
  length, if◌then◌else◌,
}
use synddb.Shared.Bytes.{Bytes}

pub record MessageSignature : Type 0 where
  pub message_id : String
  pub signature : Bytes
  pub signer : Bytes
  pub signed_at : ℕ

pub record SignatureStore : Type 0 where
  pub signatures : List (String × MessageSignature)
  -- not yet submitted, in order
  pub pending : List String

abbrev pub new : SignatureStore
new = record { signatures = []; pending = [] }

unfoldable pub lookup : String → List (String × MessageSignature) → Option MessageSignature
lookup id [] = none
lookup id ((k, s) ∷ rest) = let later = lookup id rest in if str_eq k id then some s else later

-- `HashMap::insert`
unfoldable pub insert :
    String → MessageSignature → List (String × MessageSignature) → List (String × MessageSignature)
insert id s [] = (id, s) ∷ []
insert id s ((k, t) ∷ rest) =
    let later = insert id s rest in if str_eq k id then (k, s) ∷ rest else (k, t) ∷ later

-- `HashMap::remove`
unfoldable pub delete : String → List (String × MessageSignature) → List (String × MessageSignature)
delete id [] = []
delete id ((k, t) ∷ rest) =
    let later = delete id rest in if str_eq k id then rest else (k, t) ∷ later

abbrev pub is_some : Option MessageSignature → Bool
is_some none = false
is_some (some s) = true

unfoldable pub store : MessageSignature → SignatureStore → SignatureStore
unfolding lookup insert
store s d =
    let is_new = not (is_some (lookup s.message_id d.signatures)) in
    record {
      signatures = insert s.message_id s d.signatures;
      pending = if is_new then d.pending ++ s.message_id ∷ [] else d.pending;
    }

unfoldable pub get : SignatureStore → String → Option MessageSignature
unfolding lookup
get d id = lookup id d.signatures

abbrev pub cons_some : Option MessageSignature → List MessageSignature → List MessageSignature
cons_some none rest = rest
cons_some (some s) rest = s ∷ rest

abbrev pub filter_map : (String → Option MessageSignature) → List String → List MessageSignature
filter_map f [] = []
filter_map f (id ∷ ids) = cons_some (f id) (filter_map f ids)

unfoldable pub pending_signatures : SignatureStore → List MessageSignature
unfolding get
pending_signatures d = filter_map (get d) d.pending

unfoldable pub mark_submitted : String → SignatureStore → SignatureStore
mark_submitted id d = record d { pending = filter (λ k. not (str_eq k id)) d.pending }

unfoldable pub remove : String → SignatureStore → SignatureStore × Option MessageSignature
unfolding lookup delete
remove id d = (
  record {
    signatures = delete id d.signatures;
    pending = filter (λ k. not (str_eq k id)) d.pending;
  },
  lookup id d.signatures,
)

unfoldable pub len : SignatureStore → ℕ
len d = length d.signatures

abbrev pub is_empty : SignatureStore → Bool
unfolding len
is_empty d = len d == 0

unfoldable pub pending_count : SignatureStore → ℕ
pending_count d = length d.pending
