-- ===== src/Shared/Cbor/Tests.antt =====
-- The CBOR layer at a concrete message and batch, with small stand-ins for the crates.
use native.Mathlib.Decide.{ℕ_discrete}
use synddb.Prelude.{
  some, ℕ, zero, suc, ◌≡◌, refl, sym, ap, true, String, [], ◌∷◌, Result, ok, err, arith, length,
  ◌==◌, str_eq, str_eq_iff, Bool-cases, inl, inr,
}
use synddb.Shared.Bytes.{Bytes, bytes_eq}
use synddb.Shared.Cbor.Error.{CborError, cbor, changeset, as_u8}
use synddb.Shared.Cbor.Crypto.{
  Crypto, verifying_key_from_bytes, signature_from_bytes, verify_secp256k1,
}
use synddb.Shared.Cbor.Cose.{
  CoseSign1, Header, Coset, build_cose_sign1, extract_sequence, verify_and_parse_cose_sign1,
  parse_fields,
}
use synddb.Shared.Cbor.CoseLaws.{
  CosetLaws, signed, parsed, verify_and_parse_sound, verify_and_parse-build,
}
use synddb.Shared.Cbor.Batch.{
  CborBatch, CborBatchWire, Ciborium, to_wire, new_batch, verify_batch_signature,
  compute_content_hash,
}
use synddb.Shared.Cbor.BatchLaws.{CiboriumLaws}

String-discrete : Discrete String
String-discrete a b = elim (Bool-cases (str_eq a b)) [
  | inl e ↦ yes ((str_eq_iff a b).0 e)
  | inr e ↦ no (λ same. let t = (str_eq_iff a b).1 same in cc)
]

pub Header-discrete : Discrete Header
Header-discrete = hlevel (ℕ_discrete, String-discrete)

pub CoseSign1-discrete : Discrete CoseSign1
CoseSign1-discrete = hlevel (ℕ_discrete, String-discrete)

CborBatchWire-discrete : Discrete CborBatchWire
CborBatchWire-discrete = hlevel ℕ_discrete

-- A codec that knows one value, written as the byte 1.
abbrev pub write {ℓ} : {A : Type ℓ} {a b : A} → Dec (a ≡ b) → Result Bytes CborError
write (yes e) = ok (1 ∷ [])
write (no e) = err cbor

pub write-known : {A : Type 0} (known : A) (d : Dec (known ≡ known)) → write d ≡ ok (1 ∷ [])
write-known known (yes e) = refl
write-known known (no e) = absurd (e refl)

pub written :
    {A : Type 0} (known a : A) (d : Dec (a ≡ known)) (raw : Bytes) → write d ≡ ok raw → known ≡ a
written known a (yes e) raw h = sym e
written known a (no e) raw h = cc

abbrev bytes_of : ℕ → ℕ → Bytes
bytes_of zero b = []
bytes_of (suc n) b = b ∷ bytes_of n b

abbrev pub key : Bytes
key = bytes_of 64 7

abbrev pub sig : Bytes
sig = bytes_of 64 9

abbrev pub message : CoseSign1
message = signed 42 1_700_000_000 0 (1 ∷ 2 ∷ []) key sig

abbrev pub coset : Coset
coset = record {
  from_slice = λ raw. ok (record message { original_data = some [] });
  to_vec = λ c. write (CoseSign1-discrete c message);
  header_to_vec = λ h. ok [];
  tbs_data = λ original h payload. 5 ∷ [];
}

pub coset_laws : CosetLaws coset
coset_laws = record {
  round_trip = λ c raw h. (
    [],
    refl,
    ap {A = CoseSign1} (λ x. ok (record x { original_data = some [] }))
        (written message c (CoseSign1-discrete c message) raw h),
  );
  original_header = λ h original payload e. refl;
}

-- Every key and every signature of the right shape verifies.
abbrev pub crypto : Crypto
crypto = record {
  is_key = λ k. length k == 65;
  is_signature = λ s. length s == 64;
  verify_prehash = λ k h s. true;
  keccak256 = λ b. b;
  sha256 = λ b. bytes_of 32 (length b);
}

pub message_written : coset.to_vec message ≡ ok (1 ∷ [])
message_written = write-known message (CoseSign1-discrete message message)

build_message :
    build_cose_sign1 coset 42 1_700_000_000 changeset (1 ∷ 2 ∷ []) key (λ raw. ok sig) ≡ ok (1 ∷ [])
unfolding build_cose_sign1 as_u8
build_message = message_written

built_verifies :
    verify_and_parse_cose_sign1 coset crypto (1 ∷ []) key
    ≡ ok (parsed 42 1_700_000_000 changeset (1 ∷ 2 ∷ []) key sig)
built_verifies =
    verify_and_parse-build coset crypto coset_laws 42 1_700_000_000 changeset (1 ∷ 2 ∷ []) key sig
      (λ raw. ok sig) (1 ∷ []) (omega arith) (omega arith) refl refl refl refl refl refl
      build_message

verify_and_parse_sound_example :
    (c : CoseSign1) × (coset.from_slice (1 ∷ []) ≡ ok c)
    × (parse_fields c ≡ ok (parsed 42 1_700_000_000 changeset (1 ∷ 2 ∷ []) key sig))
    × (key ≡ key)
    × (crypto.verify_prehash key (coset.tbs_data c.original_data c.protected c.payload) sig ≡ true)
verify_and_parse_sound_example =
    verify_and_parse_sound coset crypto (1 ∷ []) key
      (parsed 42 1_700_000_000 changeset (1 ∷ 2 ∷ []) key sig) built_verifies

abbrev signer : Bytes → Result Bytes CborError
signer raw = ok sig

abbrev pub batch : CborBatch
batch = record {
  version = 1;
  start_sequence = 42;
  end_sequence = 42;
  created_at = 1_700_000_100;
  content_hash = bytes_of 32 1;
  messages = (1 ∷ []) ∷ [];
  batch_signature = sig;
  pubkey = key;
}

new_batch_runs : new_batch crypto coset ((1 ∷ []) ∷ []) 1_700_000_100 key signer ≡ ok batch
unfolding new_batch extract_sequence
new_batch_runs = refl

batch_verifies : verify_batch_signature crypto batch ≡ ok tt
unfolding bytes_eq verify_batch_signature compute_content_hash verifying_key_from_bytes
    signature_from_bytes verify_secp256k1
batch_verifies = refl

abbrev ciborium : Ciborium
ciborium = record {
  into_writer = λ w. write (CborBatchWire-discrete w (to_wire batch));
  from_reader = λ raw. ok (to_wire batch);
}

ciborium_laws : CiboriumLaws ciborium
ciborium_laws = record {
  round_trip = λ w raw h.
      ap (λ x. ok x) (written (to_wire batch) w (CborBatchWire-discrete w (to_wire batch)) raw h);
}
