-- ===== src/Attestation/Tests.antt =====
-- The contract and its parts at concrete tokens, with small stand-ins for the hash and the precompiles.
use synddb.Prelude.{
  ℕ, zero, suc, ◌≡◌, refl, true, some, List, [], ◌∷◌, ◌++◌, length, ◌==◌, if◌then◌else◌, ok, arith,
}
use synddb.Shared.Bytes.{Bytes, ascii, be_bytes, from_be}
use synddb.Attestation.Base64.Laws.{encode, encode_digit}
use synddb.Attestation.Pkcs1.{verify_pkcs1v15_sha256}
use synddb.Attestation.Pkcs1.Laws.{padded_hash, verify_pkcs1v15_sha256_iff}
use synddb.Attestation.Json.{quoted, json_find_key, json_get_u64}
use synddb.Attestation.Jwt.{parse_jwt}
use synddb.Attestation.Jwt.Laws.{parse_jwt-encode}
use synddb.Attestation.Json.Keys.{first_key, json_find_key-first}
use synddb.Attestation.Json.Values.{json_get_u64-decimal}
use synddb.Attestation.Verifier.Sound.{Attested, verify_attestation_proof_iff}
use synddb.Attestation.Admin.Laws.{
  Call, initializes, adds_jwk, removes_jwk, transact_all, Settled, transact_all-Settled,
}
use synddb.Attestation.State.{PublicValuesStruct, StylusProofData, StylusAttestationVerifier, Vm}
use synddb.Attestation.Verifier.{verify_decoded, verify_attestation_proof}

abbrev zeros : ℕ → Bytes
zeros zero = []
zeros (suc n) = 0 ∷ zeros n

abbrev header : Bytes
header = ascii "{\"alg\":\"RS256\",\"kid\":\"k\"}"

abbrev payload : Bytes
payload =
    ascii "{\"iss\":\"https://confidentialcomputing.googleapis.com\",\"iat\":5,\"exp\":9,"
    ++ ascii
        "\"aud\":\"aa\",\"secboot\":true,\"dbgstat\":\"disabled-since-boot\",\"image_digest\":\"ddd\"}"

abbrev values : PublicValuesStruct
values = record {
  jwk_key_hash = 1;
  validity_window_start = 5;
  validity_window_end = 9;
  image_digest_hash = 3;
  tee_signing_key = 77;
  secboot = true;
  dbgstat_disabled = true;
  audience_hash = 2;
  image_signature_v = 27;
  image_signature_r = 1;
  image_signature_s = 1;
}

abbrev proof : StylusProofData
proof = record {
  jwt = encode header ++ 46 ∷ (encode payload ++ 46 ∷ encode (7 ∷ []));
  jwk_modulus = zeros 6;
  jwk_exponent = zeros 3;
}

-- The hash is the length; whatever is signed has the hash of zeros; the signer is 4.
abbrev vm : Vm
vm = record {
  msg_sender = 8;
  block_timestamp = 10;
  native_keccak256 = λ b. length b;
  static_call = λ address input.
      if address == 1
      then some (be_bytes 32 4)
      else if address == 2
      then some (zeros 32)
      else some (padded_hash 8 (zeros 32));
  decode_values = λ b. some values;
  decode_proof = λ b. some proof;
}

abbrev contract : StylusAttestationVerifier
contract = record {
  owner = 8;
  initialized = true;
  expiration_tolerance = 60;
  trusted_jwk_hashes = λ k. k == 1;
  jwk_key_material_hashes = λ k. if k == 1 then 9 else 0;
  allowed_image_digest_hashes = λ d. d == 3;
  trusted_image_signers = λ a. a == 4;
  logs = [];
}

verified : verify_attestation_proof vm contract [] [] ≡ ok 77
unfolding verify_attestation_proof encode encode_digit be_bytes from_be
verified = refl

verified_values : verify_decoded vm contract values proof ≡ ok 77
unfolding verify_decoded encode encode_digit be_bytes from_be
verified_values = refl

verify_attestation_proof_iff_example :
    (v : PublicValuesStruct) × (p : StylusProofData) × (vm.decode_values [] ≡ some v)
    × (vm.decode_proof [] ≡ some p)
    × Attested vm contract v p
    × (77 ≡ v.tee_signing_key)
verify_attestation_proof_iff_example =
    (verify_attestation_proof_iff vm contract [] [] 77).0 verified

verify_pkcs1v15_sha256_iff_example :
    verify_pkcs1v15_sha256 (padded_hash 8 (zeros 32)) (zeros 32) ≡ true
verify_pkcs1v15_sha256_iff_example =
    (verify_pkcs1v15_sha256_iff (padded_hash 8 (zeros 32)) (zeros 32) refl).1 (8, omega arith, refl)

parse_jwt-encode_example :
    parse_jwt (encode (1 ∷ 2 ∷ []) ++ 46 ∷ (encode (3 ∷ []) ++ 46 ∷ encode (255 ∷ 0 ∷ 9 ∷ [])))
    ≡ ok (record {
      header_json = 1 ∷ 2 ∷ [];
      payload_json = 3 ∷ [];
      signature = 255 ∷ 0 ∷ 9 ∷ [];
      signing_input = encode (1 ∷ 2 ∷ []) ++ 46 ∷ encode (3 ∷ []);
    })
parse_jwt-encode_example =
    parse_jwt-encode (1 ∷ 2 ∷ []) (3 ∷ []) (255 ∷ 0 ∷ 9 ∷ []) (omega arith) (omega arith)
      (omega arith)

json_find_key-first_example :
    json_find_key payload (ascii "iat") ≡ first_key (quoted (ascii "iat")) payload
json_find_key-first_example = json_find_key-first payload (ascii "iat")

abbrev number : Bytes
number = ascii "{\"n\": 120}"

number_found : json_find_key number (ascii "n") ≡ some (ascii " 120}")
unfolding json_find_key
number_found = refl

json_get_u64-decimal_example : json_get_u64 number (ascii "n") ≡ some 120
json_get_u64-decimal_example =
    json_get_u64-decimal number (ascii "n") (32 ∷ []) (125 ∷ []) 49 (50 ∷ 48 ∷ []) number_found
      (refl, tt) (refl, (refl, (refl, tt))) refl

-- Two calls by another account, and one by the owner that initializes again.
abbrev calls : List (Vm × Call)
calls =
    (record vm { msg_sender = 3 }, adds_jwk 1 5)
    ∷ (record vm { msg_sender = 3 }, removes_jwk 1)
    ∷ (vm, initializes 7)
    ∷ []

transact_all-Settled_example : Settled contract (transact_all calls contract)
transact_all-Settled_example = (transact_all-Settled calls contract refl).0
