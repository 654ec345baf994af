-- ===== src/Shared/Message/Tests.antt =====
-- Messages and batches at concrete bytes, with small stand-ins for the crates.
use synddb.Prelude.{
  ◌≢◌, ap, Bool, false, inl, ℕ, zero, suc, ◌≡◌, refl, true, String, some, [], ◌∷◌, ok, err,
}
use synddb.Shared.Bytes.{Bytes}
use synddb.Shared.Cbor.Crypto.{Crypto}
use synddb.Shared.Cbor.Cose.{int_eq, pos, header_sequence, header_timestamp}
use synddb.Shared.Message.{
  SignedMessage, SignedBatch, MessageType, changeset, snapshot, Codec, Node, other_node, mapping,
  integer, verify_signature, parse_cose_protected_header_fields, field_from, header_mismatch,
}
use synddb.Shared.Message.Laws.{verify_signature_iff}

abbrev pub zeros : ℕ → Bytes
zeros zero = []
zeros (suc n) = 0 ∷ zeros n

abbrev head_or_zero : Bytes → ℕ
head_or_zero [] = 0
head_or_zero (b ∷ bs) = b

abbrev pub crypto : Crypto
crypto = record {
  is_key = λ k. true;
  is_signature = λ s. true;
  verify_prehash = λ k h s. true;
  keccak256 = λ b. b;
  sha256 = λ b. b;
}

-- Every text decodes to 64 zeros. A header is one byte, its sequence, and its timestamp is 7.
abbrev pub codec : Codec
codec = record {
  decode = λ s. some (zeros 64);
  from_reader = λ raw. some (
      mapping (
        (integer header_sequence, integer (pos (head_or_zero raw)))
        ∷ (integer header_timestamp, integer (pos 7))
        ∷ []));
  array = λ items. [];
}

abbrev pub signer : String
signer =
    "0x00000000000000000000000000000000000000000000000000000000000000000000000000000000000000000000000000000000000000000000000000000000"

abbrev pub message : ℕ → MessageType → SignedMessage
message n t = record {
  sequence = n;
  timestamp = 7;
  message_type = t;
  payload = n ∷ [];
  message_hash = "";
  signature = "0x00";
  signer = signer;
  cose_protected_header = n ∷ [];
}

abbrev pub batch : SignedBatch
batch = record {
  start_sequence = 1;
  end_sequence = 2;
  messages = message 1 changeset ∷ message 2 snapshot ∷ [];
  batch_signature = "0x00";
  signer = signer;
  created_at = 9;
  content_hash = [];
}

-- A sequence other than the header's is refused.
substituted :
    verify_signature codec crypto (record (message 1 changeset) { sequence = 2 })
    ≡ err (header_mismatch "sequence" 2 1)
unfolding verify_signature parse_cose_protected_header_fields field_from
substituted = refl

abbrev is_sequence : Node → Bool
is_sequence (integer label) = int_eq label header_sequence
is_sequence other_node = false

apart : integer header_timestamp ≢ integer header_sequence
apart e = let f : false ≡ true = ap is_sequence e in absurd cc

verify_signature_iff_example : verify_signature codec crypto (message 1 changeset) ≡ ok tt
verify_signature_iff_example = (verify_signature_iff codec crypto (message 1 changeset)).1 (
  (_, refl, ([], pos 1, _, refl, refl, (inl apart, tt)), (_ ∷ [], pos 7, [], refl, refl, tt)),
  (zeros 64, zeros 64, refl, refl, refl, refl, refl, refl, refl),
)
