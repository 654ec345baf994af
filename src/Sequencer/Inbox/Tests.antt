-- ===== src/Sequencer/Inbox/Tests.antt =====
-- The inbox at a concrete message.
use synddb.Prelude.{some, [], ◌∷◌, ok, ◌≡◌, refl, arith}
use synddb.Shared.Cbor.Error.{changeset, as_u8}
use synddb.Shared.Cbor.Cose.{verify_and_parse_cose_sign1}
use synddb.Shared.Cbor.CoseLaws.{parsed}
use synddb.Shared.Cbor.Tests.{key, sig, coset, coset_laws, crypto, message_written}
use synddb.Sequencer.Inbox.{Tools, with_start_sequence, sequence_message}
use synddb.Sequencer.Inbox.Sequenced.{receipt_for, sequence_message-verifies}

abbrev tools : Tools
tools = record {
  public_key = key;
  sign_raw_sync = λ digest. some sig;
  compress_payload = λ payload. payload;
  encode = λ raw. "00";
}

sequence_message-verifies_example :
    (sequence_message coset crypto tools 1_700_000_000 changeset
        (1 ∷ 2 ∷ [])
        (with_start_sequence 42)
      ≡ (
        with_start_sequence 43,
        ok (1 ∷ [], receipt_for coset crypto tools 42 1_700_000_000 (1 ∷ 2 ∷ []) sig),
      ))
    × (verify_and_parse_cose_sign1 coset crypto (1 ∷ []) key
        ≡ ok (parsed 42 1_700_000_000 changeset (1 ∷ 2 ∷ []) key sig))
unfolding as_u8
sequence_message-verifies_example =
    sequence_message-verifies coset crypto tools coset_laws 1_700_000_000 changeset (1 ∷ 2 ∷ []) sig
      (1 ∷ []) (with_start_sequence 42) (omega arith) (omega arith) refl refl refl refl refl refl
      message_written
