-- ===== src/Sequencer/Inbox.antt =====
-- crates/synddb-sequencer/src/inbox.rs: sequence numbers and COSE signatures of messages. The signer
-- of the alloy crate, the zstd and the hex crates are parameters; `fetch_add` is one step.
pub mod Sequenced
pub mod Tests
use Prim.Native.String.{◌++◌ as text_append}
use synddb.Prelude.{ℕ, ◌+◌, ◌%◌, String, Option, none, some, Result, ok, err, ◌>>=◌, u64_mod}
use synddb.Shared.Bytes.{Bytes}
use synddb.Shared.Cbor.Error.{CborError, CborMessageType, signing}
use synddb.Shared.Cbor.Crypto.{Crypto, verifying_key_from_bytes, signature_from_bytes}
use synddb.Shared.Cbor.Cose.{Coset, build_cose_sign1, parse_cose_sign1}

-- The texts of the errors are not modelled.
pub data InboxError : Type 0 where
  cbor : CborError → InboxError
  invalid_public_key : InboxError

pub record SequenceReceipt : Type 0 where
  pub sequence : ℕ
  pub timestamp : ℕ
  pub message_hash : String
  pub signature : String
  pub signer : String

-- What the inbox uses of the key manager, of zstd and of hex. A signature is given as r || s.
pub record Tools : Type 0 where
  pub public_key : Bytes
  pub sign_raw_sync : Bytes → Option Bytes
  pub compress_payload : Bytes → Bytes
  pub encode : Bytes → String

-- The counter; the key manager is in `Tools`.
pub record Inbox : Type 0 where
  pub sequence : ℕ

abbrev pub with_start_sequence : ℕ → Inbox
with_start_sequence start_sequence = record { sequence = start_sequence }

abbrev pub new : Inbox
new = with_start_sequence 0

abbrev pub current_sequence : Inbox → ℕ
current_sequence inbox = inbox.sequence

abbrev pub cbor_error : {A : Type 0} → Result A CborError → Result A InboxError
cbor_error (ok a) = ok a
cbor_error (err e) = err (cbor e)

abbrev pub key_error : {A : Type 0} → Result A CborError → Result A InboxError
key_error (ok a) = ok a
key_error (err e) = err invalid_public_key

module _ (coset : Coset) (crypto : Crypto) (tools : Tools) where
  abbrev pub hex_text : Bytes → String
  hex_text raw = text_append "0x" (tools.encode raw)

  abbrev pub raw_signature : Option Bytes → Result Bytes CborError
  raw_signature none = err signing
  raw_signature (some signature) = ok signature

  unfoldable pub sign_cose : Bytes → Result Bytes CborError
  unfolding signature_from_bytes
  sign_cose data' = do
    signature ← raw_signature (tools.sign_raw_sync (crypto.keccak256 data'))
    signature_from_bytes crypto signature

  -- The message and the receipt for a sequence.
  abbrev pub message_and_receipt :
      ℕ → ℕ → CborMessageType → Bytes → Result (Bytes × SequenceReceipt) InboxError
  message_and_receipt sequence now message_type payload =
      let compressed_payload = tools.compress_payload payload in
      do
        verifying_key ← key_error (verifying_key_from_bytes crypto tools.public_key)
        message ← cbor_error (
            build_cose_sign1 coset sequence now message_type compressed_payload verifying_key
              sign_cose)
        parsed ← cbor_error (parse_cose_sign1 coset message)
        ok (
          message,
          record {
            sequence = sequence;
            timestamp = now;
            message_hash = hex_text (crypto.keccak256 compressed_payload);
            signature = hex_text parsed.signature;
            signer = hex_text tools.public_key;
          },
        )

  -- The sequence is taken before anything that can fail.
  unfoldable pub sequence_message :
      ℕ → CborMessageType → Bytes → Inbox → Inbox × Result (Bytes × SequenceReceipt) InboxError
  unfolding sign_cose verifying_key_from_bytes build_cose_sign1 parse_cose_sign1
  sequence_message now message_type payload inbox = (
    record { sequence = (inbox.sequence + 1) % u64_mod },
    message_and_receipt inbox.sequence now message_type payload,
  )
