-- ===== src/Sequencer/Inbox/Sequenced.antt =====
-- What the inbox sequences is what a receiver verifies.
use synddb.Prelude.{ℕ, ◌+◌, ◌%◌, ◌<◌, ◌∷◌, ◌≡◌, refl, true, none, some, length, Result, ok, u64_mod}
use synddb.Shared.Bytes.{Bytes}
use synddb.Shared.Cbor.Error.{CborError, CborMessageType, as_u8}
use synddb.Shared.Cbor.Crypto.{Crypto, verifying_key_from_bytes, signature_from_bytes}
use synddb.Shared.Cbor.Cose.{
  Coset, protected_header, build_cose_sign1, parse_cose_sign1, verify_and_parse_cose_sign1,
}
use synddb.Shared.Cbor.CoseLaws.{
  CosetLaws, signed, parsed, parse_fields_low_byte, as_u8-low, as_u8-lt, verify_and_parse-build,
}
use synddb.Sequencer.Inbox.{Inbox, Tools, SequenceReceipt, hex_text, sign_cose, sequence_message}

module _ (coset : Coset) (crypto : Crypto) (tools : Tools) where
  abbrev pub digest : ℕ → ℕ → CborMessageType → Bytes → Bytes
  digest sequence now t payload = crypto.keccak256 (
      coset.tbs_data none (protected_header sequence now t) (some (tools.compress_payload payload)))

  abbrev pub receipt_for : ℕ → ℕ → Bytes → Bytes → SequenceReceipt
  receipt_for sequence now payload signature = record {
    sequence = sequence;
    timestamp = now;
    message_hash = hex_text coset crypto tools (crypto.keccak256 (tools.compress_payload payload));
    signature = hex_text coset crypto tools signature;
    signer = hex_text coset crypto tools tools.public_key;
  }

  signs :
      (data' signature : Bytes)
      → tools.sign_raw_sync (crypto.keccak256 data') ≡ some signature
      → crypto.is_signature signature ≡ true
      → sign_cose coset crypto tools data' ≡ ok signature
  unfolding sign_cose signature_from_bytes
  signs data' signature h sig = rw h (rw sig refl)

  known :
      (pubkey : Bytes)
      → crypto.is_key (4 ∷ pubkey) ≡ true
      → verifying_key_from_bytes crypto pubkey ≡ ok pubkey
  unfolding verifying_key_from_bytes
  known pubkey h = rw h refl

  builds :
      (sequence now : ℕ) (t : CborMessageType) (payload pubkey signature raw : Bytes)
      (sign_fn : Bytes → Result Bytes CborError)
      → sign_fn (coset.tbs_data none (protected_header sequence now t) (some payload))
        ≡ ok signature
      → coset.to_vec (signed sequence now (as_u8 t) payload pubkey signature) ≡ ok raw
      → build_cose_sign1 coset sequence now t payload pubkey sign_fn ≡ ok raw
  unfolding build_cose_sign1
  builds sequence now t payload pubkey signature raw sign_fn s w = rw s w

  parses :
      (laws : CosetLaws coset) (sequence now : ℕ) (t : CborMessageType)
      (payload pubkey signature raw : Bytes)
      → sequence < u64_mod
      → now < u64_mod
      → length pubkey ≡ 64
      → length signature ≡ 64
      → coset.to_vec (signed sequence now (as_u8 t) payload pubkey signature) ≡ ok raw
      → parse_cose_sign1 coset raw ≡ ok (parsed sequence now t payload pubkey signature)
  unfolding parse_cose_sign1
  parses laws sequence now t payload pubkey signature raw hs hn hp hg w =
      let (original, written, read) = laws.round_trip _ raw w in
      rw read (
        parse_fields_low_byte sequence now (as_u8 t) t payload pubkey signature hs hn (as_u8-lt t)
          hp hg (as_u8-low t))

  -- If the key is a valid one of 64 bytes, the key manager signs the digest of the message with a
  -- signature of 64 bytes that is good for that key, and the message can be serialized, then
  -- sequencing it succeeds: the counter goes up by one, the receipt has the sequence that the counter
  -- showed, the time, the hash and the signature, and a receiver that expects the key verifies the
  -- message and reads back that sequence, the time, the type and the compressed payload.
  pub sequence_message-verifies :
      (laws : CosetLaws coset) (now : ℕ) (t : CborMessageType) (payload signature raw : Bytes)
      (inbox : Inbox)
      → inbox.sequence < u64_mod
      → now < u64_mod
      → length tools.public_key ≡ 64
      → length signature ≡ 64
      → crypto.is_key (4 ∷ tools.public_key) ≡ true
      → crypto.is_signature signature ≡ true
      → tools.sign_raw_sync (digest inbox.sequence now t payload) ≡ some signature
      → crypto.verify_prehash tools.public_key (digest inbox.sequence now t payload) signature
        ≡ true
      → coset.to_vec (
          signed inbox.sequence now
            (as_u8 t)
            (tools.compress_payload payload)
            tools.public_key
            signature)
        ≡ ok raw
      → (sequence_message coset crypto tools now t payload inbox ≡ (
        record { sequence = (inbox.sequence + 1) % u64_mod },
        ok (raw, receipt_for inbox.sequence now payload signature),
      ))
        × (verify_and_parse_cose_sign1 coset crypto raw tools.public_key
            ≡ ok (
                parsed inbox.sequence now t
                  (tools.compress_payload payload)
                  tools.public_key
                  signature))
  unfolding sequence_message
  sequence_message-verifies laws now t payload signature raw inbox hs hn hp hg key sig s good w =
      let s' = signs _ signature s sig in
      let built =
        builds inbox.sequence now t (tools.compress_payload payload) tools.public_key signature raw
          (sign_cose coset crypto tools) s' w in
      let read =
        parses laws inbox.sequence now t (tools.compress_payload payload) tools.public_key signature
          raw hs hn hp hg w in
      let k : verifying_key_from_bytes crypto tools.public_key ≡ ok tools.public_key =
        known tools.public_key key in
      (
        rw (k, sequence_message) (rw (built, sequence_message) (rw (read, sequence_message) refl)),
        verify_and_parse-build coset crypto laws inbox.sequence now t
            (tools.compress_payload payload) tools.public_key signature
            (sign_cose coset crypto tools) raw hs hn hp hg key sig good s' built,
      )
