-- ===== src/Shared/Message/Laws.antt =====
-- What a verified message and a verified batch guarantee.
use synddb.Prelude.{
  ◌≡◌, refl, ap, ◌∙◌, true, String, Option, some, List, [], ◌∷◌, arith, length, ok, bind-ok, All,
  ◌↔◌,
}
use synddb.Shared.Bytes.{Bytes}
use synddb.Shared.Cbor.Crypto.{
  Crypto, verifying_key_from_bytes, signature_from_bytes, verify_secp256k1,
}
use synddb.Shared.Message.Header.{HeaderIs, parse-HeaderIs, HeaderIs-parse}
use synddb.Shared.Message.{
  text_item, bytes_item, VerificationError, SignedMessage, SignedBatch, Codec, strip_0x, decode_64,
  same_field, build_cose_sig_structure, parse_cose_protected_header_fields, check_signature,
  verify_signature, signing_payload, verify_batch_signature, verify_each, verify_all_signatures,
}

module _ (codec : Codec) (crypto : Crypto) where
  -- The texts decode to a 64-byte key and a 64-byte signature of the message by the key.
  abbrev pub SignedBy : Bytes → String → String → Type 0
  SignedBy message signer signature =
      (key sig : Bytes) × (codec.decode (strip_0x signer) ≡ some key)
      × (length key ≡ 64)
      × (codec.decode (strip_0x signature) ≡ some sig)
      × (length sig ≡ 64)
      × (crypto.is_key (4 ∷ key) ≡ true)
      × (crypto.is_signature sig ≡ true)
      × (crypto.verify_prehash key (crypto.keccak256 message) sig ≡ true)

  signed_by :
      (message : Bytes) (signer signature : String) (key sig : Bytes)
      → decode_64 VerificationError.invalid_public_key (codec.decode (strip_0x signer)) ≡ ok key
      → decode_64 VerificationError.invalid_signature (codec.decode (strip_0x signature)) ≡ ok sig
      → check_signature codec crypto message sig key ≡ ok tt
      → SignedBy message signer signature
  unfolding check_signature signature_from_bytes verifying_key_from_bytes verify_secp256k1
  signed_by message signer signature key sig k s c = (
    key,
    sig,
    ground arith,
    ground arith,
    ground arith,
    ground arith,
    ground arith,
    ground arith,
    ground arith,
  )

  decoded :
      (e : VerificationError) (o : Option Bytes) (b : Bytes)
      → o ≡ some b
      → length b ≡ 64
      → decode_64 e o ≡ ok b
  decoded e o b p l = ground arith

  checked :
      (message key sig : Bytes)
      → crypto.is_key (4 ∷ key) ≡ true
      → crypto.is_signature sig ≡ true
      → crypto.verify_prehash key (crypto.keccak256 message) sig ≡ true
      → check_signature codec crypto message sig key ≡ ok tt
  unfolding check_signature signature_from_bytes verifying_key_from_bytes verify_secp256k1
  checked message key sig k s v = ground arith

  parts :
      (m : SignedMessage)
      → verify_signature codec crypto m ≡ ok tt
      → (parse_cose_protected_header_fields codec crypto m.cose_protected_header
          ≡ ok (m.sequence, m.timestamp))
        × SignedBy
            (build_cose_sig_structure codec crypto m.cose_protected_header m.payload)
            m.signer
            m.signature
  unfolding verify_signature
  parts m h =
      let (header, parsed, h1) =
        bind-ok (parse_cose_protected_header_fields codec crypto m.cose_protected_header) _ tt h in
      let (_, sequence, h2) = bind-ok (same_field "sequence" m.sequence header.0) _ tt h1 in
      let (_, timestamp, h3) = bind-ok (same_field "timestamp" m.timestamp header.1) _ tt h2 in
      let (sig, s, h4) =
        bind-ok
          (decode_64 VerificationError.invalid_signature (codec.decode (strip_0x m.signature))) _ tt
          h3 in
      let (key, k, h5) =
        bind-ok (decode_64 VerificationError.invalid_public_key (codec.decode (strip_0x m.signer)))
          _ tt h4 in
      let es : header.0 ≡ m.sequence = ground arith in
      let et : header.1 ≡ m.timestamp = ground arith in
      let same : header ≡ (m.sequence, m.timestamp) = cc in
      (parsed ∙ ap ok same, signed_by _ m.signer m.signature key sig k s h5)

  pub verify_signature-signed :
      (m : SignedMessage)
      → parse_cose_protected_header_fields codec crypto m.cose_protected_header
        ≡ ok (m.sequence, m.timestamp)
      → SignedBy
          (build_cose_sig_structure codec crypto m.cose_protected_header m.payload)
          m.signer
          m.signature
      → verify_signature codec crypto m ≡ ok tt
  unfolding verify_signature
  verify_signature-signed m e (key, sig, k, lk, s, ls, valid, form, good) =
      let c =
        checked (build_cose_sig_structure codec crypto m.cose_protected_header m.payload) key sig
          valid form good in
      let dk = decoded VerificationError.invalid_public_key _ key k lk in
      let ds = decoded VerificationError.invalid_signature _ sig s ls in ground arith

  -- A message verifies exactly when its protected header is a map whose last integers under the two
  -- labels are its sequence and timestamp, and its signature text is a signature, by the key of its
  -- signer text, of the array of "Signature1", the protected header, no external data and the payload.
  -- Nothing is asked of its type and its message hash.
  pub verify_signature_iff :
      (m : SignedMessage)
      → (verify_signature codec crypto m ≡ ok tt) ↔ (
          HeaderIs codec m.cose_protected_header m.sequence m.timestamp
          × SignedBy
              (codec.array (
                text_item "Signature1"
                ∷ bytes_item m.cose_protected_header
                ∷ bytes_item []
                ∷ bytes_item m.payload
                ∷ []))
              m.signer
              m.signature)
  unfolding build_cose_sig_structure
  verify_signature_iff m = (
    λ h.
        let (parsed, signed) = parts m h in
        (parse-HeaderIs codec crypto m.cose_protected_header m.sequence m.timestamp parsed, signed),
    λ (header, signed).
        verify_signature-signed m
          (HeaderIs-parse codec crypto m.cose_protected_header m.sequence m.timestamp header)
          signed,
  )

  batch_parts :
      (b : SignedBatch)
      → verify_batch_signature codec crypto b ≡ ok tt
      → SignedBy (signing_payload codec crypto b) b.signer b.batch_signature
  unfolding verify_batch_signature
  batch_parts b h =
      let (key, k, h1) =
        bind-ok (decode_64 VerificationError.invalid_public_key (codec.decode (strip_0x b.signer)))
          _ tt h in
      let (sig, s, h2) =
        bind-ok
          (decode_64 VerificationError.invalid_signature
            (codec.decode (strip_0x b.batch_signature)))
          _ tt h1 in
      signed_by _ b.signer b.batch_signature key sig k s h2

  batch_whole :
      (b : SignedBatch)
      → SignedBy (signing_payload codec crypto b) b.signer b.batch_signature
      → verify_batch_signature codec crypto b ≡ ok tt
  unfolding verify_batch_signature
  batch_whole b (key, sig, k, lk, s, ls, valid, form, good) =
      let c = checked (signing_payload codec crypto b) key sig valid form good in
      let dk = decoded VerificationError.invalid_public_key _ key k lk in
      let ds = decoded VerificationError.invalid_signature _ sig s ls in ground arith

  each_parts :
      (ms : List SignedMessage)
      → verify_each codec crypto ms ≡ ok tt
      → All (λ m. verify_signature codec crypto m ≡ ok tt) ms
  unfolding verify_each
  each_parts [] h = tt
  each_parts (m ∷ ms) h =
      let (_, first, rest) = bind-ok (verify_signature codec crypto m) _ tt h in
      (first, each_parts ms rest)

  each_whole :
      (ms : List SignedMessage)
      → All (λ m. verify_signature codec crypto m ≡ ok tt) ms
      → verify_each codec crypto ms ≡ ok tt
  unfolding verify_each
  each_whole [] h = refl
  each_whole (m ∷ ms) h = rw (h.0, verify_each) (each_whole ms h.1)

  -- A batch verifies exactly when its batch signature is a signature, by the key of its signer text,
  -- of the hash of its bounds and content hash, and every message verifies.
  verify_all_signatures_iff :
      (b : SignedBatch)
      → (verify_all_signatures codec crypto b ≡ ok tt) ↔ (
          SignedBy (signing_payload codec crypto b) b.signer b.batch_signature
          × All (λ m. verify_signature codec crypto m ≡ ok tt) b.messages)
  unfolding verify_all_signatures
  verify_all_signatures_iff b = (
    λ h.
        let (_, first, rest) = bind-ok (verify_batch_signature codec crypto b) _ tt h in
        (batch_parts b first, each_parts b.messages rest),
    λ h.
        let first = batch_whole b h.0 in
        let rest = each_whole b.messages h.1 in rw (first, verify_all_signatures) rest,
  )
