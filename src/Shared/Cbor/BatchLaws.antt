-- ===== src/Shared/Cbor/BatchLaws.antt =====
-- Batches: the wire format round-trips, a batch built with a good signature verifies, and the
-- signed bytes determine what they stand for.
use synddb.Prelude.{
  ℕ, ◌<◌, ◌≡◌, sym, ◌∙◌, true, List, [], ◌∷◌, length, Result, ok, arith, u64_mod, Result-cases, inl,
  inr,
}
use synddb.Shared.Bytes.{
  Bytes, bytes_eq→eq, bytes_eq_refl, be_bytes, be_bytes-injective, length-be_bytes, append_split,
}
use synddb.Shared.Cbor.Error.{CborError}
use synddb.Shared.Cbor.Crypto.{Crypto}
use synddb.Shared.Cbor.Cose.{Coset, extract_sequence}
use synddb.Shared.Cbor.Batch.{
  CborBatch, CborBatchWire, Ciborium, last_of, concat, signing_data, to_wire, to_cbor, from_cbor,
  compute_content_hash, compute_signing_payload, verify_batch_signature, new_batch,
}

pub record CiboriumLaws (codec : Ciborium) : Type 0 where
  pub round_trip :
      (w : CborBatchWire) (raw : Bytes)
      → codec.into_writer w ≡ ok raw
      → codec.from_reader raw ≡ ok w

-- A batch whose hash has 32 bytes and whose signature and key have 64 reads back from the bytes
-- that it is written to.
from_cbor-to_cbor :
    (codec : Ciborium) (laws : CiboriumLaws codec) (b : CborBatch) (raw : Bytes)
    → length b.content_hash ≡ 32
    → length b.batch_signature ≡ 64
    → length b.pubkey ≡ 64
    → to_cbor codec b ≡ ok raw
    → from_cbor codec raw ≡ ok b
unfolding from_cbor to_cbor
from_cbor-to_cbor codec laws b raw hh hs hp e = rw (laws.round_trip (to_wire b) raw e, hh, hs, hp)

-- The signed bytes determine the range and the content hash.
signing_data-injective :
    (s s' e e' : ℕ) (h h' : Bytes)
    → s < u64_mod
    → s' < u64_mod
    → e < u64_mod
    → e' < u64_mod
    → signing_data s e h ≡ signing_data s' e' h'
    → (s ≡ s') × (e ≡ e') × (h ≡ h')
unfolding signing_data
signing_data-injective s s' e e' h h' hs hs' he he' eq =
    let first =
      append_split (be_bytes 8 s) (be_bytes 8 s') _ _
        (length-be_bytes 8 s ∙ sym (length-be_bytes 8 s')) eq in
    let second =
      append_split (be_bytes 8 e) (be_bytes 8 e') h h'
        (length-be_bytes 8 e ∙ sym (length-be_bytes 8 e')) first.1 in
    (be_bytes-injective s s' hs hs' first.0, be_bytes-injective e e' he he' second.0, second.1)

module _ (crypto : Crypto) where
  -- A batch verifies exactly when its hash is that of its messages, its key and signature are well
  -- formed, and the signature is the key's over the hash of the signing payload.
  verify_batch_signature_iff :
      (b : CborBatch)
      → ((verify_batch_signature crypto b ≡ ok tt)
          → (compute_content_hash crypto b.messages ≡ b.content_hash)
            × (crypto.is_key (4 ∷ b.pubkey) ≡ true)
            × (crypto.is_signature b.batch_signature ≡ true)
            × (crypto.verify_prehash b.pubkey
                  (crypto.keccak256
                    (compute_signing_payload crypto b.start_sequence b.end_sequence b.content_hash))
                  b.batch_signature
                ≡ true))
        × ((compute_content_hash crypto b.messages ≡ b.content_hash)
            → crypto.is_key (4 ∷ b.pubkey) ≡ true
            → crypto.is_signature b.batch_signature ≡ true
            → crypto.verify_prehash b.pubkey
                (crypto.keccak256
                  (compute_signing_payload crypto b.start_sequence b.end_sequence b.content_hash))
                b.batch_signature
              ≡ true
            → verify_batch_signature crypto b ≡ ok tt)
  unfolding verify_batch_signature
  verify_batch_signature_iff b = (
    λ h. (
      ground (arith, bytes_eq→eq (crypto.sha256 (concat b.messages)) b.content_hash),
      ground arith,
      ground arith,
      ground arith,
    ),
    λ h k s v. ground (arith, bytes_eq_refl b.content_hash),
  )

  module _ (coset : Coset) where
    -- A new batch holds the messages given, in order, under the sequences of the first and the last,
    -- and verifies if the signer's signature does.
    new_batch_lem :
        (m : Bytes) (ms : List Bytes) (created_at : ℕ) (pubkey : Bytes)
        (sign_fn : Bytes → Result Bytes CborError) (b : CborBatch)
        → new_batch crypto coset (m ∷ ms) created_at pubkey sign_fn ≡ ok b
        → crypto.is_key (4 ∷ pubkey) ≡ true
        → ((raw signature : Bytes)
            → sign_fn raw ≡ ok signature
            → (crypto.is_signature signature ≡ true)
              × (crypto.verify_prehash pubkey (crypto.keccak256 raw) signature ≡ true))
        → (b.messages ≡ m ∷ ms)
          × (extract_sequence coset m ≡ ok b.start_sequence)
          × (extract_sequence coset (last_of m ms) ≡ ok b.end_sequence)
          × (verify_batch_signature crypto b ≡ ok tt)
    unfolding new_batch
    new_batch_lem m ms created_at pubkey sign_fn b h key good =
        elim (Result-cases (extract_sequence coset m)) [
          | inr (x, e) ↦ absurd (let bad = rw (e, new_batch) at h in cc)
          | inl (s, es) ↦ elim (Result-cases (extract_sequence coset (last_of m ms))) [
            | inr (x, e) ↦ absurd (let bad = rw (es, e, new_batch) at h in cc)
            | inl (t, et) ↦
                elim (Result-cases (
                  sign_fn
                    (compute_signing_payload crypto s t (compute_content_hash crypto (m ∷ ms))))) [
                      | inr (x, e) ↦ absurd (let bad = rw (es, et, e, new_batch) at h in cc)
                      | inl (g, eg) ↦
                          let h' = rw (es, et, eg, new_batch) at h in
                          let ok_g = good _ g eg in
                          let sound = (verify_batch_signature_iff b).1 in
                          (
                            ground arith,
                            ground arith,
                            ground arith,
                            sound (ground arith) (ground arith) (ground arith) (ground arith),
                          )
                    ]
          ]
        ]

    -- A new batch holds exactly the messages it was given.
    pub messages-new_batch :
        (ms : List Bytes) (created_at : ℕ) (pubkey : Bytes)
        (sign_fn : Bytes → Result Bytes CborError) (b : CborBatch)
        → new_batch crypto coset ms created_at pubkey sign_fn ≡ ok b
        → b.messages ≡ ms
    unfolding new_batch
    messages-new_batch [] created_at pubkey sign_fn b h = cc
    messages-new_batch (m ∷ ms) created_at pubkey sign_fn b h = ground arith

    -- A batch is built whenever its first and last message have a sequence and the signer signs.
    pub new_batch-total :
        (m : Bytes) (ms : List Bytes) (created_at : ℕ) (pubkey : Bytes)
        (sign_fn : Bytes → Result Bytes CborError) (s t : ℕ)
        → ((raw : Bytes) → (signature : Bytes) × (sign_fn raw ≡ ok signature))
        → extract_sequence coset m ≡ ok s
        → extract_sequence coset (last_of m ms) ≡ ok t
        → (b : CborBatch) × (new_batch crypto coset (m ∷ ms) created_at pubkey sign_fn ≡ ok b)
    unfolding new_batch
    new_batch-total m ms created_at pubkey sign_fn s t sign es et =
        let (g, eg) =
          sign (compute_signing_payload crypto s t (compute_content_hash crypto (m ∷ ms))) in
        (
          record {
            version = 1;
            start_sequence = s;
            end_sequence = t;
            created_at = created_at;
            content_hash = compute_content_hash crypto (m ∷ ms);
            messages = m ∷ ms;
            batch_signature = g;
            pubkey = pubkey;
          },
          rw (es, et, eg),
        )
