-- ===== src/Shared/Convert/Laws.antt =====
-- What the validator checks of a converted message holds.
use Prim.Native.String.{◌++◌ as text_append}
use synddb.Prelude.{ℕ, ◌≤◌, ◌≡◌, String, Option, some, [], ◌∷◌, ok}
use synddb.Shared.Bytes.{Bytes}
use synddb.Shared.Cbor.Crypto.{Crypto}
use synddb.Shared.Cbor.Cose.{Coset, negsuc, CoseSign1, Header, or_default}
use synddb.Shared.Message.{Codec, mapping, text_item, bytes_item}
use synddb.Shared.Convert.Entries.{header_nodes, occurrences}

-- What the crates promise of each other's encodings: hex decodes what it encodes; coset rejects a
-- header with a label twice; ciborium reads the header that coset writes; and the `Sig_structure` of a
-- message that coset decoded is the array of the original bytes of its header that the validator
-- encodes, an absent payload being empty.
pub record ConvertLaws (coset : Coset) (codec : Codec) (encode : Bytes → String) : Type 0 where
  pub hex : (b : Bytes) → codec.decode (encode b) ≡ some b
  pub distinct :
      (raw : Bytes) (c : CoseSign1) (n : ℕ)
      → coset.from_slice raw ≡ ok c
      → occurrences (negsuc n) c.protected.rest ≤ 1
  pub header_read :
      (h : Header) (raw : Bytes)
      → coset.header_to_vec h ≡ ok raw
      → codec.from_reader raw ≡ some (mapping (header_nodes h))
  pub sig_structure :
      (h : Header) (raw : Bytes) (payload : Option Bytes)
      → coset.tbs_data (some raw) h payload
        ≡ codec.array (
            text_item "Signature1"
            ∷ bytes_item raw
            ∷ bytes_item []
            ∷ bytes_item (or_default payload)
            ∷ [])
