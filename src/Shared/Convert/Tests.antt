-- ===== src/Shared/Convert/Tests.antt =====
-- The conversion of a message, with small stand-ins for the crates.
use Prim.Native.Char.{code}
use synddb.Prelude.{
  ℕ, zero, suc, ◌+◌, true, false, String, Option, none, some, [], ◌∷◌, ok, ◌>>=◌, err, ◌==◌,
}
use synddb.Shared.Bytes.{Bytes}
use synddb.Shared.Cbor.Error.{cbor}
use synddb.Shared.Cbor.Cose.{Coset}
use synddb.Shared.Message.{Codec, SignedMessage, mapping}
use synddb.Shared.Cbor.CoseLaws.{parsed}
use synddb.Shared.Cbor.Error.{CborMessageType}
use synddb.Shared.Cbor.Tests.{crypto, message, key, sig, Header-discrete, write}
use synddb.Shared.Convert.{signed_message}
use synddb.Shared.Convert.Entries.{header_nodes}

-- A byte in unary, ended by another letter: a stand-in for hex.
unfoldable unary : ℕ → String → String
unary zero s = String.◌∷◌ "b" s
unary (suc n) s = String.◌∷◌ "a" (unary n s)

unfoldable encode : Bytes → String
encode [] = String.[]
encode (b ∷ bs) = unary b (encode bs)

abbrev cons_to : ℕ → Option Bytes → Option Bytes
cons_to n none = none
cons_to n (some bs) = some (n ∷ bs)

unfoldable decode_from : ℕ → String → Option Bytes
decode_from n String.[] = some []
decode_from n (String.◌∷◌ c s) = elim (code c == 97) [
  | true ↦ decode_from (n + 1) s
  | false ↦ cons_to n (decode_from 0 s)
]

abbrev codec : Codec
codec = record {
  decode = decode_from 0;
  from_reader = λ raw. some (mapping (header_nodes message.protected));
  array = λ items. 5 ∷ [];
}

-- A coset that knows one message.
abbrev coset : Coset
coset = record {
  from_slice = λ raw. ok (record message { original_data = some (1 ∷ []) });
  to_vec = λ c. err cbor;
  header_to_vec = λ h. write (Header-discrete h message.protected);
  tbs_data = λ original h payload. 5 ∷ [];
}

abbrev converted : SignedMessage
converted =
    signed_message coset crypto encode
      (parsed 42 1_700_000_000 CborMessageType.changeset (1 ∷ 2 ∷ []) key sig) (1 ∷ [])
