-- ===== src/Shared/Cbor/Error.antt =====
-- crates/synddb-shared/src/types/cbor/error.rs, and the message types of message.rs.
-- The texts of the errors are not modelled.
use synddb.Prelude.{ℕ, ◌≡◌, refl, String, Result, ok, err, ◌==◌, if◌then◌else◌, arith}

pub data CborError : Type 0 where
  cbor cose signature_verification compression signing invalid_batch : CborError
  invalid_message_type : ℕ → CborError
  missing_header : String → CborError

pub data CborMessageType : Type 0 where
  changeset withdrawal snapshot : CborMessageType

unfoldable pub as_u8 : CborMessageType → ℕ
as_u8 changeset = 0
as_u8 withdrawal = 1
as_u8 snapshot = 2

unfoldable pub from_u8 : ℕ → Result CborMessageType CborError
from_u8 value =
    if value == 0
    then ok changeset
    else if value == 1
    then ok withdrawal
    else if value == 2
    then ok snapshot
    else err (invalid_message_type value)

-- Reading a type back from its code gives the type, and only the code of a type reads as it.
pub from_u8-as_u8 :
    (t : CborMessageType) (v : ℕ) → (from_u8 (as_u8 t) ≡ ok t) × (from_u8 v ≡ ok t → as_u8 t ≡ v)
unfolding from_u8 as_u8
from_u8-as_u8 changeset v = (refl, λ h. ground arith)
from_u8-as_u8 withdrawal v = (refl, λ h. ground arith)
from_u8-as_u8 snapshot v = (refl, λ h. ground arith)
