-- ===== src/Wire.antt =====
-- The JSON texts that the operator's commands print: owner_key_service.go, and the values that
-- ove_extra_data_service.go tells apart.
use go_fdo_voucher_managemen.Prelude.{String, List}

-- `OwnerKeyResponse`, "" where a key is absent
pub record OwnerKeyResponse : Type 0 where
  pub owner_key_pem : String
  pub owner_did : String
  pub error : String

-- the value of a key inside an object, where `F` is float64 and `O` any other type
pub data JsonField (F O : Type 0) : Type 0 where
  number : F → JsonField F O
  other : O → JsonField F O

pub data JsonValue (F O : Type 0) : Type 0 where
  number : F → JsonValue F O
  object : List (String × JsonField F O) → JsonValue F O
  other : O → JsonValue F O

-- what cbor.Marshal is given: a number is a text by then
pub data EncodedField (O : Type 0) : Type 0 where
  text : String → EncodedField O
  raw : O → EncodedField O

pub data EncodedValue (O : Type 0) : Type 0 where
  text : String → EncodedValue O
  fields : List (String × EncodedField O) → EncodedValue O
  raw : O → EncodedValue O
