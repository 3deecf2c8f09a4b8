-- ===== src/Services/ExtraData.antt =====
-- ove_extra_data_service.go: the extra data of a voucher entry, as a map from int keys to CBOR.
use go_fdo_voucher_managemen.Prelude.{
  ℕ, String, Bool, not, Option, none, some, List, [], ◌∷◌, ◌==◌, if◌then◌else◌,
}
use go_fdo_voucher_managemen.Prelude.Int.{ℤ, eq_ℤ}
use go_fdo_voucher_managemen.Backend.{Result, ok, err}
use go_fdo_voucher_managemen.Environment.{Environment}
use go_fdo_voucher_managemen.Services.{execute}
use go_fdo_voucher_managemen.Services.Hash.{hash_string}
use go_fdo_voucher_managemen.Wire.{JsonField, JsonValue, EncodedField, EncodedValue}

-- the fetching service: `enabled`, and the command's template
pub record OveExtraDataService : Type 0 where
  pub enabled : Bool
  pub template : String

-- `m[key] = value`
abbrev pub put_key : ℤ → String → List (ℤ × String) → List (ℤ × String)
put_key key value [] = (key, value) ∷ []
put_key key value ((k, v) ∷ rest) =
    let tail = put_key key value rest in if eq_ℤ k key then (key, value) ∷ rest else (k, v) ∷ tail

module _ (env : Environment) where
  abbrev pub encode_field : JsonField env.Float env.OtherJson → EncodedField env.OtherJson
  encode_field (JsonField.number f) = EncodedField.text (env.format_float f)
  encode_field (JsonField.other o) = EncodedField.raw o

  abbrev pub encode_fields :
      List (String × JsonField env.Float env.OtherJson) → List (String × EncodedField env.OtherJson)
  encode_fields [] = []
  encode_fields ((k, v) ∷ rest) = (k, encode_field v) ∷ encode_fields rest

  abbrev pub encode_value : JsonValue env.Float env.OtherJson → EncodedValue env.OtherJson
  encode_value (JsonValue.number f) = EncodedValue.text (env.format_float f)
  encode_value (JsonValue.object o) = EncodedValue.fields (encode_fields o)
  encode_value (JsonValue.other o) = EncodedValue.raw o

  abbrev pub key_or_hash : String → Option ℤ → ℤ
  key_or_hash key none = hash_string key
  key_or_hash key (some n) = n

  abbrev pub and_then : ℤ → Result String → (List (ℤ × String)) → Result (List (ℤ × String))
  and_then key (err e) pairs = err e
  and_then key (ok bytes) pairs = ok (put_key key bytes pairs)

  abbrev pub bind_data :
      Result (List (ℤ × String))
      → (List (ℤ × String) → Result (List (ℤ × String)))
      → Result (List (ℤ × String))
  bind_data (err e) f = err e
  bind_data (ok pairs) f = f pairs

  -- each pair in turn, in the order that the map gives them; a later one replaces an earlier one
  unfoldable pub encode_pairs :
      List (ℤ × String)
      → List (String × JsonValue env.Float env.OtherJson)
      → Result (List (ℤ × String))
  encode_pairs made [] = ok made
  encode_pairs made ((key, value) ∷ rest) =
      bind_data
        (and_then (key_or_hash key (env.parse_int64 key)) (env.marshal_value (encode_value value))
          made)
        (λ more. encode_pairs more rest)

  abbrev pub decode_pairs :
      Result (List (String × JsonValue env.Float env.OtherJson)) → Result (List (ℤ × String))
  decode_pairs (err e) = err e
  decode_pairs (ok pairs) = encode_pairs [] pairs

  unfoldable pub fetch_extra_data : OveExtraDataService → ℕ → String → String → Result String
  fetch_extra_data s now serial model =
      execute env now s.template (("serial", serial) ∷ ("model", model) ∷ [])

  abbrev pub data_of : Result String → Result (List (ℤ × String))
  data_of (err e) = err e
  data_of (ok json) = if json == "" then ok [] else decode_pairs (env.decode_extra json)

  -- a nil map is the empty one
  unfoldable pub get_ove_extra_data :
      OveExtraDataService → ℕ → String → String → Result (List (ℤ × String))
  unfolding encode_pairs fetch_extra_data
  get_ove_extra_data s now serial model =
      if not s.enabled then ok [] else data_of (fetch_extra_data s now serial model)
