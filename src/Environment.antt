-- ===== src/Environment.antt =====
-- What the program calls and does not implement: the go-fdo library (vouchers, keys, DIDs, HTTP
-- transfer, FDOKeyAuth), SHA-256, the operator's shell commands and the random source. A call whose
-- answer may change from one time to the next takes the time of the call.
use go_fdo_voucher_managemen.Prelude.{ℕ, String, Option, List}
use go_fdo_voucher_managemen.Wire.{OwnerKeyResponse, JsonValue, EncodedValue}
use go_fdo_voucher_managemen.Prelude.Int.{ℤ}
use go_fdo_voucher_managemen.Backend.{Result}

-- the dynamic types that the `switch key := newOwnerKey.(type)` of the program tells apart
pub data KeyKind : Type 0 where
  ecdsa rsa certificates other_key : KeyKind

pub record Environment : Type 1 where
  pub Voucher : Type 0
  pub PublicKey : Type 0
  pub parse_voucher : String → Result Voucher  -- fdo.ParseVoucherString, on a file's contents
  pub format_voucher_pem : Voucher → Result String  -- fdo.FormatVoucherPEM
  pub guid_hex : Voucher → String  -- the header's GUID in hexadecimal
  pub device_info : Voucher → String  -- the header's device info
  pub cbor_marshal : Voucher → Result String  -- cbor.Marshal
  pub extend_voucher : Voucher → PublicKey → Result Voucher  -- fdo.ExtendVoucher, by the owner's key
  pub key_kind : PublicKey → KeyKind
  pub load_public_key_pem : String → Result PublicKey  -- did.LoadPublicKeyPEM
  pub fingerprint_fdo_hex : PublicKey → String  -- did.FingerprintFDOHex
  pub sha256_hex : String → String
  pub resolve_did : ℕ → String → Result (PublicKey × String)  -- did.Resolver.Resolve
  pub destination_command : ℕ → String → String → String → Result String  -- the callback's output
  pub authenticate : ℕ → String → Result (String × ℕ)  -- FDOKeyAuthClient: a token and its expiry
  pub send : ℕ → String → String → Voucher → Result (Unit {0})  -- HTTPPushSender.Push: URL, token
  pub rand_float : ℕ → ℕ  -- rand.Float64, in units of 2 ^ -53
  pub format_rfc3339 : ℕ → String  -- a time in UTC, as text
  pub OtherJson : Type 0  -- a JSON value that is neither a number nor an object
  pub Float : Type 0  -- float64
  pub run_shell : ℕ → String → Result String  -- `sh -c`, its output by strings.TrimSpace
  pub decode_owner_key : String → Result OwnerKeyResponse  -- json.Unmarshal
  pub decode_extra : String → Result (List (String × JsonValue Float OtherJson))  -- json.Unmarshal
  pub parse_int64 : String → Option ℤ  -- json.Number's Int64
  pub format_float : Float → String  -- fmt.Sprintf("%.6f")
  pub marshal_value : EncodedValue OtherJson → Result String  -- cbor.Marshal
  pub extend_voucher_with : Voucher → PublicKey → List (ℤ × String) → Result Voucher  -- ExtendVoucher
  pub manufacturer_key : Voucher → Result PublicKey  -- the header's ManufacturerKey.Public
  pub owner_public_key : Voucher → Result (Option PublicKey)  -- OwnerPublicKey, a nil key as `none`
  pub format_cbor_pem : String → String  -- fdo.FormatVoucherCBORToPEM
  pub export_public_key_pem : PublicKey → Result String  -- did.ExportPublicKeyPEM
  pub web_did_to_url : String → Result String  -- did.WebDIDToURL
  pub fetch_document : ℕ → String → Result String  -- the body of a GET, "" for another status than 200
  pub decode_services : String → Result (List (String × String))  -- a DID document's types and URLs
  pub holder_service_type : String  -- did.FDOVoucherHolderServiceType
