-- ===== src/Services.antt =====
-- The services that the pipeline calls: external_executor.go, did_resolver.go, owner_key_service.go,
-- voucher_signing_service.go and, in the child, ove_extra_data_service.go.
pub mod ExtraData
pub mod Hash
pub mod Substitute
use go_fdo_voucher_managemen.Prelude.{
  ℕ, String, Bool, true, false, ◌||◌, not, Option, none, some, List, [], ◌∷◌, ◌==◌, if◌then◌else◌,
}
use go_fdo_voucher_managemen.Prelude.Int.{ℤ}
use go_fdo_voucher_managemen.Backend.{Error, rejected, Result, ok, err}
use go_fdo_voucher_managemen.Environment.{Environment, KeyKind, ecdsa, rsa, certificates, other_key}
use go_fdo_voucher_managemen.Wire.{OwnerKeyResponse}
use Substitute.{substitute}

-- the variables in turn, each value as it is
unfoldable pub expand : String → List (String × String) → String
unfolding substitute
expand template [] = template
expand template ((key, value) ∷ rest) = expand (substitute key value template) rest

module _ (env : Environment) where
  -- `Execute`, with the variables in the order that the map gives them
  unfoldable pub execute : ℕ → String → List (String × String) → Result String
  unfolding expand
  execute now template variables = env.run_shell now (expand template variables)

  -- `ResolveDIDKey` of a resolver that is enabled or not
  unfoldable pub resolve_did_key : Bool → ℕ → String → Result (env.PublicKey × String)
  resolve_did_key enabled now did =
      if not enabled then err (rejected "DID resolution disabled") else env.resolve_did now did

  abbrev pub pem_key : Result env.PublicKey → Result (env.PublicKey × String)
  pem_key (err e) = err e
  pem_key (ok key) = ok (key, "")

  -- the key and the DID's URL that a response stands for
  unfoldable pub owner_key_of : ℕ → OwnerKeyResponse → Result (env.PublicKey × String)
  unfolding resolve_did_key
  owner_key_of now response =
      if not (response.error == "")
      then err (rejected "owner key service error")
      else if not (response.owner_did == "")
      then resolve_did_key true now response.owner_did
      else if response.owner_key_pem == ""
      then err (rejected "no owner key returned")
      else pem_key (env.load_public_key_pem response.owner_key_pem)

  abbrev pub decoded : ℕ → Result OwnerKeyResponse → Result (env.PublicKey × String)
  decoded now (err e) = err e
  decoded now (ok response) = owner_key_of now response

  abbrev pub answered : ℕ → Result String → Result (env.PublicKey × String)
  answered now (err e) = err e
  answered now (ok output) = decoded now (env.decode_owner_key output)

  -- the service is its command's template
  unfoldable pub get_owner_key : String → ℕ → String → String → Result (env.PublicKey × String)
  unfolding execute owner_key_of
  get_owner_key template now serial model =
      answered now
        (execute now template (("serialno", serial) ∷ ("model", model) ∷ ("guid", "") ∷ []))

-- The mode, and whether the owner's key is there.
pub record VoucherSigningService : Type 0 where
  pub mode : String
  pub has_owner_signer : Bool

module _ (env : Environment) where
  abbrev pub extend_by_kind :
      env.Voucher → env.PublicKey → List (ℤ × String) → KeyKind → Result env.Voucher
  extend_by_kind v key extra ecdsa = env.extend_voucher_with v key extra
  extend_by_kind v key extra rsa = env.extend_voucher_with v key extra
  extend_by_kind v key extra certificates = env.extend_voucher_with v key extra
  extend_by_kind v key extra other_key = err (rejected "unsupported nextOwner key type")

  unfoldable pub sign_voucher_internal :
      VoucherSigningService
      → env.Voucher
      → Option env.PublicKey
      → List (ℤ × String)
      → Result env.Voucher
  sign_voucher_internal s v none extra = ok v
  sign_voucher_internal s v (some key) extra =
      if not s.has_owner_signer
      then err (rejected "owner signer not configured; cannot extend voucher")
      else extend_by_kind v key extra (env.key_kind key)

  unfoldable pub sign_voucher :
      VoucherSigningService
      → env.Voucher
      → Option env.PublicKey
      → List (ℤ × String)
      → Result env.Voucher
  unfolding sign_voucher_internal
  sign_voucher s v next extra =
      if s.mode == "" || s.mode == "internal"
      then sign_voucher_internal s v next extra
      else err (rejected "unsupported voucher signing mode")
