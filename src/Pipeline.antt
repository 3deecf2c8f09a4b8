-- ===== src/Pipeline.antt =====
-- voucher_pipeline.go: what is done with a voucher that was received.
pub mod Laws
pub mod Disk
use go_fdo_voucher_managemen.Prelude.{
  ℕ, String, Bool, true, false, ◌&&◌, not, Option, none, some, List, [], ◌==◌, if◌then◌else◌,
}
use go_fdo_voucher_managemen.Prelude.Int.{ℤ}
use go_fdo_voucher_managemen.Backend.{
  Error, rejected, Result, ok, err, Exec, pure, raise, attempt, ◌>>=◌, ◌>>◌,
}
use go_fdo_voucher_managemen.Config.{Config}
use go_fdo_voucher_managemen.Destination.{
  VoucherDestination, VoucherDestinationResolver, resolve_destination,
}
use go_fdo_voucher_managemen.Environment.{Environment}
use go_fdo_voucher_managemen.Push.{VoucherPushService, enabled, attempt_record, queued}
use go_fdo_voucher_managemen.Services.{
  resolve_did_key, get_owner_key, VoucherSigningService, sign_voucher,
}
use go_fdo_voucher_managemen.Services.ExtraData.{OveExtraDataService, get_ove_extra_data}
use go_fdo_voucher_managemen.Transmission.{VoucherTransmissionRecord}
use go_fdo_voucher_managemen.Transmission.Store.{with_defaults, create_pending}
use go_fdo_voucher_managemen.World.{World, on_tables, on_partners, answer}

-- A service that may be nil is an `Option`: the command of the owner key service, and whether a DID
-- resolver that is there is enabled.
pub record VoucherPipeline : Type 0 where
  pub config : Config
  pub signing_service : VoucherSigningService
  pub owner_key_service : Option String
  pub ove_extra_data_service : Option OveExtraDataService
  pub destination_resolver : VoucherDestinationResolver
  pub push_service : Option VoucherPushService
  pub did_resolver : Option Bool

-- the arguments of `ProcessVoucher` but the voucher itself
pub record Received : Type 0 where
  pub serial : String
  pub model : String
  pub guid : String
  pub file_path : String
  pub owner_key_fingerprint : String

abbrev pub no_destination : VoucherDestination
no_destination = record { url = ""; token = ""; source = ""; mode = "" }

module _ (env : Environment) (p : VoucherPipeline) (now : ℕ) where
  -- an error is logged, and leaves no data
  abbrev pub data_or_empty : Result (List (ℤ × String)) → List (ℤ × String)
  data_or_empty (err e) = []
  data_or_empty (ok extra) = extra

  abbrev pub extra_data : Received → List (ℤ × String)
  extra_data v = elim p.ove_extra_data_service [
    | none ↦ []
    | some s ↦ data_or_empty (get_ove_extra_data env s now v.serial v.model)
  ]

  -- the next owner's key, if there is one, and the DID's URL
  abbrev NextOwner : Type 0
  NextOwner = Option env.PublicKey × String

  abbrev pub with_url : Result (env.PublicKey × String) → Result NextOwner
  with_url (err e) = err e
  with_url (ok (key, url)) = ok (some key, url)

  abbrev pub without_url : Result env.PublicKey → Result NextOwner
  without_url (err e) = err e
  without_url (ok key) = ok (some key, "")

  -- a dynamic key that is not to be had is logged
  abbrev pub or_no_owner : Result (env.PublicKey × String) → Result NextOwner
  or_no_owner (err e) = ok (none, "")
  or_no_owner (ok (key, url)) = ok (some key, url)

  abbrev pub static_pem : Result NextOwner
  static_pem =
      if p.config.owner_signover.static_public_key == ""
      then ok (none, "")
      else without_url (env.load_public_key_pem p.config.owner_signover.static_public_key)

  abbrev pub static_owner : Result NextOwner
  static_owner =
      if p.config.owner_signover.static_did == "" then static_pem else (elim p.did_resolver [
        | none ↦ static_pem
        | some resolves ↦
            with_url (resolve_did_key env resolves now p.config.owner_signover.static_did)
      ])

  abbrev pub dynamic_owner : Received → Result NextOwner
  dynamic_owner v = elim p.owner_key_service [
    | none ↦ ok (none, "")
    | some template ↦ or_no_owner (get_owner_key env template now v.serial v.model)
  ]

  unfoldable pub next_owner : Received → Result NextOwner
  next_owner v =
      if p.config.owner_signover.mode == "static"
      then static_owner
      else if p.config.owner_signover.mode == "dynamic"
      then dynamic_owner v
      else ok (none, "")

  -- whom the voucher's row belongs to
  abbrev pub owner_fingerprint : String → Option env.PublicKey → String
  owner_fingerprint given none = given
  owner_fingerprint given (some key) = env.fingerprint_fdo_hex key

  -- step 3: `_, err := SignVoucher(…)`, where both results end in the log
  unfoldable pub sign_over :
      env.Voucher → Option env.PublicKey → List (ℤ × String) → Exec World Unit
  sign_over voucher none extra = pure tt
  sign_over voucher (some key) extra =
      if p.config.voucher_signing.mode == ""
      then pure tt
      else attempt (answer (sign_voucher env p.signing_service voucher (some key) extra)) >> pure tt

  -- `storeTransmissionRecord`, whose error is logged
  unfoldable pub store_transmission_record : Received → String → Exec World Unit
  store_transmission_record v fp =
      attempt (
        on_tables (
          create_pending now (some (queued no_destination v.guid v.file_path v.serial v.model fp))))
      >> pure tt

  -- the row first, and then one attempt, whose error is logged
  unfoldable pub queue_to :
      VoucherPushService → Received → String → VoucherDestination → Exec World Unit
  queue_to svc v fp dest = do
    let rec = queued dest v.guid v.file_path v.serial v.model fp
    id ← on_tables (create_pending now (some rec))
    attempt (attempt_record env svc now (some (record (with_defaults now rec) { id = id })))
    pure tt

  abbrev pub by_destination :
      VoucherPushService → Received → String → Result VoucherDestination → Exec World Unit
  by_destination svc v fp (err e) = store_transmission_record v fp
  by_destination svc v fp (ok dest) = queue_to svc v fp dest

  abbrev pub push_to : VoucherPushService → Received → String → String → Exec World Unit
  push_to svc v fp did_url =
      attempt (
        on_partners
          (resolve_destination env p.destination_resolver now v.serial v.model v.guid did_url fp))
      >>= λ dest. by_destination svc v fp dest

  -- step 4
  abbrev pub push_or_store :
      Received → String → String → Option VoucherPushService → Exec World Unit
  push_or_store v fp did_url none = store_transmission_record v fp
  push_or_store v fp did_url (some svc) =
      if enabled svc.config then push_to svc v fp did_url else store_transmission_record v fp

  unfoldable pub dispatch : Received → String → String → Exec World Unit
  unfolding store_transmission_record queue_to
  dispatch v fp did_url = push_or_store v fp did_url p.push_service

  abbrev pub after_owner : env.Voucher → Received → Result NextOwner → Exec World Unit
  after_owner voucher v (err e) = raise e
  after_owner voucher v (ok (key, did_url)) =
      sign_over voucher key (extra_data v)
      >> dispatch v (owner_fingerprint v.owner_key_fingerprint key) did_url

  unfoldable pub process_voucher : env.Voucher → Received → Exec World Unit
  unfolding next_owner sign_over dispatch
  process_voucher voucher v = after_owner voucher v (next_owner v)
