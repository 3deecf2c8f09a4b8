-- ===== src/Assign.antt =====
-- voucher_assign_handler.go: one voucher of a POST {root}/assign request, signed over to a new owner.
-- One request reads the clock once.
pub mod Handler
pub mod Unassign
pub mod Command
pub mod Answers
pub mod Laws
use go_fdo_voucher_managemen.Prelude.{
  ℕ, String, Bool, true, false, ◌&&◌, ◌||◌, not, Option, some, List, [], ◌∷◌, ◌==◌, if◌then◌else◌,
}
use go_fdo_voucher_managemen.Backend.{
  Error, Result, ok, err, Exec, pure, raise, attempt, ◌>>=◌, ◌>>◌,
}
use go_fdo_voucher_managemen.Disk.{read_file}
use go_fdo_voucher_managemen.Environment.{Environment, KeyKind, ecdsa, rsa, certificates, other_key}
use go_fdo_voucher_managemen.FileStore.{
  VoucherFileStore, file_path_for_guid, save_voucher, backup_voucher,
}
use go_fdo_voucher_managemen.Identity.{CallerIdentity, is_global}
use go_fdo_voucher_managemen.Push.{error_text}
use go_fdo_voucher_managemen.Transmission.{
  VoucherTransmissionRecord, AccessGrant, transmission_status_assigned,
  transmission_status_succeeded,
}
use go_fdo_voucher_managemen.Transmission.Store.{fetch_by_serial, mark_assigned}
use go_fdo_voucher_managemen.Transmission.Grants.{insert_access_grant, has_access_by_guid}
use go_fdo_voucher_managemen.World.{World, on_tables, on_disk, answer}

-- The stores are there; the resolver, the token check and the signing key may be nil.
pub record VoucherAssignHandler : Type 0 where
  pub file_store : VoucherFileStore
  pub has_did_resolver : Bool
  pub validate_token : Option (String → Result CallerIdentity)
  pub has_owner_signer : Bool

pub record AssignResult : Type 0 where
  pub serial : String
  pub voucher_id : String
  pub status : String
  pub error_code : String
  pub message : String

abbrev pub refusal : String → String → String → String → AssignResult
refusal serial guid code message = record {
  serial = serial;
  voucher_id = guid;
  status = "error";
  error_code = code;
  message = message;
}

abbrev pub not_found : String → AssignResult
not_found serial = refusal serial "" "not_found" "voucher not found for serial"

abbrev pub grant_for : VoucherTransmissionRecord → String → String → String → AccessGrant
grant_for rec serial fingerprint identity_type = record {
  id = 0;
  voucher_guid = rec.voucher_guid;
  serial_number = serial;
  identity_fingerprint = fingerprint;
  identity_type = identity_type;
  access_level = "full";
  partner_id = "";
  granted_at = 0;
  granted_by = "assign_api";
}

-- what the request says of the new owner, and who asks
pub record Assignment : Type 0 where
  pub serial : String
  pub new_owner_fingerprint : String
  pub new_owner_did : String
  pub caller : CallerIdentity

-- a statement that fails here is logged, or dropped
unfoldable pub record_assignment :
    ℕ → Assignment → VoucherTransmissionRecord → Exec World AssignResult
record_assignment now a rec = do
  attempt (
      on_tables
        (mark_assigned now rec.id a.new_owner_fingerprint a.new_owner_did a.caller.fingerprint))
  if a.caller.fingerprint == ""
      then pure (ok tt)
      else attempt (
          on_tables
            (insert_access_grant now (grant_for rec a.serial a.caller.fingerprint "custodian")))
  attempt (
      on_tables
        (insert_access_grant now (grant_for rec a.serial a.new_owner_fingerprint "owner_key")))
  pure (record {
    serial = a.serial;
    voucher_id = rec.voucher_guid;
    status = "ok";
    error_code = "";
    message = "voucher assigned successfully";
  })

module _ (env : Environment) (h : VoucherAssignHandler) (now : ℕ) (a : Assignment)
    (rec : VoucherTransmissionRecord) where
  abbrev pub refuse : String → String → AssignResult
  refuse code message = refusal a.serial rec.voucher_guid code message

  unfoldable pub after_save : Result String → Exec World AssignResult
  unfolding record_assignment
  after_save (err e) = pure (refuse "internal_error" "failed to save assigned voucher")
  after_save (ok path) = record_assignment now a rec

  unfoldable pub after_backup : env.Voucher → Result (Unit {0}) → Exec World AssignResult
  unfolding after_save
  after_backup assigned (err e) =
      pure (refuse "internal_error" "failed to backup voucher before assignment")
  after_backup assigned (ok _) =
      attempt (on_disk (save_voucher env h.file_store (some assigned))) >>= λ saved.
      after_save saved

  unfoldable pub after_extend : Result env.Voucher → Exec World AssignResult
  unfolding after_backup
  after_extend (err e) = pure (refuse "internal_error" (error_text e))
  after_extend (ok assigned) =
      attempt (on_disk (backup_voucher h.file_store rec.voucher_guid)) >>= λ backed_up.
      after_backup assigned backed_up

  -- the `switch` on the type of the new owner's key
  unfoldable pub extend_for : env.Voucher → env.PublicKey → KeyKind → Exec World AssignResult
  unfolding after_extend
  extend_for voucher key ecdsa = after_extend (env.extend_voucher voucher key)
  extend_for voucher key rsa = after_extend (env.extend_voucher voucher key)
  extend_for voucher key certificates = after_extend (env.extend_voucher voucher key)
  extend_for voucher key other_key = pure (refuse "invalid_key" "unsupported key type")

  unfoldable pub after_parse : env.PublicKey → Result env.Voucher → Exec World AssignResult
  unfolding extend_for
  after_parse key (err e) = pure (refuse "internal_error" "failed to parse voucher")
  after_parse key (ok voucher) =
      if not h.has_owner_signer
      then pure (refuse "internal_error" "owner signer not configured")
      else extend_for voucher key (env.key_kind key)

  -- fdo.ParseVoucherFile
  unfoldable pub parse_voucher_file : String → Exec World env.Voucher
  parse_voucher_file path = do text ← on_disk (read_file path); answer (env.parse_voucher text)

  -- what follows the access check
  unfoldable pub assign_permitted : env.PublicKey → Exec World AssignResult
  unfolding after_parse parse_voucher_file
  assign_permitted key =
      if rec.status == transmission_status_assigned
      then pure (refuse "already_assigned" "voucher has already been assigned")
      else if rec.status == transmission_status_succeeded
      then pure (refuse "already_signed_over" "voucher has already been delivered")
      else if file_path_for_guid h.file_store rec.voucher_guid == ""
      then pure (refuse "not_found" "voucher file not found")
      else attempt (parse_voucher_file (file_path_for_guid h.file_store rec.voucher_guid))
        >>= λ parsed. after_parse key parsed

  -- a failed query denies
  abbrev pub is_permitted : Result Bool → Bool
  is_permitted (err e) = false
  is_permitted (ok has) = has || rec.owner_key_fingerprint == a.caller.fingerprint

  unfoldable pub assign_record : env.PublicKey → Exec World AssignResult
  unfolding assign_permitted
  assign_record key =
      if not (is_global a.caller.auth_method) && not (a.caller.fingerprint == "")
      then (attempt (on_tables (has_access_by_guid rec.voucher_guid a.caller.fingerprint))
          >>= λ access.
              if is_permitted access then assign_permitted key else pure (not_found a.serial))
      else assign_permitted key

module _ (env : Environment) (h : VoucherAssignHandler) (now : ℕ) (a : Assignment) where
  -- the newest voucher of the serial
  unfoldable pub assign_first :
      env.PublicKey → Result (List VoucherTransmissionRecord) → Exec World AssignResult
  unfolding assign_record
  assign_first key (err e) = pure (not_found a.serial)
  assign_first key (ok []) = pure (not_found a.serial)
  assign_first key (ok (rec ∷ older)) = assign_record env h now a rec key

  unfoldable pub assign_voucher : env.PublicKey → Exec World AssignResult
  unfolding assign_first
  assign_voucher key =
      attempt (on_tables (fetch_by_serial a.serial)) >>= λ found. assign_first key found
