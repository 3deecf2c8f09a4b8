-- ===== src/Assign/Command.antt =====
-- voucher_assign_cli.go: the `assign` command, from its serials and the new owner's key on.
-- One run reads the clock once.
pub mod Alike
use go_fdo_voucher_managemen.Prelude.{
  ℕ, String, Bool, true, false, ◌&&◌, not, some, List, [], ◌∷◌, map, any, ◌==◌, ltb, if◌then◌else◌,
}
use go_fdo_voucher_managemen.Prelude.Text.{byte_length}
use go_fdo_voucher_managemen.Backend.{
  Error, rejected, Result, ok, err, Exec, pure, raise, attempt, ◌>>=◌, ◌>>◌,
}
use go_fdo_voucher_managemen.Disk.{read_file}
use go_fdo_voucher_managemen.Environment.{Environment, KeyKind, ecdsa, rsa, certificates, other_key}
use go_fdo_voucher_managemen.FileStore.{
  VoucherFileStore, file_path_for_guid, save_voucher, backup_voucher,
}
use go_fdo_voucher_managemen.Transmission.{
  VoucherTransmissionRecord, AccessGrant, transmission_status_assigned,
  transmission_status_succeeded,
}
use go_fdo_voucher_managemen.Transmission.Store.{fetch_by_serial, mark_assigned}
use go_fdo_voucher_managemen.Transmission.Grants.{insert_access_grant}
use go_fdo_voucher_managemen.World.{World, on_tables, on_disk, answer}

-- what is printed of a serial, less the message
pub record CommandResult : Type 0 where
  pub serial : String
  pub voucher_id : String
  pub status : String

abbrev pub cli_grant_for : VoucherTransmissionRecord → String → String → String → AccessGrant
cli_grant_for rec serial fingerprint identity_type = record {
  id = 0;
  voucher_guid = rec.voucher_guid;
  serial_number = serial;
  identity_fingerprint = fingerprint;
  identity_type = identity_type;
  access_level = "full";
  partner_id = "";
  granted_at = 0;
  granted_by = "cli";
}

-- fdo.ParseVoucherFile
unfoldable pub cli_parse_voucher_file : (env : Environment) → String → Exec World env.Voucher
cli_parse_voucher_file env path = do
  text ← on_disk (read_file path)
  answer (env.parse_voucher text)

module _ (env : Environment) (s : VoucherFileStore) (now : ℕ)
    (new_owner_fingerprint new_owner_did caller_fingerprint serial : String) where
  module _ (rec : VoucherTransmissionRecord) where
    abbrev pub error_result : CommandResult
    error_result = record { serial = serial; voucher_id = rec.voucher_guid; status = "error" }

    -- `newOwnerFingerprint[:16]` for the message: a slice past the end is a panic, which ends the command
    unfoldable pub cli_assigned_message : Exec World CommandResult
    cli_assigned_message =
        if ltb (byte_length new_owner_fingerprint) 16
        then raise (rejected "runtime error: slice bounds out of range")
        else pure (record { serial = serial; voucher_id = rec.voucher_guid; status = "ok" })

    -- a row that cannot be marked is logged, a grant that cannot be inserted is dropped
    unfoldable pub cli_record_assignment : Exec World CommandResult
    unfolding cli_assigned_message
    cli_record_assignment = do
      attempt (
          on_tables
            (mark_assigned now rec.id new_owner_fingerprint new_owner_did caller_fingerprint))
      attempt (
          on_tables
            (insert_access_grant now (cli_grant_for rec serial caller_fingerprint "custodian")))
      attempt (
          on_tables
            (insert_access_grant now (cli_grant_for rec serial new_owner_fingerprint "owner_key")))
      cli_assigned_message

    unfoldable pub cli_after_save : Result String → Exec World CommandResult
    unfolding cli_record_assignment
    cli_after_save (err e) = pure error_result
    cli_after_save (ok path) = cli_record_assignment

    unfoldable pub cli_after_backup : env.Voucher → Result (Unit {0}) → Exec World CommandResult
    unfolding cli_after_save
    cli_after_backup assigned (err e) = pure error_result
    cli_after_backup assigned (ok _) =
        attempt (on_disk (save_voucher env s (some assigned))) >>= λ saved. cli_after_save saved

    unfoldable pub cli_after_extend : Result env.Voucher → Exec World CommandResult
    unfolding cli_after_backup
    cli_after_extend (err e) = pure error_result
    cli_after_extend (ok assigned) =
        attempt (on_disk (backup_voucher s rec.voucher_guid)) >>= λ backed_up.
        cli_after_backup assigned backed_up

    -- the `switch` on the type of the new owner's key
    unfoldable pub cli_extend_for : env.Voucher → env.PublicKey → KeyKind → Exec World CommandResult
    unfolding cli_after_extend
    cli_extend_for voucher key ecdsa = cli_after_extend (env.extend_voucher voucher key)
    cli_extend_for voucher key rsa = cli_after_extend (env.extend_voucher voucher key)
    cli_extend_for voucher key certificates = cli_after_extend (env.extend_voucher voucher key)
    cli_extend_for voucher key other_key = pure error_result

    unfoldable pub cli_after_parse : env.PublicKey → Result env.Voucher → Exec World CommandResult
    unfolding cli_extend_for
    cli_after_parse key (err e) = pure error_result
    cli_after_parse key (ok voucher) = cli_extend_for voucher key (env.key_kind key)

    unfoldable pub cli_assign_record : env.PublicKey → Exec World CommandResult
    unfolding cli_after_parse cli_parse_voucher_file
    cli_assign_record key =
        if rec.status == transmission_status_assigned
        then pure error_result
        else if rec.status == transmission_status_succeeded
        then pure error_result
        else if file_path_for_guid s rec.voucher_guid == ""
        then pure error_result
        else attempt (cli_parse_voucher_file env (file_path_for_guid s rec.voucher_guid))
          >>= λ parsed. cli_after_parse key parsed

  unfoldable pub cli_assign_first :
      env.PublicKey → Result (List VoucherTransmissionRecord) → Exec World CommandResult
  unfolding cli_assign_record
  cli_assign_first key (err e) =
      pure (record { serial = serial; voucher_id = ""; status = "error" })
  cli_assign_first key (ok []) =
      pure (record { serial = serial; voucher_id = ""; status = "error" })
  cli_assign_first key (ok (rec ∷ older)) = cli_assign_record rec key

  unfoldable pub assign_voucher_cli : env.PublicKey → Exec World CommandResult
  unfolding cli_assign_first
  assign_voucher_cli key =
      attempt (on_tables (fetch_by_serial serial)) >>= λ found. cli_assign_first key found

-- the loop of `vouchersAssignCmd` over its serials
unfoldable pub assign_serials :
    (env : Environment)
    → VoucherFileStore
    → ℕ
    → String
    → String
    → String
    → env.PublicKey
    → List String
    → Exec World (List CommandResult)
unfolding assign_voucher_cli
assign_serials env s now fingerprint did caller key [] = pure []
assign_serials env s now fingerprint did caller key (serial ∷ serials) = do
  r ← assign_voucher_cli env s now fingerprint did caller serial key
  rest ← assign_serials env s now fingerprint did caller key serials
  pure (r ∷ rest)

-- the exit status is that of a failure
unfoldable pub any_error : List CommandResult → Bool
any_error results = any (λ r. not (r.status == "ok")) results
