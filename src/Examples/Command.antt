-- ===== src/Examples/Command.antt =====
-- The assign command of voucher_assign_cli.go, on a voucher that it signs over.
use go_fdo_voucher_managemen.Prelude.{arith, ◌≡◌, refl, true, false, none, List, [], ◌∷◌}
use go_fdo_voucher_managemen.Prelude.Order.{sort_by}
use go_fdo_voucher_managemen.Prelude.Text.{to_lower, byte_length}
use go_fdo_voucher_managemen.Backend.{
  rejected, err, ok, pure, attempt, ◌>>=◌, statement, query, command,
}
use go_fdo_voucher_managemen.Disk.{read_file, lookup, write_file}
use go_fdo_voucher_managemen.FileStore.{
  VoucherFileStore, file_path_for_guid, backup_voucher, save_voucher, write_voucher, make_directory,
}
use go_fdo_voucher_managemen.Identity.{global_token}
use go_fdo_voucher_managemen.Transmission.Store.{
  fetch_by_serial, select_serial, mark_assigned, update_row, assigned,
}
use go_fdo_voucher_managemen.Transmission.Grants.{insert_access_grant, insert_grant, same_key}
use go_fdo_voucher_managemen.World.{on_tables, on_disk, answer}
use go_fdo_voucher_managemen.Assign.{VoucherAssignHandler, Assignment, assign_voucher}
use go_fdo_voucher_managemen.Assign.Command.{
  CommandResult, assign_voucher_cli, cli_assign_first, cli_assign_record, cli_parse_voucher_file,
  cli_after_parse, cli_extend_for, cli_after_extend, cli_after_backup, cli_after_save,
  cli_record_assignment, cli_assigned_message, assign_serials, any_error,
}
use go_fdo_voucher_managemen.Assign.Command.Alike.{Alike, assign_voucher_cli-assign_voucher}
use go_fdo_voucher_managemen.Examples.{env, world}

abbrev vouchers_directory : VoucherFileStore
vouchers_directory = record { directory = "v" }

abbrev api : VoucherAssignHandler
api = record {
  file_store = vouchers_directory;
  has_did_resolver = true;
  validate_token = none;
  has_owner_signer = true;
}

abbrev by_operator : Assignment
by_operator = record {
  serial = "S1";
  new_owner_fingerprint = "f7f7f7f7f7f7f7f7";
  new_owner_did = "";
  caller = record {
    fingerprint = "c1";
    identity_label = "cli-operator";
    auth_method = global_token;
    partner_id = "";
    has_owner_key = false;
  };
}

assign_voucher_cli-assign_voucher_example :
    Alike
      (assign_voucher_cli env vouchers_directory 9 "f7f7f7f7f7f7f7f7" "" "c1" "S1" "key" world)
      (assign_voucher env api 9 by_operator "key" world)
assign_voucher_cli-assign_voucher_example =
    assign_voucher_cli-assign_voucher env api 9 by_operator "key" world refl refl refl
      (unfold byte_length in omega arith)

-- S1 is signed over, S9 is of no voucher, and S1 is then assigned already
abbrev results : List CommandResult
results =
    record { serial = "S1"; voucher_id = "a1"; status = "ok" }
    ∷ record { serial = "S9"; voucher_id = ""; status = "error" }
    ∷ record { serial = "S1"; voucher_id = "a1"; status = "error" }
    ∷ []

assign_serials_test :
    (assign_serials env vouchers_directory 9 "f7f7f7f7f7f7f7f7" "" "c1" "key"
      ("S1" ∷ "S9" ∷ "S1" ∷ [])
      world).0
    ≡ ok results
unfolding assign_serials assign_voucher_cli cli_assign_first cli_assign_record
    cli_parse_voucher_file cli_after_parse cli_extend_for cli_after_extend cli_after_backup
    cli_after_save cli_record_assignment cli_assigned_message byte_length fetch_by_serial
    select_serial sort_by ◌>>=◌ attempt pure on_tables on_disk answer query statement read_file
    lookup file_path_for_guid to_lower backup_voucher save_voucher write_voucher make_directory
    write_file command insert_access_grant mark_assigned insert_grant update_row same_key assigned
assign_serials_test = refl

any_error_test : any_error results ≡ true
unfolding any_error
any_error_test = refl

-- a fingerprint of two bytes ends the command, once the voucher is assigned
short_fingerprint_test :
    (assign_voucher_cli env vouchers_directory 9 "f7" "" "c1" "S1" "key" world).0
    ≡ err (rejected "runtime error: slice bounds out of range")
unfolding assign_voucher_cli cli_assign_first cli_assign_record cli_parse_voucher_file
    cli_after_parse cli_extend_for cli_after_extend cli_after_backup cli_after_save
    cli_record_assignment cli_assigned_message byte_length fetch_by_serial select_serial sort_by
    ◌>>=◌ attempt pure on_tables on_disk answer query statement read_file lookup file_path_for_guid
    to_lower backup_voucher save_voucher write_voucher make_directory write_file command
    insert_access_grant mark_assigned insert_grant update_row same_key assigned
short_fingerprint_test = refl
