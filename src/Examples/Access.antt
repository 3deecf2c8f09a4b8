-- ===== src/Examples/Access.antt =====
-- The theorems on access, assignments, pulls and files, applied to two vouchers.
use go_fdo_voucher_managemen.Prelude.{
  ◌≡◌, ◌≢◌, refl, true, false, ◌&&◌, none, some, List, [], ◌∷◌, any, ◌==◌, if◌then◌else◌,
}
use go_fdo_voucher_managemen.Prelude.Int.{pos}
use go_fdo_voucher_managemen.Prelude.Text.{to_lower}
use go_fdo_voucher_managemen.Prelude.Order.{sort_by}
use go_fdo_voucher_managemen.Assign.Answers.{handed_over}
use go_fdo_voucher_managemen.World.{on_tables, on_disk, answer}
use go_fdo_voucher_managemen.Pull.{
  get_voucher, check_latest, load, load_voucher_from_file, ListFilter,
}
use go_fdo_voucher_managemen.Pull.Laws.{get_voucher-may_see}
use go_fdo_voucher_managemen.Backend.{
  ok, err, rejected, ◌>>=◌, statement, attempt, pure, query, command,
}
use go_fdo_voucher_managemen.Disk.{lookup, read_file, write_file}
use go_fdo_voucher_managemen.FileStore.{
  VoucherFileStore, file_path_for_guid, backup_path, save_voucher, backup_voucher, restore_voucher,
  write_voucher, make_directory,
}
use go_fdo_voucher_managemen.FileStore.Laws.{restore_voucher-backup_voucher}
use go_fdo_voucher_managemen.Identity.{CallerIdentity, bearer_token, fdo_key_auth}
use go_fdo_voucher_managemen.Transmission.{VoucherTransmissionRecord, limit_or}
use go_fdo_voucher_managemen.Transmission.Store.{
  select_serial, update_row, unassigned, fetch_by_serial, fetch_latest_by_guid, select_guid,
}
use go_fdo_voucher_managemen.Transmission.Grants.{
  insert_access_grant, has_access_by_guid, remove_access_grants_for_voucher, remove_grants,
  list_by_access_grant, owns, grants_to, count_union,
}
use go_fdo_voucher_managemen.Transmission.Access.{
  may_see, IsAccessList, has_access_by_guid-insert_access_grant,
  has_access_by_guid-remove_access_grants, list_by_access_grant-IsAccessList,
}
use go_fdo_voucher_managemen.Assign.{
  VoucherAssignHandler, Assignment, not_found, assign_voucher, AssignResult, assign_first,
  assign_record, assign_permitted, after_parse, parse_voucher_file, extend_for, after_extend,
  after_backup, after_save, record_assignment,
}
use go_fdo_voucher_managemen.Assign.Laws.{
  Answered, assign_voucher-Answered, assign_voucher_stranger, assign_voucher-handed_over,
}
use go_fdo_voucher_managemen.Assign.Unassign.{unassign_serial}
use go_fdo_voucher_managemen.Assign.Unassign.Effect.{unassign_serial-remove_grants}
use go_fdo_voucher_managemen.Examples.{
  env, pending_row, assigned_row, grant, tables, store, disk, world,
}
use go_fdo_voucher_managemen.Examples.Records.{tables-IsKeyed}

has_access_by_guid-insert_access_grant_example :
    (has_access_by_guid "a1" "f9" (insert_access_grant 8 grant store).1).0
    ≡ (if "a1" == "a1" && "f9" == "f9" then ok true else (has_access_by_guid "a1" "f9" store).0)
has_access_by_guid-insert_access_grant_example =
    has_access_by_guid-insert_access_grant 8 grant "a1" "f9" store refl

has_access_by_guid-remove_access_grants_example :
    (has_access_by_guid "a1" "f9" (remove_access_grants_for_voucher "a1" store).1).0 ≡ (
      if "a1" == "a1"
      then ok (any (owns "a1" "f9") tables.transmissions)
      else (has_access_by_guid "a1" "f9" store).0)
has_access_by_guid-remove_access_grants_example =
    has_access_by_guid-remove_access_grants "a1" "a1" "f9" store refl

list_by_access_grant-IsAccessList_example :
    (rows : List VoucherTransmissionRecord) × ((list_by_access_grant "f9" (pos 5) store).0
      ≡ ok rows)
    × IsAccessList "f9" (limit_or 50 (pos 5)) store rows
list_by_access_grant-IsAccessList_example =
    list_by_access_grant-IsAccessList "f9" (pos 5) store refl tables-IsKeyed

-- a caller with a token of its own, and a request to sign S1 over
abbrev caller : CallerIdentity
caller = record {
  fingerprint = "f5";
  identity_label = "reseller";
  auth_method = bearer_token;
  partner_id = "";
  has_owner_key = false;
}

abbrev assignment : Assignment
assignment = record {
  serial = "S1";
  new_owner_fingerprint = "f7";
  new_owner_did = "";
  caller = caller;
}

abbrev directory : VoucherFileStore
directory = record { directory = "v" }

abbrev handler : VoucherAssignHandler
handler = record {
  file_store = directory;
  has_did_resolver = true;
  validate_token = some (λ token. err (rejected token));
  has_owner_signer = true;
}

assign_voucher-Answered_example :
    Answered (assign_voucher env handler 9 assignment "key" world) world
assign_voucher-Answered_example = assign_voucher-Answered env handler 9 assignment "key" world

newest_one : select_serial "S1" tables ≡ pending_row ∷ []
unfolding select_serial sort_by
newest_one = refl

unseen_one : may_see "a1" "f5" tables ≡ false
unfolding may_see owns grants_to
unseen_one = refl

assign_voucher_stranger_example :
    assign_voucher env handler 9 assignment "key" world ≡ (ok (not_found "S1"), world)
assign_voucher_stranger_example =
    assign_voucher_stranger env handler 9 assignment "key" world pending_row [] refl refl refl
      newest_one unseen_one

newest_two : select_serial "S2" tables ≡ assigned_row ∷ []
unfolding select_serial sort_by
newest_two = refl

unassign_serial-remove_grants_example :
    ((unassign_serial directory 9 "S2" world).0
      ≡ ok (record { serial = "S2"; voucher_id = "b2"; status = "ok" }))
    × ((assigned_row.destination_url ≡ "")
        → (unassign_serial directory 9 "S2" world).1.tables.content
          ≡ remove_grants "b2" (update_row 2 (unassigned 9 "no_destination") tables))
    × ((assigned_row.destination_url ≢ "")
        → (unassign_serial directory 9 "S2" world).1.tables.content
          ≡ remove_grants "b2" (update_row 2 (unassigned 9 "pending") tables))
unassign_serial-remove_grants_example =
    unassign_serial-remove_grants directory 9 "S2" world assigned_row [] refl newest_two refl

path_a1 : file_path_for_guid directory "A1" ≡ "v/a1.fdoov"
unfolding file_path_for_guid to_lower
path_a1 = refl

restore_voucher-backup_voucher_example :
    ((restore_voucher directory "A1"
        (save_voucher env directory (some "extended") (backup_voucher directory "A1" disk).1).1).0
      ≡ ok tt)
    × (lookup "v/a1.fdoov"
          (restore_voucher directory "A1"
            (save_voucher env directory
              (some "extended")
              (backup_voucher directory "A1" disk).1).1).1.content
        ≡ (if backup_path (file_path_for_guid directory "A1") == "v/a1.fdoov"
            then none
            else lookup "v/a1.fdoov" disk.content))
unfolding file_path_for_guid lookup to_lower
restore_voucher-backup_voucher_example =
    restore_voucher-backup_voucher env directory "A1" "voucher a1" (some "extended") disk
      "v/a1.fdoov" refl refl refl (λ v e. refl)

to_lower_test : to_lower "DID:Web:É-x9" ≡ "did:web:É-x9"
unfolding to_lower
to_lower_test = refl

-- the owner of S1 signs it over
abbrev own_assignment : Assignment
own_assignment = record {
  serial = "S1";
  new_owner_fingerprint = "f7";
  new_owner_did = "";
  caller = record {
    fingerprint = "f0";
    identity_label = "owner";
    auth_method = fdo_key_auth;
    partner_id = "";
    has_owner_key = true;
  };
}

abbrev done : AssignResult
done = record {
  serial = "S1";
  voucher_id = "a1";
  status = "ok";
  error_code = "";
  message = "voucher assigned successfully";
}

signed_over : (assign_voucher env handler 9 own_assignment "key" world).0 ≡ ok done
unfolding assign_voucher assign_first assign_record assign_permitted after_parse parse_voucher_file
    extend_for after_extend after_backup after_save record_assignment fetch_by_serial select_serial
    sort_by has_access_by_guid count_union owns grants_to ◌>>=◌ attempt pure on_tables on_disk
    answer query statement read_file lookup file_path_for_guid to_lower backup_voucher save_voucher
    write_voucher make_directory write_file command
signed_over = refl

assign_voucher-handed_over_example :
    (rec : VoucherTransmissionRecord) × (older : List VoucherTransmissionRecord) × (select_serial
        "S1" tables
      ≡ rec ∷ older)
    × ((assign_voucher env handler 9 own_assignment "key" world).1.tables.content
        ≡ handed_over 9 own_assignment rec tables)
assign_voucher-handed_over_example =
    assign_voucher-handed_over env handler 9 own_assignment "key" world done refl signed_over refl

served :
    (get_voucher env directory (some "f0") "a1" world).0
    ≡ ok
        (record { guid = "a1"; device_info = "device"; voucher = "voucher a1"; raw = "voucher a1" })
unfolding get_voucher fetch_latest_by_guid select_guid sort_by check_latest load
    load_voucher_from_file file_path_for_guid to_lower ◌>>=◌ attempt pure on_tables on_disk answer
    statement read_file lookup
served = refl

get_voucher-may_see_example : may_see "a1" "f0" tables ≡ true
get_voucher-may_see_example =
    get_voucher-may_see env directory "f0" "a1" world
      (record { guid = "a1"; device_info = "device"; voucher = "voucher a1"; raw = "voucher a1" })
      served

abbrev first_page : ListFilter
first_page = record { limit = pos 1; since = none; until = none }
