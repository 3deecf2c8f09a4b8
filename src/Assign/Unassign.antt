-- ===== src/Assign/Unassign.antt =====
-- voucher_assign_cli.go: one serial of the `unassign` command.
pub mod Effect
use go_fdo_voucher_managemen.Prelude.{
  ℕ, String, Bool, true, false, not, List, [], ◌∷◌, ◌==◌, if◌then◌else◌,
}
use go_fdo_voucher_managemen.Backend.{Error, Result, ok, err, Exec, pure, attempt, ◌>>=◌, ◌>>◌}
use go_fdo_voucher_managemen.FileStore.{VoucherFileStore, restore_voucher}
use go_fdo_voucher_managemen.Transmission.{
  VoucherTransmissionRecord, transmission_status_assigned, transmission_status_pending,
}
use go_fdo_voucher_managemen.Transmission.Store.{fetch_by_serial, mark_unassigned}
use go_fdo_voucher_managemen.Transmission.Grants.{remove_access_grants_for_voucher}
use go_fdo_voucher_managemen.World.{World, on_tables, on_disk}

-- what is printed of a serial, less the message
pub record UnassignResult : Type 0 where
  pub serial : String
  pub voucher_id : String
  pub status : String

unfoldable pub restore_status : VoucherTransmissionRecord → String
restore_status rec =
    if rec.destination_url == "" then "no_destination" else transmission_status_pending

-- a backup that cannot be restored and grants that cannot be removed are logged
abbrev pub after_mark :
    VoucherFileStore
    → String
    → VoucherTransmissionRecord
    → Result (Unit {0})
    → Exec World UnassignResult
after_mark s serial rec (err e) =
    pure (record { serial = serial; voucher_id = rec.voucher_guid; status = "error" })
after_mark s serial rec (ok _) = do
  attempt (on_disk (restore_voucher s rec.voucher_guid))
  attempt (on_tables (remove_access_grants_for_voucher rec.voucher_guid))
  pure (record { serial = serial; voucher_id = rec.voucher_guid; status = "ok" })

unfoldable pub unassign_found :
    VoucherFileStore
    → ℕ
    → String
    → Result (List VoucherTransmissionRecord)
    → Exec World UnassignResult
unfolding restore_status
unassign_found s now serial (err e) =
    pure (record { serial = serial; voucher_id = ""; status = "error" })
unassign_found s now serial (ok []) =
    pure (record { serial = serial; voucher_id = ""; status = "error" })
unassign_found s now serial (ok (rec ∷ older)) =
    if not (rec.status == transmission_status_assigned)
    then pure (record { serial = serial; voucher_id = rec.voucher_guid; status = "error" })
    else attempt (on_tables (mark_unassigned now rec.id (restore_status rec))) >>= λ marked.
        after_mark s serial rec marked

unfoldable pub unassign_serial : VoucherFileStore → ℕ → String → Exec World UnassignResult
unfolding unassign_found
unassign_serial s now serial =
    attempt (on_tables (fetch_by_serial serial)) >>= λ found. unassign_found s now serial found
