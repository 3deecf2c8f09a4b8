-- ===== src/Assign/Unassign/Effect.antt =====
-- What the unassign command of voucher_assign_cli.go leaves in the tables.
use go_fdo_voucher_managemen.Prelude.{
  ℕ, ◌≡◌, ◌≢◌, refl, ap, ◌∙◌, String, true, List, [], ◌∷◌, ◌==◌, eq_iff, Bool-cases, inl, inr,
}
use go_fdo_voucher_managemen.Backend.{ok, pure, attempt, ◌>>=◌}
use go_fdo_voucher_managemen.Backend.Laws.{IsReliable, query_reliable, command_reliable}
use go_fdo_voucher_managemen.FileStore.{VoucherFileStore}
use go_fdo_voucher_managemen.Transmission.{
  VoucherTransmissionRecord, Tables, transmission_status_assigned,
}
use go_fdo_voucher_managemen.Transmission.Store.{
  select_serial, fetch_by_serial, update_row, unassigned, mark_unassigned,
}
use go_fdo_voucher_managemen.Transmission.Grants.{remove_grants, remove_access_grants_for_voucher}
use go_fdo_voucher_managemen.World.{World, on_tables, on_disk}
use go_fdo_voucher_managemen.Assign.Unassign.{restore_status, unassign_found, unassign_serial}

to_no_destination :
    (rec : VoucherTransmissionRecord)
    → rec.destination_url ≡ ""
    → restore_status rec ≡ "no_destination"
unfolding restore_status
to_no_destination rec e = rw e refl

to_pending :
    (rec : VoucherTransmissionRecord) → rec.destination_url ≢ "" → restore_status rec ≡ "pending"
unfolding restore_status
to_pending rec there = elim (Bool-cases (rec.destination_url == "")) [
  | inl e ↦ absurd (there ((eq_iff rec.destination_url "").0 e))
  | inr e ↦ rw e refl
]

-- what unassigning does, with the status as the command computes it
unassign_serial-restore :
    (s : VoucherFileStore) (now : ℕ) (serial : String) (w : World) (rec : VoucherTransmissionRecord)
    (older : List VoucherTransmissionRecord)
    → IsReliable w.tables
    → select_serial serial w.tables.content ≡ rec ∷ older
    → (rec.status == transmission_status_assigned) ≡ true
    → ((unassign_serial s now serial w).0
        ≡ ok (record { serial = serial; voucher_id = rec.voucher_guid; status = "ok" }))
      × ((unassign_serial s now serial w).1.tables.content
          ≡ remove_grants rec.voucher_guid
              (update_row rec.id (unassigned now (restore_status rec)) w.tables.content))
unfolding unassign_serial unassign_found fetch_by_serial mark_unassigned
    remove_access_grants_for_voucher on_tables on_disk ◌>>=◌ attempt pure
unassign_serial-restore s now serial w rec older rel newest taken =
    rw (query_reliable (select_serial serial) w.tables rel, newest, taken)
      (rw
        (command_reliable (update_row rec.id (unassigned now (restore_status rec)))
          (record { content = w.tables.content; outages = [] }) refl)
        (rw
          (command_reliable (remove_grants rec.voucher_guid)
            (record {
              content = update_row rec.id (unassigned now (restore_status rec)) w.tables.content;
              outages = [];
            })
            refl)
          (refl, refl)))

-- With tables that do not fail, unassigning a serial whose newest voucher is assigned says "ok"
-- whatever the disk does; of the tables, it rewrites that voucher's row, to pending where it has a
-- destination and to no_destination where not, and removes every access grant of the voucher,
-- those made before the assignment too.
pub unassign_serial-remove_grants :
    (s : VoucherFileStore) (now : ℕ) (serial : String) (w : World) (rec : VoucherTransmissionRecord)
    (older : List VoucherTransmissionRecord)
    → IsReliable w.tables
    → select_serial serial w.tables.content ≡ rec ∷ older
    → (rec.status == transmission_status_assigned) ≡ true
    → ((unassign_serial s now serial w).0
        ≡ ok (record { serial = serial; voucher_id = rec.voucher_guid; status = "ok" }))
      × ((rec.destination_url ≡ "")
          → (unassign_serial s now serial w).1.tables.content
            ≡ remove_grants rec.voucher_guid
                (update_row rec.id (unassigned now "no_destination") w.tables.content))
      × ((rec.destination_url ≢ "")
          → (unassign_serial s now serial w).1.tables.content
            ≡ remove_grants rec.voucher_guid
                (update_row rec.id (unassigned now "pending") w.tables.content))
unassign_serial-remove_grants s now serial w rec older rel newest taken =
    let (answer, left) = unassign_serial-restore s now serial w rec older rel newest taken in
    (
      answer,
      λ none_there. left ∙ ap (left_as s now rec w) (to_no_destination rec none_there),
      λ there. left ∙ ap (left_as s now rec w) (to_pending rec there),
    )
  where
    left_as : VoucherFileStore → ℕ → VoucherTransmissionRecord → World → String → Tables
    left_as s now rec w status =
        remove_grants rec.voucher_guid (update_row rec.id (unassigned now status) w.tables.content)
