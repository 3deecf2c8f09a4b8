-- ===== src/Push/Races.antt =====
-- An attempt of voucher_push_service.go on a record that was read before the voucher was assigned.
use go_fdo_voucher_managemen.Prelude.{
  ℕ, ◌≡◌, refl, ◌∙◌, ap, String, true, false, some, suc, [], ◌==◌, beq_self, Bool-cases, inl, inr,
}
use go_fdo_voucher_managemen.Backend.{Result, ok, err}
use go_fdo_voucher_managemen.Backend.Laws.{IsReliable, command_reliable}
use go_fdo_voucher_managemen.Environment.{Environment}
use go_fdo_voucher_managemen.Transmission.{VoucherTransmissionRecord, transmission_status_assigned}
use go_fdo_voucher_managemen.Transmission.Store.{update_row, assigned, mark_assigned}
use go_fdo_voucher_managemen.Transmission.Store.Rows.{row_at, row_at-update, map_ok}
use go_fdo_voucher_managemen.World.{World, on_tables}
use go_fdo_voucher_managemen.Push.{VoucherPushService, destination_of, attempt_record}
use go_fdo_voucher_managemen.Push.Client.{push}
use go_fdo_voucher_managemen.Push.Attempts.{recorded, gives_up, attempt_record-recorded}
use go_fdo_voucher_managemen.Push.Liveness.{recorded-id}

abbrev Row : Type 0
Row = VoucherTransmissionRecord

-- the assignment, between the reading of the record and the attempt
abbrev pub then_assigned : ℕ → Row → String → String → String → World → World
then_assigned at rec fp did by w = (on_tables (mark_assigned at rec.id fp did by) w).1

abbrev with_assigned : ℕ → Row → String → String → String → World → World
with_assigned at rec fp did by w = record w {
  tables = record {
    content = update_row rec.id (assigned at fp did by) w.tables.content;
    outages = [];
  };
}

marked :
    (at : ℕ) (rec : Row) (fp did by : String) (w : World)
    → IsReliable w.tables
    → then_assigned at rec fp did by w ≡ with_assigned at rec fp did by w
unfolding on_tables mark_assigned
marked at rec fp did by w rel =
    rw (command_reliable (update_row rec.id (assigned at fp did by)) w.tables rel) refl

recorded-unassigned :
    (env : Environment) (svc : VoucherPushService) (now : ℕ) (rec : Row) (o : Result (Unit {0}))
    (q : Row)
    → ((recorded env svc.config now rec o q).status == transmission_status_assigned) ≡ false
recorded-unassigned env svc now rec (ok u) q = refl
recorded-unassigned env svc now rec (err e) q =
    elim (Bool-cases (gives_up svc.config (suc rec.attempts) e)) [
      | inl k ↦ rw k refl
      | inr k ↦ rw k refl
    ]

recorded-owner :
    (env : Environment) (svc : VoucherPushService) (now : ℕ) (rec : Row) (o : Result (Unit {0}))
    (q : Row)
    → (recorded env svc.config now rec o q).assigned_to_fingerprint ≡ q.assigned_to_fingerprint
recorded-owner env svc now rec (ok u) q = refl
recorded-owner env svc now rec (err e) q = refl

rewritten :
    (env : Environment) (svc : VoucherPushService) (at now : ℕ) (rec : Row) (fp did by : String)
    (w : World) (o : Result (Unit {0}))
    → row_at rec.id w.tables.content.transmissions ≡ ok rec
    → row_at rec.id
        (update_row rec.id
          (recorded env svc.config now rec o)
          (with_assigned at rec fp did by w).tables.content).transmissions
      ≡ ok (recorded env svc.config now rec o (assigned at fp did by rec))
unfolding update_row assigned
rewritten env svc at now rec fp did by w o here =
    row_at-update rec.id rec.id (recorded env svc.config now rec o) _
      (recorded-id env svc now rec o)
    ∙ rw (beq_self rec.id) (ap (map_ok (recorded env svc.config now rec o)) handed)
  where
    handed :
        row_at rec.id (with_assigned at rec fp did by w).tables.content.transmissions
        ≡ ok (assigned at fp did by rec)
    handed =
        row_at-update rec.id rec.id (assigned at fp did by) w.tables.content.transmissions
          (λ r. refl)
        ∙ rw (beq_self rec.id, here) refl

-- With tables that do not fail, a row is assigned while an attempt on the record as it was read
-- before is still to be made: the attempt gives the row a status other than "assigned", and leaves
-- it the new owner that the assignment named.
pub attempt_record_stale :
    (env : Environment) (svc : VoucherPushService) (at now : ℕ) (rec : Row) (fp did by : String)
    (w : World)
    → IsReliable w.tables
    → row_at rec.id w.tables.content.transmissions ≡ ok rec
    → svc.has_client ≡ true
    → svc.has_store ≡ true
    → (rec.file_path == "") ≡ false
    → (rec.destination_url == "") ≡ false
    → (r : Row) × (row_at rec.id
          (attempt_record env svc now
            (some rec)
            (then_assigned at rec fp did by w)).1.tables.content.transmissions
        ≡ ok r)
      × ((r.status == transmission_status_assigned) ≡ false)
      × (r.assigned_to_fingerprint ≡ fp)
attempt_record_stale env svc at now rec fp did by w rel here client store path url =
    rw (marked at rec fp did by w rel) (
      let start = with_assigned at rec fp did by w in
      let done = attempt_record-recorded env svc now rec start refl client store path url in
      let o = (push env svc.has_owner_key now (destination_of rec) rec.file_path start).0 in
      (
        recorded env svc.config now rec o (assigned at fp did by rec),
        rw done.1 (rewritten env svc at now rec fp did by w o here),
        recorded-unassigned env svc now rec o (assigned at fp did by rec),
        recorded-owner env svc now rec o (assigned at fp did by rec) ∙ (unfold assigned in refl),
      ))
