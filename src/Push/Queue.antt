-- ===== src/Push/Queue.antt =====
-- ProcessVoucher of voucher_push_service.go: a voucher is filed, pushed, and kept whatever comes of it.
use go_fdo_voucher_managemen.Prelude.{
  ℕ, suc, ◌≡◌, refl, ap, ◌∙◌, String, true, false, some, [], ◌∷◌, ◌++◌, ◌==◌, eq_iff, beq_self,
  Bool-cases, inl, inr,
}
use go_fdo_voucher_managemen.Backend.{Result, ok, err, ◌>>=◌}
use go_fdo_voucher_managemen.Backend.Laws.{IsReliable, statement_reliable}
use go_fdo_voucher_managemen.Config.{Config}
use go_fdo_voucher_managemen.Destination.{
  VoucherDestination, VoucherDestinationResolver, resolve_destination,
}
use go_fdo_voucher_managemen.Destination.Laws.{resolve_destination-Routed}
use go_fdo_voucher_managemen.Environment.{Environment}
use go_fdo_voucher_managemen.Transmission.{VoucherTransmissionRecord}
use go_fdo_voucher_managemen.Transmission.Store.{
  with_defaults, insert_row, create_pending, update_row,
}
use go_fdo_voucher_managemen.Transmission.Store.Rows.{row_at, row_at-update, row_at-append}
use go_fdo_voucher_managemen.Transmission.Store.Identity.{IsKeyed, All-ne_next}
use go_fdo_voucher_managemen.Transmission.Store.Queries.{stored}
use go_fdo_voucher_managemen.World.{World, on_tables, on_partners}
use go_fdo_voucher_managemen.Push.Client.{push}
use go_fdo_voucher_managemen.Push.{
  VoucherPushService, enabled, destination_of, attempt_record, queued, queue_and_attempt,
  process_voucher,
}
use go_fdo_voucher_managemen.Push.Attempts.{recorded, After, attempt_record-recorded}
use go_fdo_voucher_managemen.Push.Liveness.{recorded-id}

abbrev Row : Type 0
Row = VoucherTransmissionRecord

-- the record that the attempt is given, and the world that it starts in
abbrev pub queued_as : ℕ → Row → World → Row
queued_as now r w = record (with_defaults now r) { id = suc w.tables.content.last_transmission_id }

abbrev pub with_row : ℕ → Row → World → World
with_row now r w = record w {
  tables = record { content = insert_row (with_defaults now r) w.tables.content; outages = [] };
}

pub created :
    (now : ℕ) (r : Row) (w : World)
    → IsReliable w.tables
    → on_tables (create_pending now (some r)) w
      ≡ (ok (suc w.tables.content.last_transmission_id), with_row now r w)
unfolding on_tables create_pending
created now r w rel = rw (statement_reliable _ w.tables rel) refl

-- an attempt reads of the record only how many attempts were made
same_record :
    (env : Environment) (cfg : Config) (now : ℕ) (r : Row) (o : Result (Unit {0})) (w : World)
    (q : Row)
    → recorded env cfg now (queued_as now r w) o q ≡ recorded env cfg now r o q
unfolding with_defaults
same_record env cfg now r (ok _) w q = refl
same_record env cfg now r (err e) w q = refl

-- the new row, once the attempt has rewritten it
pub kept :
    (env : Environment) (svc : VoucherPushService) (now : ℕ) (r : Row) (o : Result (Unit {0}))
    (w : World) (out : Result (Unit {0}) × World)
    → IsKeyed w.tables.content
    → After env svc now (queued_as now r w) o (with_row now r w).tables out
    → row_at (suc w.tables.content.last_transmission_id) out.1.tables.content.transmissions
      ≡ ok (
          recorded env svc.config now r o
            (stored now (suc w.tables.content.last_transmission_id) r))
unfolding update_row insert_row
kept env svc now r o w (got, v) k (e, t) =
    let id = suc w.tables.content.last_transmission_id in
    let rows = w.tables.content.transmissions in
    let fresh : row_at id (rows ++ stored now id r ∷ []) ≡ ok (stored now id r) =
      row_at-append id (stored now id r) rows
        (All-ne_next w.tables.content.last_transmission_id rows k.issued)
      ∙ rw (beq_self id) refl in
    rw t (
      row_at-update id id (recorded env svc.config now (queued_as now r w) o)
        (rows ++ stored now id r ∷ []) (recorded-id env svc now (queued_as now r w) o)
      ∙ rw (beq_self id, fresh)
          (ap (λ (x : Row). ok x) (same_record env svc.config now r o w (stored now id r))))

-- the outcome of the push of a record, made once its row is in the table
abbrev pub pushed_to : Environment → VoucherPushService → ℕ → Row → World → Result (Unit {0})
pushed_to env svc now r w =
    (push env svc.has_owner_key now (destination_of r) r.file_path (with_row now r w)).0

-- What ProcessVoucher does once it has a destination: the outcome of the push is returned, and the
-- new row records it.
abbrev pub Sent :
    Environment → VoucherPushService → ℕ → Row → World → Result (Unit {0}) × World → Type 0
Sent env svc now r w (got, after) =
    (got ≡ pushed_to env svc now r w)
    × (row_at (suc w.tables.content.last_transmission_id) after.tables.content.transmissions
        ≡ ok (
            recorded env svc.config now r (pushed_to env svc now r w)
              (stored now (suc w.tables.content.last_transmission_id) r)))

queue_and_attempt-Sent :
    (env : Environment) (svc : VoucherPushService) (now : ℕ) (r : Row) (w : World)
    → IsReliable w.tables
    → IsKeyed w.tables.content
    → svc.has_client ≡ true
    → svc.has_store ≡ true
    → (r.file_path == "") ≡ false
    → (r.destination_url == "") ≡ false
    → Sent env svc now r w (queue_and_attempt env svc now r w)
unfolding queue_and_attempt ◌>>=◌ with_defaults
queue_and_attempt-Sent env svc now r w rel keyed client store path url = rw (created now r w rel) (
    let done =
      attempt_record-recorded env svc now (queued_as now r w) (with_row now r w) refl client store
        path url in
    (
      done.0,
      kept env svc now r _ w
          (attempt_record env svc now (some (queued_as now r w)) (with_row now r w)) keyed done,
    ))

-- With tables that do not fail and ids issued by the counter, an enabled service with a store, a
-- client and a resolver that answers with a destination files the voucher under the next id, and
-- returns the outcome of a push to that destination, made from the state that has the row. The row
-- then records this outcome: whatever it is, the voucher has a row.
pub process_voucher-recorded :
    (env : Environment) (svc : VoucherPushService) (resolver : VoucherDestinationResolver)
    (cfg : Config) (now : ℕ) (serial model guid file_path did_url fp : String) (w : World)
    (d : VoucherDestination)
    → IsReliable w.tables
    → IsKeyed w.tables.content
    → enabled svc.config ≡ true
    → svc.has_store ≡ true
    → svc.has_client ≡ true
    → svc.resolver ≡ some resolver
    → resolver.config ≡ some cfg
    → (file_path == "") ≡ false
    → (resolve_destination env resolver now serial model guid did_url fp w.partners).0 ≡ ok d
    → Sent env svc now
        (queued d guid file_path serial model "")
        (record w {
          partners =
              (resolve_destination env resolver now serial model guid did_url fp w.partners).1;
        })
        (process_voucher env svc now serial model guid file_path did_url fp w)
unfolding process_voucher on_partners ◌>>=◌
process_voucher-recorded env svc resolver cfg now serial model guid file_path did_url fp w d rel
      keyed on store client resolves set path found =
    rw (on, store, client, resolves, found)
      (queue_and_attempt-Sent env svc now (queued d guid file_path serial model "")
        (record w {
          partners =
              (resolve_destination env resolver now serial model guid did_url fp w.partners).1;
        })
        rel keyed client store path addressed)
  where
    addressed : (d.url == "") ≡ false
    addressed = elim (Bool-cases (d.url == "")) [
      | inl e ↦ absurd (
          (resolve_destination-Routed env cfg resolver now serial model guid did_url fp w.partners
              {d = d} set found).0
            ((eq_iff d.url "").0 e))
      | inr e ↦ e
    ]
