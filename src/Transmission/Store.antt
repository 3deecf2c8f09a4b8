-- ===== src/Transmission/Store.antt =====
-- voucher_transmission_store.go: the statements on voucher_transmissions.
pub mod Rows
pub mod Identity
pub mod Queries
pub mod Batch
pub mod Consistency
use go_fdo_voucher_managemen.Prelude.{
  ℕ, zero, suc, String, Bool, true, false, ◌&&◌, Option, none, some, List, [], ◌∷◌, ◌++◌, map,
  filter, take, not, beq, leb, ltb, ◌==◌, if◌then◌else◌,
}
use go_fdo_voucher_managemen.Prelude.Int.{ℤ, pos, negsuc}
use go_fdo_voucher_managemen.Prelude.Order.{sort_by}
use go_fdo_voucher_managemen.Backend.{
  Error, no_rows, rejected, Result, ok, err, Exec, pure, raise, ◌>>=◌, Backend, statement, query,
  command,
}
use go_fdo_voucher_managemen.Transmission.{
  VoucherTransmissionRecord, Tables, null_time, limit_or, sql_limit, transmission_status_pending,
  transmission_status_assigned,
}

-- What `CreatePending` fills in before it inserts.
unfoldable pub with_defaults : ℕ → VoucherTransmissionRecord → VoucherTransmissionRecord
with_defaults now r =
    let created = if beq r.created_at 0 then now else r.created_at in
    record r {
      status = if r.status == "" then transmission_status_pending else r.status;
      created_at = created;
      updated_at = if beq r.updated_at 0 then created else r.updated_at;
    }

-- The INSERT names neither `last_attempt_at` nor `delivered_at`, and the id is the next one.
unfoldable pub insert_row : VoucherTransmissionRecord → Tables → Tables
insert_row r t =
    let fresh = suc t.last_transmission_id in
    record t {
      transmissions =
          t.transmissions
          ++ record r { id = fresh; last_attempt_at = none; delivered_at = none } ∷ [];
      last_transmission_id = fresh;
    }

unfoldable pub create_pending : ℕ → Option VoucherTransmissionRecord → Exec (Backend Tables) ℕ
create_pending now none = raise (rejected "record cannot be nil")
create_pending now (some r) =
    statement (λ t. (ok (suc t.last_transmission_id), insert_row (with_defaults now r) t))

-- `UPDATE voucher_transmissions SET … WHERE id = ?`
unfoldable pub update_row :
    ℕ → (VoucherTransmissionRecord → VoucherTransmissionRecord) → Tables → Tables
update_row id f t = record t {
  transmissions = map (λ r. if beq r.id id then f r else r) t.transmissions;
}

unfoldable pub attempted :
    ℕ → String → ℕ → ℕ → String → Bool → VoucherTransmissionRecord → VoucherTransmissionRecord
attempted now status attempts retry_after last_error delivered r = record r {
  status = if status == "" then transmission_status_pending else status;
  attempts = attempts;
  last_error = last_error;
  updated_at = now;
  retry_after = null_time retry_after;
  last_attempt_at = some now;
  delivered_at = if delivered then some now else r.delivered_at;
}

unfoldable pub mark_attempt : ℕ → ℕ → String → ℕ → ℕ → String → Bool → Exec (Backend Tables) Unit
mark_attempt now id status attempts retry_after last_error delivered =
    command (update_row id (attempted now status attempts retry_after last_error delivered))

-- `retry_after IS NULL OR retry_after <= ?`
abbrev pub is_due : ℕ → Option ℕ → Bool
is_due now none = true
is_due now (some t) = leb t now

unfoldable pub is_retriable : ℕ → VoucherTransmissionRecord → Bool
is_retriable now r = r.status == transmission_status_pending && is_due now r.retry_after

-- `ORDER BY retry_after ASC, created_at ASC`: SQLite puts NULL before every value
abbrev pub by_retry_after : Option ℕ → ℕ → Option ℕ → ℕ → Bool
by_retry_after none c none d = leb c d
by_retry_after none c (some u) d = true
by_retry_after (some t) c none d = false
by_retry_after (some t) c (some u) d = if beq t u then leb c d else ltb t u

unfoldable pub retry_order : VoucherTransmissionRecord → VoucherTransmissionRecord → Bool
retry_order a b = by_retry_after a.retry_after a.created_at b.retry_after b.created_at

-- `ORDER BY created_at DESC`
unfoldable pub newest_first : VoucherTransmissionRecord → VoucherTransmissionRecord → Bool
newest_first a b = leb b.created_at a.created_at

unfoldable pub select_retriable : ℕ → ℤ → Tables → List VoucherTransmissionRecord
select_retriable now limit t =
    sql_limit limit (sort_by retry_order (filter (is_retriable now) t.transmissions))

unfoldable pub pending_for_retry : ℕ → ℤ → Exec (Backend Tables) (List VoucherTransmissionRecord)
pending_for_retry now limit = query (select_retriable now limit)

-- the optional conditions that `ListTransmissions` joins by AND
abbrev pub matches_if_given : String → String → Bool
matches_if_given wanted value = if wanted == "" then true else value == wanted

unfoldable pub select_listed : String → String → ℤ → Tables → List VoucherTransmissionRecord
select_listed status guid limit t = take (limit_or 50 limit) (
    sort_by newest_first (
      filter (λ r. matches_if_given status r.status && matches_if_given guid r.voucher_guid)
        t.transmissions))

unfoldable pub list_transmissions :
    String → String → ℤ → Exec (Backend Tables) (List VoucherTransmissionRecord)
list_transmissions status guid limit = query (select_listed status guid limit)

-- the one row of a `QueryRow`
abbrev pub first_row {ℓ} : {A : Type ℓ} → List A → Result A
first_row [] = err no_rows
first_row (r ∷ rs) = ok r

unfoldable pub select_guid : String → Tables → List VoucherTransmissionRecord
select_guid guid t = sort_by newest_first (filter (λ r. r.voucher_guid == guid) t.transmissions)

unfoldable pub fetch_latest_by_guid : String → Exec (Backend Tables) VoucherTransmissionRecord
fetch_latest_by_guid guid =
    if guid == ""
    then raise (rejected "guid cannot be empty")
    else statement (λ t. (first_row (select_guid guid t), t))

unfoldable pub fetch_by_id : ℤ → Exec (Backend Tables) VoucherTransmissionRecord
fetch_by_id (pos zero) = raise (rejected "invalid transmission id")
fetch_by_id (pos n) = statement (λ t. (first_row (filter (λ r. beq r.id n) t.transmissions), t))
fetch_by_id (negsuc n) = raise (rejected "invalid transmission id")

unfoldable pub list_by_owner : String → ℤ → Exec (Backend Tables) (List VoucherTransmissionRecord)
list_by_owner fingerprint limit = query λ t.
    take (limit_or 50 limit)
      (sort_by newest_first (filter (λ r. r.owner_key_fingerprint == fingerprint) t.transmissions))

-- a negative id is that of no row
abbrev pub drop_row : ℤ → Tables → Tables
drop_row (pos n) t = record t { transmissions = filter (λ r. not (beq r.id n)) t.transmissions }
drop_row (negsuc n) t = t

unfoldable pub delete_by_id : ℤ → Exec (Backend Tables) Unit
delete_by_id (pos zero) = raise (rejected "id cannot be zero")
delete_by_id id = command (drop_row id)

unfoldable pub select_serial : String → Tables → List VoucherTransmissionRecord
select_serial serial t =
    sort_by newest_first (filter (λ r. r.serial_number == serial) t.transmissions)

unfoldable pub fetch_by_serial : String → Exec (Backend Tables) (List VoucherTransmissionRecord)
fetch_by_serial serial = query (select_serial serial)

unfoldable pub assigned :
    ℕ → String → String → String → VoucherTransmissionRecord → VoucherTransmissionRecord
assigned now new_owner_fingerprint new_owner_did assigner_fingerprint r = record r {
  status = transmission_status_assigned;
  assigned_at = some now;
  assigned_to_fingerprint = new_owner_fingerprint;
  assigned_to_did = new_owner_did;
  assigned_by_fingerprint = assigner_fingerprint;
  updated_at = now;
}

unfoldable pub mark_assigned : ℕ → ℕ → String → String → String → Exec (Backend Tables) Unit
mark_assigned now id new_owner_fingerprint new_owner_did assigner_fingerprint =
    command (update_row id (assigned now new_owner_fingerprint new_owner_did assigner_fingerprint))

unfoldable pub unassigned : ℕ → String → VoucherTransmissionRecord → VoucherTransmissionRecord
unassigned now restore_status r = record r {
  status = restore_status;
  assigned_at = none;
  assigned_to_fingerprint = "";
  assigned_to_did = "";
  assigned_by_fingerprint = "";
  updated_at = now;
}

unfoldable pub mark_unassigned : ℕ → ℕ → String → Exec (Backend Tables) Unit
mark_unassigned now id restore_status = command (update_row id (unassigned now restore_status))
