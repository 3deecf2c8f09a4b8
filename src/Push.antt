-- ===== src/Push.antt =====
-- voucher_push_service.go: delivery attempts and what they leave in the table.
pub mod Client
pub mod Backoff
pub mod Attempts
pub mod Liveness
pub mod Races
pub mod Overdue
pub mod Rows
pub mod Queue
use Client.{push}
use Backoff.{backoff_duration}
use go_fdo_voucher_managemen.Prelude.{
  ℕ, zero, suc, ◌+◌, ◌*◌, String, Bool, true, false, ◌&&◌, ◌||◌, not, Option, none, some, leb, ◌==◌,
  if◌then◌else◌,
}
use go_fdo_voucher_managemen.Prelude.Int.{ℤ, pos, negsuc, pos_part, is_nonpos, ◌+ℤ◌, ltb_ℤ}
use go_fdo_voucher_managemen.Backend.{
  Error, unavailable, no_rows, constraint, rejected, push_error, Result, ok, err, Exec, pure, raise,
  attempt, ◌>>=◌, ◌>>◌,
}
use go_fdo_voucher_managemen.Config.{Config, hour}
use go_fdo_voucher_managemen.Destination.{
  VoucherDestination, VoucherDestinationResolver, resolve_destination,
}
use go_fdo_voucher_managemen.Disk.{remove_file}
use go_fdo_voucher_managemen.Environment.{Environment}
use go_fdo_voucher_managemen.Transmission.{
  VoucherTransmissionRecord, transmission_status_pending, transmission_status_succeeded,
  transmission_status_failed,
}
use go_fdo_voucher_managemen.Transmission.Store.{with_defaults, create_pending, mark_attempt}
use go_fdo_voucher_managemen.World.{World, on_tables, on_disk, on_partners}

-- The pointers that may be nil, as flags; the config of a service that is built is there.
pub record VoucherPushService : Type 0 where
  pub config : Config
  pub has_store : Bool
  pub resolver : Option VoucherDestinationResolver
  pub has_client : Bool
  pub has_owner_key : Bool  -- the client's `OwnerKey`

unfoldable pub enabled : Config → Bool
enabled cfg =
    cfg.destination_callback.enabled
    || cfg.did_push_enabled
    || cfg.push_service.enabled && not (cfg.push_service.url == "")

unfoldable pub retry_interval : Config → ℤ
retry_interval cfg =
    if not (is_nonpos cfg.push_service.retry_interval)
    then cfg.push_service.retry_interval
    else if not (is_nonpos cfg.retry_worker.retry_interval)
    then cfg.retry_worker.retry_interval
    else pos (8 * hour)

unfoldable pub max_attempts : Config → ℕ
max_attempts cfg =
    if not (is_nonpos cfg.push_service.max_attempts)
    then pos_part cfg.push_service.max_attempts
    else if not (is_nonpos cfg.retry_worker.max_attempts)
    then pos_part cfg.retry_worker.max_attempts
    else 5

-- `errors.As(err, &pushErr)`: whether the error is permanent, and the server's Retry-After
abbrev pub is_permanent : Error → Bool
is_permanent (push_error transient retry_after text) = not transient
is_permanent e = false

abbrev pub server_retry_after : Error → ℤ
server_retry_after (push_error transient retry_after text) = retry_after
server_retry_after e = pos 0

abbrev pub error_text : Error → String
error_text unavailable = "unavailable"
error_text no_rows = "sql: no rows in result set"
error_text constraint = "UNIQUE constraint failed"
error_text (rejected text) = text
error_text (push_error transient retry_after text) = text

unfoldable pub backoff : Environment → Config → ℕ → ℕ → Error → ℤ
backoff env cfg now attempts e =
    let d = backoff_duration (env.rand_float now) attempts (retry_interval cfg) in
    if ltb_ℤ d (server_retry_after e) then server_retry_after e else d

-- `time.Now().UTC().Add(backoff)`
abbrev pub add_time : ℕ → ℤ → ℕ
add_time now d = pos_part (pos now +ℤ d)

-- the status and the retry time after a failed attempt; 0 is the zero time
unfoldable pub after_failure : Environment → Config → ℕ → ℕ → Error → String × ℕ
after_failure env cfg now attempts e =
    if is_permanent e
    then (transmission_status_failed, 0)
    else if leb (max_attempts cfg) attempts
    then (transmission_status_failed, 0)
    else (transmission_status_pending, add_time now (backoff env cfg now attempts e))

-- a file that cannot be removed is logged
unfoldable pub delete_if_configured : Config → String → Exec World Unit
delete_if_configured cfg path =
    if cfg.push_service.delete_after_success
    then (do attempt (on_disk (remove_file path)); pure tt)
    else pure tt

-- what follows the push; a failed MarkAttempt after a failed push is logged
unfoldable pub settle :
    Environment → Config → ℕ → ℕ → VoucherTransmissionRecord → Result (Unit {0}) → Exec World Unit
unfolding delete_if_configured after_failure
settle env cfg now attempts rec (ok _) = do
  on_tables (mark_attempt now rec.id transmission_status_succeeded attempts 0 "" true)
  delete_if_configured cfg rec.file_path
settle env cfg now attempts rec (err e) = do
  let (status, retry_after) = after_failure env cfg now attempts e
  attempt (on_tables (mark_attempt now rec.id status attempts retry_after (error_text e) false))
  raise e

abbrev pub destination_of : VoucherTransmissionRecord → VoucherDestination
destination_of rec = record {
  url = rec.destination_url;
  token = rec.auth_token;
  source = rec.destination_source;
  mode = rec.mode;
}

unfoldable pub attempt_delivery :
    Environment → VoucherPushService → ℕ → VoucherTransmissionRecord → Exec World Unit
unfolding settle
attempt_delivery env svc now rec = do
  outcome ← attempt (push env svc.has_owner_key now (destination_of rec) rec.file_path)
  settle env svc.config now (suc rec.attempts) rec outcome

unfoldable pub attempt_record :
    Environment → VoucherPushService → ℕ → Option VoucherTransmissionRecord → Exec World Unit
unfolding attempt_delivery
attempt_record env svc now none =
    if not svc.has_client || not svc.has_store
    then raise (rejected "voucher push service not fully configured")
    else raise (rejected "transmission record cannot be nil")
attempt_record env svc now (some rec) =
    if not svc.has_client || not svc.has_store
    then raise (rejected "voucher push service not fully configured")
    else if rec.file_path == ""
    then raise (rejected "transmission record missing voucher file path")
    else if rec.destination_url == ""
    then raise (rejected "transmission record missing destination URL")
    else attempt_delivery env svc now rec

-- the record that ProcessVoucher and the pipeline queue
abbrev pub queued :
    VoucherDestination → String → String → String → String → String → VoucherTransmissionRecord
queued dest guid file_path serial model owner_key_fingerprint = record {
  id = 0;
  voucher_guid = guid;
  file_path = file_path;
  destination_url = dest.url;
  auth_token = dest.token;
  destination_source = dest.source;
  mode = dest.mode;
  status = transmission_status_pending;
  attempts = 0;
  last_error = "";
  serial_number = serial;
  model_number = model;
  owner_key_fingerprint = owner_key_fingerprint;
  original_owner_fingerprint = "";
  assigned_at = none;
  assigned_to_fingerprint = "";
  assigned_to_did = "";
  assigned_by_fingerprint = "";
  created_at = 0;
  updated_at = 0;
  last_attempt_at = none;
  delivered_at = none;
  retry_after = none;
}

-- the row is created first, so that a crash or a failed push leaves it to the retry worker
unfoldable pub queue_and_attempt :
    Environment → VoucherPushService → ℕ → VoucherTransmissionRecord → Exec World Unit
unfolding attempt_record
queue_and_attempt env svc now rec = do
  id ← on_tables (create_pending now (some rec))
  attempt_record env svc now (some (record (with_defaults now rec) { id = id }))

unfoldable pub process_voucher :
    Environment
    → VoucherPushService
    → ℕ
    → String
    → String
    → String
    → String
    → String
    → String
    → Exec World Unit
unfolding queue_and_attempt enabled
process_voucher env svc now serial model guid file_path did_url owner_key_fingerprint =
    if not (enabled svc.config)
    then pure tt
    else if not svc.has_store || not svc.has_client
    then raise (rejected "voucher push service is not fully configured")
    else (elim svc.resolver [
      | none ↦ raise (rejected "voucher push service is not fully configured")
      | some resolver ↦
          on_partners
            (resolve_destination env resolver now serial model guid did_url owner_key_fingerprint)
          >>= λ dest. queue_and_attempt env svc now (queued dest guid file_path serial model "")
    ])
