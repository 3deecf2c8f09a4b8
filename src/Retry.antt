-- ===== src/Retry.antt =====
-- voucher_retry_worker.go: the worker that retries what is pending.
pub mod Laws
use go_fdo_voucher_managemen.Prelude.{
  ℕ, zero, suc, ◌*◌, Bool, true, false, ◌&&◌, not, some, List, [], ◌∷◌, ltb, if◌then◌else◌,
}
use go_fdo_voucher_managemen.Prelude.Int.{ℤ, pos, is_nonpos, pos_part}
use go_fdo_voucher_managemen.Backend.{Error, Result, ok, err, Exec, pure, attempt, ◌>>=◌, ◌>>◌}
use go_fdo_voucher_managemen.Config.{Config, hour}
use go_fdo_voucher_managemen.Environment.{Environment}
use go_fdo_voucher_managemen.Transmission.{VoucherTransmissionRecord}
use go_fdo_voucher_managemen.Transmission.Store.{pending_for_retry}
use go_fdo_voucher_managemen.World.{World, on_tables}
use go_fdo_voucher_managemen.Push.{VoucherPushService, attempt_record}
use go_fdo_voucher_managemen.Push

-- A worker that is built has a push service.
pub record VoucherRetryWorker : Type 0 where
  pub config : Config
  pub has_store : Bool
  pub push_service : VoucherPushService
  pub interval : ℤ
  pub batch_size : ℕ

unfoldable pub clamp_batch : ℕ → ℕ
clamp_batch n = if ltb n 5 then 5 else if ltb 50 n then 50 else n

unfoldable pub new_voucher_retry_worker : Config → Bool → VoucherPushService → VoucherRetryWorker
unfolding clamp_batch
new_voucher_retry_worker cfg has_store push_service = record {
  config = cfg;
  has_store = has_store;
  push_service = push_service;
  interval =
      if not (is_nonpos cfg.retry_worker.retry_interval)
      then cfg.retry_worker.retry_interval
      else if not (is_nonpos cfg.push_service.retry_interval)
      then cfg.push_service.retry_interval
      else pos (8 * hour);
  batch_size = clamp_batch (
      if not (is_nonpos cfg.retry_worker.max_attempts)
      then pos_part cfg.retry_worker.max_attempts
      else 10);
}

unfoldable pub worker_enabled : VoucherRetryWorker → Bool
worker_enabled w =
    w.config.retry_worker.enabled && w.has_store && Push.enabled w.push_service.config

-- The list has the times of the checks of the context that find it live; the next check finds it
-- cancelled.
unfoldable pub attempt_each :
    Environment → VoucherPushService → List ℕ → List VoucherTransmissionRecord → Exec World Unit
attempt_each env svc times [] = pure tt
attempt_each env svc [] (rec ∷ records) = pure tt
attempt_each env svc (now ∷ times) (rec ∷ records) =
    attempt (attempt_record env svc now (some rec)) >> attempt_each env svc times records

-- a failed query is logged
abbrev pub attempt_found :
    Environment
    → VoucherPushService
    → List ℕ
    → Result (List VoucherTransmissionRecord)
    → Exec World Unit
attempt_found env svc times (ok records) = attempt_each env svc times records
attempt_found env svc times (err e) = pure tt

unfoldable pub process_batch : Environment → VoucherRetryWorker → List ℕ → Exec World Unit
unfolding attempt_each
process_batch env w [] = pure tt
process_batch env w (now ∷ times) =
    attempt (on_tables (pending_for_retry now (pos w.batch_size))) >>= λ found.
    attempt_found env w.push_service times found
