-- ===== src/Examples/Delivery.antt =====
-- The theorems on delivery and retries, applied to one voucher that a busy receiver turns away.
use go_fdo_voucher_managemen.Prelude.{
  ℕ, ◌+◌, ◌*◌, ◌^◌, ◌≡◌, ◌≢◌, ◌≤◌, refl, true, false, some, [], ◌∷◌, ◌==◌, arith, All,
}
use go_fdo_voucher_managemen.Prelude.Int.{pos, negsuc}
use go_fdo_voucher_managemen.Push.Queue.{Sent, process_voucher-recorded}
use go_fdo_voucher_managemen.Backend.{push_error, ok, ◌>>=◌, pure}
use go_fdo_voucher_managemen.Config.{Config, default_config, hour}
use go_fdo_voucher_managemen.Destination.{
  VoucherDestination, VoucherDestinationResolver, by_callback, resolve_via_callback, after_callback,
  resolve_destination,
}
use go_fdo_voucher_managemen.Destination.Laws.{Routed, resolve_destination-Routed}
use go_fdo_voucher_managemen.Push.{
  retry_interval, after_failure, max_attempts, destination_of, attempt_record, VoucherPushService,
  enabled, queued, process_voucher,
}
use go_fdo_voucher_managemen.Push.Client.{push}
use go_fdo_voucher_managemen.Push.Attempts.{After, is_ready, attempt_record-recorded}
use go_fdo_voucher_managemen.Push.Backoff.{jitter, backoff_duration}
use go_fdo_voucher_managemen.Push.Backoff.Bounds.{doubled, backoff_duration_bounds}
use go_fdo_voucher_managemen.Push.Overdue.{after_failure_overdue}
use go_fdo_voucher_managemen.Push.Liveness.{retries, retries_settle}
use go_fdo_voucher_managemen.Push.Rows.{seen}
use go_fdo_voucher_managemen.Retry.{VoucherRetryWorker, process_batch}
use go_fdo_voucher_managemen.Retry.Laws.{
  process_batch_untouched, process_batches, process_batch_starved,
}
use go_fdo_voucher_managemen.Transmission.{
  VoucherTransmissionRecord, Tables, transmission_status_pending,
}
use go_fdo_voucher_managemen.Transmission.Store.{is_retriable, select_retriable}
use go_fdo_voucher_managemen.Prelude.Order.{sort_by}
use go_fdo_voucher_managemen.Transmission.Store.Rows.{row_at}
use go_fdo_voucher_managemen.World.{World}
use go_fdo_voucher_managemen.Examples.{
  env, service, pending_row, assigned_row, tables, store, world,
}
use go_fdo_voucher_managemen.Examples.Records.{tables-IsKeyed}

abbrev worker : VoucherRetryWorker
worker = record {
  config = default_config;
  has_store = true;
  push_service = service;
  interval = pos (8 * hour);
  batch_size = 5;
}

abbrev unaddressed_tables : Tables
unaddressed_tables = record tables {
  transmissions = record pending_row { destination_url = "" } ∷ [];
}

abbrev unaddressed_world : World
unaddressed_world = record world { tables = record { content = unaddressed_tables; outages = [] } }

abbrev callback_config : Config
callback_config = record default_config {
  destination_callback = record { enabled = true; external_command = "route"; timeout = pos 1 };
}

abbrev callback_resolver : VoucherDestinationResolver
callback_resolver = record {
  config = some callback_config;
  has_callback_executor = true;
  has_partner_store = true;
}

abbrev callback_destination : VoucherDestination
callback_destination = record {
  url = "https://callback/push";
  token = "";
  source = "callback";
  mode = "fallback";
}

attempt_record-recorded_example :
    After env service 9 pending_row
      (push env false 9 (destination_of pending_row) "v/a1.fdoov" world).0
      store
      (attempt_record env service 9 (some pending_row) world)
attempt_record-recorded_example =
    attempt_record-recorded env service 9 pending_row world refl refl refl refl refl

row_one : row_at 1 tables.transmissions ≡ ok pending_row
unfolding row_at
row_one = refl

retries_settle_example :
    (q : VoucherTransmissionRecord) × (row_at 1
        (retries env service 1 (9 ∷ 20 ∷ []) world).tables.content.transmissions
      ≡ ok q)
    × ((q.status == transmission_status_pending) ≡ false)
unfolding max_attempts
retries_settle_example =
    retries_settle env service (9 ∷ 20 ∷ []) 0 pending_row world refl row_one refl (omega arith)
      (omega arith)

-- the third attempt with a base of an hour, and a random float of 3/4
backoff_duration_bounds_example :
    (r : ℕ) × (backoff_duration (3 * 2 ^ 51) 3 (pos hour) ≡ pos r)
    × (3 * doubled 3 hour ≤ 4 * r)
    × (4 * r ≤ 5 * doubled 3 hour)
backoff_duration_bounds_example =
    backoff_duration_bounds (3 * 2 ^ 51) 3 hour (omega arith) (omega arith) (omega arith)

-- half a quarter is added to the four hours
backoff_duration_test : backoff_duration (3 * 2 ^ 51) 3 (pos hour) ≡ pos 16200000000000
unfolding backoff_duration
backoff_duration_test = refl

-- a product that a float64 does not hold is rounded
jitter_test : jitter 5000000000000001 (pos 86399999999999) ≡ pos 2380817331903
unfolding jitter
jitter_test = refl

jitter_wrapped_test :
    jitter 5000000000000001 (negsuc 9223372036854763462) ≡ negsuc 254156990786306207
unfolding jitter
jitter_wrapped_test = refl

abbrev patient : Config
patient = record default_config {
  push_service = record default_config.push_service { max_attempts = pos 30 };
}

after_failure_overdue_example :
    after_failure env patient 9 21 (push_error true (pos 0) "busy") ≡ ("pending", 9 + 0)
after_failure_overdue_example =
    after_failure_overdue env patient 9 21 (8 * hour) 0 (push_error true (pos 0) "busy")
      (unfold retry_interval in refl) (omega arith) (omega arith) (omega arith) (omega arith) refl
      refl (unfold max_attempts in refl)

row_two : seen 2 world ≡ ok assigned_row
unfolding row_at
row_two = refl

process_batch_untouched_example :
    seen 2 (process_batch env worker (9 ∷ 10 ∷ []) world).1 ≡ ok assigned_row
unfolding is_retriable
process_batch_untouched_example =
    process_batch_untouched env worker 9 (10 ∷ []) world 2 assigned_row tables-IsKeyed row_two refl

batch_unaddressed :
    (now : ℕ)
    → All (λ q. is_ready service q ≡ false) (select_retriable now (pos 5) unaddressed_tables)
unfolding select_retriable is_retriable sort_by
batch_unaddressed now = (refl, tt)

process_batch_starved_example :
    (process_batches env worker
      ((9, 10 ∷ []) ∷ (40, 41 ∷ []) ∷ [])
      unaddressed_world).tables.content
    ≡ unaddressed_tables
process_batch_starved_example =
    process_batch_starved env worker ((9, 10 ∷ []) ∷ (40, 41 ∷ []) ∷ []) unaddressed_world
      (batch_unaddressed 9, (batch_unaddressed 40, tt))

-- by the callback
callback_answer :
    (resolve_destination env callback_resolver 9 "S1" "M" "a1" "" "f0" world.partners).0
    ≡ ok callback_destination
unfolding resolve_destination by_callback resolve_via_callback after_callback ◌>>=◌ pure
callback_answer = refl

resolve_destination-Routed_example :
    (callback_destination.url ≢ "")
    × (callback_destination.mode ≡ "fallback")
    × Routed env callback_config 9 "S1" "M" "a1" "" "f0" [] callback_destination
resolve_destination-Routed_example =
    resolve_destination-Routed env callback_config callback_resolver 9 "S1" "M" "a1" "" "f0"
      world.partners {d = callback_destination} refl callback_answer

abbrev routed_service : VoucherPushService
routed_service = record service { resolver = some callback_resolver }

process_voucher-recorded_example :
    Sent env routed_service 9
      (queued callback_destination "a1" "v/a1.fdoov" "S1" "M" "")
      (record world {
        partners =
            (resolve_destination env callback_resolver 9 "S1" "M" "a1" "" "f0" world.partners).1;
      })
      (process_voucher env routed_service 9 "S1" "M" "a1" "v/a1.fdoov" "" "f0" world)
unfolding enabled
process_voucher-recorded_example =
    process_voucher-recorded env routed_service callback_resolver callback_config 9 "S1" "M" "a1"
      "v/a1.fdoov" "" "f0" world callback_destination refl tables-IsKeyed refl refl refl refl refl
      refl callback_answer
