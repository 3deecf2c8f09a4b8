-- ===== src/Push/Overdue.antt =====
-- The retry time of an attempt in voucher_push_service.go where the backoff overflows.
use go_fdo_voucher_managemen.Prelude.{
  ℕ, ◌+◌, ◌*◌, ◌^◌, ◌≤◌, ◌<◌, ◌≡◌, refl, true, false, leb, arith,
}
use go_fdo_voucher_managemen.Prelude.Int.{pos, negsuc, ltb_ℤ, ◌+ℤ◌}
use go_fdo_voucher_managemen.Backend.{Error}
use go_fdo_voucher_managemen.Config.{Config, minute}
use go_fdo_voucher_managemen.Environment.{Environment}
use go_fdo_voucher_managemen.Push.{
  retry_interval, max_attempts, is_permanent, server_retry_after, backoff, add_time, after_failure,
}
use go_fdo_voucher_managemen.Push.Backoff.Overflow.{duration_negative}

-- a negative wait is before any that the receiver asks for
ltb_ℤ_negative : (n r : ℕ) → ltb_ℤ (negsuc n) (pos r) ≡ true
ltb_ℤ_negative n r = ground arith

add_time_exact : (now r : ℕ) → add_time now (pos r) ≡ now + r
unfolding ◌+ℤ◌
add_time_exact now r = ground arith

-- With a retry interval from 7 h 50 min to 9 h 46 min, such as the default of 8 hours, and an attempt
-- after the twentieth that fails, not for good and not as the last one, the row stays pending and is
-- due again after the time that the receiver asks for, and at once where it asks for none: the backoff,
-- which is to be 24 hours, counts for nothing.
pub after_failure_overdue :
    (env : Environment) (cfg : Config) (now attempts b r : ℕ) (e : Error)
    → retry_interval cfg ≡ pos b
    → 470 * minute ≤ b
    → b ≤ 586 * minute
    → 20 < attempts
    → env.rand_float now < 2 ^ 53
    → server_retry_after e ≡ pos r
    → is_permanent e ≡ false
    → leb (max_attempts cfg) attempts ≡ false
    → after_failure env cfg now attempts e ≡ ("pending", now + r)
unfolding after_failure backoff
after_failure_overdue env cfg now attempts b r e interval low high late random asked fails left =
    let (n, negative) = duration_negative (env.rand_float now) attempts b random late low high in
    rw (fails, left, interval, asked, negative, ltb_ℤ_negative n r, add_time_exact now r) refl
