-- ===== src/Push/Backoff/Overflow.antt =====
-- Where `backoffDuration` of voucher_push_service.go overflows, and what AttemptRecord makes of it.
use native.Mathlib.Nat.{mul-le-mul}
use go_fdo_voucher_managemen.Prelude.{
  ℕ, zero, suc, ◌+◌, ◌-◌, ◌*◌, ◌%◌, ◌^◌, ◌≤◌, ◌<◌, ◌≡◌, refl, Bool, true, false, ltb, arith,
}
use go_fdo_voucher_managemen.Prelude.Int.{pos, negsuc, is_nonpos}
use go_fdo_voucher_managemen.Config.{minute}
use go_fdo_voucher_managemen.Push.Backoff.{
  signed, add_int64, mul_int64, backoff_shift, backoff_delay, to_float, off_centre, jitter_size,
  jitter, backoff_duration,
}
use go_fdo_voucher_managemen.Push.Backoff.Bounds.{to_float_le}

-- what is left of 2 ^ 65 when the base is doubled twenty times
abbrev lack : ℕ → ℕ
lack b = 2 ^ 65 - b * 2 ^ 20

positive : (b : ℕ) → 0 < b → is_nonpos (pos b) ≡ false
positive zero h = elim h [ ]
positive (suc b) h = refl

module _ (b : ℕ) (low : 470 * minute ≤ b) (high : b ≤ 586 * minute) where
  wrapped : mul_int64 (pos b) (pos (2 ^ 20)) ≡ negsuc (lack b - 1)
  unfolding mul_int64
  wrapped =
      let e : b % 2 ^ 64 ≡ b = omega arith in
      let p : b * 2 ^ 20 % 2 ^ 64 ≡ b * 2 ^ 20 - 2 ^ 64 = omega arith in rw (e, p) (ground arith)

  delay : (attempt : ℕ) → 20 < attempt → backoff_delay attempt (pos b) ≡ negsuc (lack b - 1)
  unfolding backoff_delay
  delay attempt late =
      let some_base : is_nonpos (pos b) ≡ false = positive b (omega arith) in
      let last : backoff_shift attempt ≡ 20 = unfold backoff_shift in ground arith in
      rw (some_base, last, wrapped) (ground arith)

  size_le : (draw : ℕ) → draw < 2 ^ 53 → 4 * jitter_size draw (lack b) ≤ lack b
  unfolding jitter_size
  size_le draw random =
      let part : off_centre draw ≤ 2 ^ 52 = ground arith in
      let near : to_float (lack b) ≤ (2 ^ 45 - b) * 2 ^ 20 =
        to_float_le (2 ^ 45 - b) 20 (lack b) (omega arith) (omega arith) in
      let product : to_float (lack b) * off_centre draw ≤ ((2 ^ 45 - b) * 2 ^ 20) * 2 ^ 52 =
        mul-le-mul near part in
      let whole : to_float (to_float (lack b) * off_centre draw) ≤ (2 ^ 45 - b) * 2 ^ 72 =
        to_float_le (2 ^ 45 - b) 72 (to_float (lack b) * off_centre draw) (omega (arith, product))
          (omega (arith, product)) in
      omega arith

sum_negative :
    (m c : ℕ) (sign : Bool)
    → 0 < m
    → 5 * m ≤ 2 ^ 65
    → 4 * c ≤ m
    → (n : ℕ) × (add_int64 (negsuc (m - 1)) (signed sign c) ≡ negsuc n)
unfolding add_int64
sum_negative m c true some_m small part = (
  m - c - 1,
  let e : (2 ^ 64 - 1 - (m - 1) % 2 ^ 64 + c % 2 ^ 64) % 2 ^ 64 ≡ 2 ^ 64 - (m - c) = omega arith in
      rw e (ground arith),
)
sum_negative m zero false some_m small part = (
  m - 1,
  let e : (2 ^ 64 - 1 - (m - 1) % 2 ^ 64 + 0) % 2 ^ 64 ≡ 2 ^ 64 - m = omega arith in
      rw e (ground arith),
)
sum_negative m (suc c) false some_m small part = (
  m + c,
  let e : (2 ^ 64 - 1 - (m - 1) % 2 ^ 64 + (2 ^ 64 - 1 - c % 2 ^ 64)) % 2 ^ 64
          ≡ 2 ^ 64 - (m + suc c) =
        omega arith in
      rw e (ground arith),
)

-- from the twenty-first attempt on, with a base near eight hours, the wait is negative
pub duration_negative :
    (draw attempt b : ℕ)
    → draw < 2 ^ 53
    → 20 < attempt
    → 470 * minute ≤ b
    → b ≤ 586 * minute
    → (n : ℕ) × (backoff_duration draw attempt (pos b) ≡ negsuc n)
unfolding backoff_duration jitter
duration_negative draw attempt b random late low high =
    let back : suc (lack b - 1) ≡ lack b = omega arith in
    rw (delay b low high attempt late, back)
      (sum_negative (lack b) (jitter_size draw (lack b)) (ltb draw (2 ^ 52)) (omega arith)
        (omega arith) (size_le b low high draw random))
