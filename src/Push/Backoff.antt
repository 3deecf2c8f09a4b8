-- ===== src/Push/Backoff.antt =====
-- voucher_push_service.go: `backoffDuration`, in the arithmetic of int64.
pub mod Bounds
pub mod Overflow
use go_fdo_voucher_managemen.Prelude.{
  ℕ, zero, suc, ◌+◌, ◌-◌, ◌*◌, ◌/◌, ◌%◌, ◌^◌, Bool, true, false, ◌&&◌, ◌||◌, not, ltb, beq,
  if◌then◌else◌,
}
use go_fdo_voucher_managemen.Prelude.Int.{ℤ, pos, negsuc, pos_part, is_nonpos, ltb_ℤ}
use go_fdo_voucher_managemen.Config.{minute, hour}

-- the int64 with a bit pattern, and the pattern of an integer
abbrev pub to_int64 : ℕ → ℤ
to_int64 w = if ltb w (2 ^ 63) then pos w else negsuc (2 ^ 64 - 1 - w)

abbrev pub int64_bits : ℤ → ℕ
int64_bits (pos n) = n % 2 ^ 64
int64_bits (negsuc n) = 2 ^ 64 - 1 - n % 2 ^ 64

unfoldable pub add_int64 : ℤ → ℤ → ℤ
add_int64 a b = to_int64 ((int64_bits a + int64_bits b) % 2 ^ 64)

unfoldable pub mul_int64 : ℤ → ℤ → ℤ
mul_int64 a b = to_int64 (int64_bits a * int64_bits b % 2 ^ 64)

-- `attempt - 1` between 0 and 20
unfoldable pub backoff_shift : ℕ → ℕ
backoff_shift attempt = let shift = attempt - 1 in if ltb 20 shift then 20 else shift

-- the delay before the jitter
unfoldable pub backoff_delay : ℕ → ℤ → ℤ
unfolding mul_int64 backoff_shift
backoff_delay attempt base =
    let d =
      mul_int64 (if is_nonpos base then pos minute else base) (pos (2 ^ backoff_shift attempt)) in
    if ltb_ℤ (pos (24 * hour)) d then pos (24 * hour) else d

-- the powers of two that are rounded off where a natural number becomes a float64, which has 53 bits
unfoldable pub excess : ℕ → ℕ → ℕ
excess zero n = 0
excess (suc fuel) n = let rest = excess fuel (n / 2) in if ltb n (2 ^ 53) then 0 else suc rest

-- the nearest multiple of `q`, an even one where two are as near
unfoldable pub round_even : ℕ → ℕ → ℕ
round_even q n =
    let d = n / q in
    if ltb (2 * (n % q)) q || beq (2 * (n % q)) q && beq (d % 2) 0 then d * q else (d + 1) * q

-- the float64 of a natural number below 2 ^ 128
unfoldable pub to_float : ℕ → ℕ
unfolding excess round_even
to_float n = round_even (2 ^ excess 75 n) n

abbrev pub signed : Bool → ℕ → ℤ
signed true n = pos n
signed false zero = pos 0
signed false (suc n) = negsuc n

-- `2 * rand.Float64() - 1`, without its sign and in units of 2 ^ -52
abbrev pub off_centre : ℕ → ℕ
off_centre draw = if ltb draw (2 ^ 52) then 2 ^ 52 - draw else draw - 2 ^ 52

-- the size of the jitter of a delay of size `d`, cut to an integer
unfoldable pub jitter_size : ℕ → ℕ → ℕ
unfolding to_float
jitter_size draw d = to_float (to_float d * off_centre draw) / 2 ^ 54

-- `time.Duration(float64(d) * 0.25 * (2*rand.Float64() - 1))`, where `rand.Float64()` is
-- `draw` in units of 2 ^ -53: the products by 0.25 and by 2 and the difference are exact, the other
-- product is rounded
unfoldable pub jitter : ℕ → ℤ → ℤ
unfolding jitter_size
jitter draw (pos d) = signed (not (ltb draw (2 ^ 52))) (jitter_size draw d)
jitter draw (negsuc d) = signed (ltb draw (2 ^ 52)) (jitter_size draw (suc d))

unfoldable pub backoff_duration : ℕ → ℕ → ℤ → ℤ
unfolding backoff_delay add_int64 jitter
backoff_duration draw attempt base =
    let d = backoff_delay attempt base in add_int64 d (jitter draw d)
