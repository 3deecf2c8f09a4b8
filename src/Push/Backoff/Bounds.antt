-- ===== src/Push/Backoff/Bounds.antt =====
-- How long `backoffDuration` of voucher_push_service.go waits.
use Prim.Native.Nat.{min}
use native.Mathlib.Decide.{dec_lt}
use native.Mathlib.Nat.{
  pow-le-pow_right, one-le-pow, mul-le-mul_right, mod-lt, div-add-mod', pow-suc, mul_assoc,
  add-zero, add-suc,
}
use go_fdo_voucher_managemen.Prelude.{
  ℕ, zero, suc, ◌+◌, ◌-◌, ◌*◌, ◌/◌, ◌%◌, ◌^◌, ◌≤◌, ◌<◌, ◌≡◌, ◌⊎◌, inl, inr, sym, ap, ◌∙◌, Bool,
  true, false, not, ltb, if◌then◌else◌, arith,
}
use go_fdo_voucher_managemen.Prelude.Int.{ℤ, pos, negsuc, pos_part, neg_part, ltb_ℤ}
use go_fdo_voucher_managemen.Config.{hour}
use go_fdo_voucher_managemen.Push.Backoff.{
  signed, to_int64, add_int64, mul_int64, backoff_shift, backoff_delay, excess, round_even,
  to_float, off_centre, jitter_size, jitter, backoff_duration,
}

-- 2 to the shift is 2 ^ 20 at most
power : (s : ℕ) → s ≤ 20 → 2 ^ s ≤ 2 ^ 20
power s h = pow-le-pow_right (omega arith) h

shift_le : (attempt : ℕ) → backoff_shift attempt ≤ 20
unfolding backoff_shift
shift_le attempt = ground arith

-- the product of two int64, as the pattern of the product
mul_pos :
    (b p : ℕ) → b < 2 ^ 63 → p ≤ 2 ^ 20 → mul_int64 (pos b) (pos p) ≡ to_int64 (b * p % 2 ^ 64)
unfolding mul_int64
mul_pos b p h k =
    let eb : b % 2 ^ 64 ≡ b = omega arith in let ep : p % 2 ^ 64 ≡ p = omega arith in rw (eb, ep)

-- the exponent is as small as the number allows
excess_le : (fuel n j : ℕ) → n < 2 ^ 53 * 2 ^ j → excess fuel n ≤ j
unfolding excess
excess_le zero n j h = omega arith
excess_le (suc fuel) n zero h = ground arith
excess_le (suc fuel) n (suc j) h =
    let rest : excess fuel (n / 2) ≤ j = excess_le fuel (n / 2) j (omega arith) in ground arith

-- the multiple below is not past one that the number is not past, and nor is the multiple above,
-- unless the number is a multiple itself
below_multiple :
    (q c d r : ℕ)
    → 0 < q
    → r < q
    → d * q + r ≤ c * q
    → (d * q ≤ c * q) × ((r ≡ 0) ⊎ ((d + 1) * q ≤ c * q))
below_multiple q c d r some_q small h = elim (dec_lt d c) [
  | yes p ↦
      (let up : (d + 1) * q ≤ c * q = mul-le-mul_right q (omega arith) in (omega arith, inr up))
  | no p ↦
      (let down : c * q ≤ d * q = mul-le-mul_right q (omega arith) in
        (omega arith, inl (omega arith)))
]

-- rounding to multiples of `q` does not pass a multiple of `q`
round_even_le : (q c n : ℕ) → 0 < q → n ≤ c * q → round_even q n ≤ c * q
unfolding round_even
round_even_le q c n some_q h =
    let (down, up) =
      below_multiple q c (n / q) (n % q) some_q (mod-lt n some_q) (rw (div-add-mod' n q) h) in
    elim up [
      | inl none_left ↦ rw none_left (ground (arith, down, some_q))
      | inr above ↦ ground (arith, down, above)
    ]

excess_zero : (fuel n : ℕ) → n < 2 ^ 53 → excess (suc fuel) n ≡ 0
unfolding excess
excess_zero fuel n h = ground arith

round_even_one : (n : ℕ) → round_even 1 n ≡ n
unfolding round_even
round_even_one n = ground arith

-- a natural number below 2 ^ 53 is a float64
to_float_exact : (n : ℕ) → n < 2 ^ 53 → to_float n ≡ n
unfolding to_float
to_float_exact n h = rw (excess_zero 74 n h) (round_even_one n)

pow_split : (k e : ℕ) → 2 ^ k * 2 ^ e ≡ 2 ^ (k + e)
pow_split k zero = rw add-zero (omega arith)
pow_split k (suc e) = rw (add-suc, pow-suc, pow-suc) (grind (arith, pow_split k e))

-- rounding does not pass a multiple of a power of two that is at least the unit of the last place
pub to_float_le : (c k n : ℕ) → n < 2 ^ 53 * 2 ^ k → n ≤ c * 2 ^ k → to_float n ≤ c * 2 ^ k
unfolding to_float
to_float_le c k n small h = go (excess 75 n) (excess_le 75 n k small)
  where
    go : (e : ℕ) → e ≤ k → round_even (2 ^ e) n ≤ c * 2 ^ k
    go e low =
        let same : (k - e) + e ≡ k = omega arith in
        let whole : 2 ^ (k - e) * 2 ^ e ≡ 2 ^ k = pow_split (k - e) e ∙ ap (λ x. 2 ^ x) same in
        let split : c * 2 ^ k ≡ (c * 2 ^ (k - e)) * 2 ^ e =
          ap (λ p. c * p) (sym whole) ∙ sym (mul_assoc c (2 ^ (k - e)) (2 ^ e)) in
        rw split (
          round_even_le (2 ^ e) (c * 2 ^ (k - e)) n (one-le-pow e 2 (omega arith)) (rw (← split) h))

signed_size : (b : Bool) (n : ℕ) → pos_part (signed b n) + neg_part (signed b n) ≡ n
signed_size true n = omega arith
signed_size false zero = omega arith
signed_size false (suc n) = omega arith

-- The jitter of a delay of at most 24 hours is at most a quarter of it, either way.
jitter_quarter :
    (draw d : ℕ)
    → draw < 2 ^ 53
    → d ≤ 24 * hour
    → 4 * (pos_part (jitter draw (pos d)) + neg_part (jitter draw (pos d))) ≤ d
unfolding jitter jitter_size
jitter_quarter draw d random h =
    rw
      (
        signed_size (not (ltb draw (2 ^ 52))) (to_float (to_float d * off_centre draw) / 2 ^ 54),
        to_float_exact d (omega arith),
      )
      (cut (off_centre draw) (ground arith))
  where
    cut : (m : ℕ) → m ≤ 2 ^ 52 → 4 * (to_float (d * m) / 2 ^ 54) ≤ d
    cut m k =
        let top : to_float (d * m) ≤ d * 2 ^ 52 =
          to_float_le d 52 (d * m) (grind arith) (grind arith) in
        omega arith

-- the delay, where the product fits an int64
delay_exact :
    (attempt b : ℕ)
    → 0 < b
    → b < 2 ^ 63
    → b * 2 ^ backoff_shift attempt < 2 ^ 63
    → backoff_delay attempt (pos b) ≡ pos (min (b * 2 ^ backoff_shift attempt) (24 * hour))
unfolding backoff_delay
delay_exact attempt zero h small fits = elim h [ ]
delay_exact attempt (suc b) h small fits =
    rw
      (mul_pos (suc b) (2 ^ backoff_shift attempt) small
        (power (backoff_shift attempt) (shift_le attempt)))
      (go (suc b * 2 ^ backoff_shift attempt) fits)
  where
    go :
        (n : ℕ)
        → n < 2 ^ 63
        → (if ltb_ℤ (pos (24 * hour)) (to_int64 (n % 2 ^ 64))
            then pos (24 * hour)
            else to_int64 (n % 2 ^ 64))
          ≡ pos (min n (24 * hour))
    go n k = let e : n % 2 ^ 64 ≡ n = omega arith in rw e (ground arith)

jittered :
    (d : ℕ) (j : ℤ)
    → d ≤ 24 * hour
    → 4 * (pos_part j + neg_part j) ≤ d
    → (r : ℕ) × (add_int64 (pos d) j ≡ pos r) × (3 * d ≤ 4 * r) × (4 * r ≤ 5 * d)
unfolding add_int64
jittered d (pos j) h k = (
  d + j,
  let e : (d % 2 ^ 64 + j % 2 ^ 64) % 2 ^ 64 ≡ d + j = omega arith in rw e (ground arith),
  omega arith,
  omega arith,
)
jittered d (negsuc j) h k = (
  d - suc j,
  let e : (d % 2 ^ 64 + (2 ^ 64 - 1 - j % 2 ^ 64)) % 2 ^ 64 ≡ d - suc j = omega arith in
      rw e (ground arith),
  omega arith,
  omega arith,
)

-- the delay before the jitter: the base, doubled at each attempt but the first and 20 times at most,
-- and 24 hours at most
abbrev pub doubled : ℕ → ℕ → ℕ
doubled attempt b = min (b * 2 ^ min (attempt - 1) 20) (24 * hour)

shift_is : (attempt : ℕ) → backoff_shift attempt ≡ min (attempt - 1) 20
unfolding backoff_shift
shift_is attempt = ground arith

-- With a base that is positive and whose product with the power of two fits an int64, and whatever
-- rand.Float64 gives, the wait before the next attempt lies within a quarter of the doubled base, either way.
pub backoff_duration_bounds :
    (draw attempt b : ℕ)
    → draw < 2 ^ 53
    → 0 < b
    → b * 2 ^ min (attempt - 1) 20 < 2 ^ 63
    → (r : ℕ) × (backoff_duration draw attempt (pos b) ≡ pos r)
      × (3 * doubled attempt b ≤ 4 * r)
      × (4 * r ≤ 5 * doubled attempt b)
unfolding backoff_duration
backoff_duration_bounds draw attempt b random h fits =
    let low : b < 2 ^ 63 = grind (arith, one-le-pow (min (attempt - 1) 20) 2) in
    let delay : backoff_delay attempt (pos b) ≡ pos (doubled attempt b) =
      delay_exact attempt b h low (rw (shift_is attempt) fits)
      ∙ ap (λ s. pos (min (b * 2 ^ s) (24 * hour))) (shift_is attempt) in
    let top : doubled attempt b ≤ 24 * hour = omega arith in
    rw delay (
      jittered _ (jitter draw (pos (doubled attempt b))) top
        (jitter_quarter draw (doubled attempt b) random top))
