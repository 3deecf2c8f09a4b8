-- ===== src/Pull/Page.antt =====
-- What one page of an owner's list holds (`List` of voucher_pull_store.go).
use go_fdo_voucher_managemen.Prelude.{
  ◌≡◌, ◌≤◌, refl, String, Bool, false, List, [], ◌∷◌, All, filter, take, length, length-take-le,
  any, ltb, ◌==◌, Bool-cases, inl, inr, arith,
}
use go_fdo_voucher_managemen.Transmission.{VoucherTransmissionRecord, limit_or}
use go_fdo_voucher_managemen.Transmission.Store.Identity.{Apart}
use go_fdo_voucher_managemen.Pull.{ListFilter, VoucherInfo, in_window, info, deduplicate, respond}

abbrev Row : Type 0
Row = VoucherTransmissionRecord

-- the GUID is not one of these
abbrev is_seen : List String → VoucherInfo → Bool
is_seen seen v = any (λ g. g == v.guid) seen

drop_seen :
    (g : String) (seen : List String) (vs : List VoucherInfo)
    → All (λ v. is_seen (g ∷ seen) v ≡ false) vs
    → All (λ v. is_seen seen v ≡ false) vs × All (λ v. (g == v.guid) ≡ false) vs
drop_seen g seen [] h = (tt, tt)
drop_seen g seen (v ∷ vs) (p, h) =
    let (a, b) = drop_seen g seen vs h in
    let q : is_seen seen v ≡ false = ground arith in
    let r : (g == v.guid) ≡ false = ground arith in ((q, a), (r, b))

abbrev pub DistinctGuids : List VoucherInfo → Type 0
DistinctGuids vs = Apart (λ (u v : VoucherInfo). (u.guid == v.guid) ≡ false) vs

-- a voucher is listed once, and not again if it was seen
deduplicate_lem :
    (seen : List String) (rows : List Row)
    → All (λ v. is_seen seen v ≡ false) (deduplicate seen rows)
      × DistinctGuids (deduplicate seen rows)
      × (length (deduplicate seen rows) ≤ length rows)
unfolding deduplicate info
deduplicate_lem seen [] = (tt, tt, omega arith)
deduplicate_lem seen (r ∷ rows) = elim (Bool-cases (any (λ g. g == r.voucher_guid) seen)) [
  | inl e ↦ (let (a, b, c) = deduplicate_lem seen rows in rw e (a, b, omega arith))
  | inr e ↦
      (let (a, b, c) = deduplicate_lem (r.voucher_guid ∷ seen) rows in
        let (old, other) =
          drop_seen r.voucher_guid seen (deduplicate (r.voucher_guid ∷ seen) rows) a in
        rw e ((e, old), (other, b), omega arith))
]

-- A page lists each voucher once, and at most as many as the limit, or 50 where that is not positive;
-- the total count is the number of vouchers on the page.
pub respond-DistinctGuids :
    (f : ListFilter) (rows : List Row)
    → DistinctGuids (respond f rows).vouchers
      × (length (respond f rows).vouchers ≤ limit_or 50 f.limit)
      × ((respond f rows).total_count ≡ length (respond f rows).vouchers)
unfolding respond
respond-DistinctGuids f rows =
    elim (Bool-cases (ltb (limit_or 50 f.limit) (length (filter (in_window f) rows)))) [
      | inl e ↦ rw e (
          page (take (limit_or 50 f.limit) (filter (in_window f) rows))
            (length-take-le (limit_or 50 f.limit) (filter (in_window f) rows)))
      | inr e ↦ rw e (page (filter (in_window f) rows) (ground arith))
    ]
  where
    page :
        (rs : List Row)
        → length rs ≤ limit_or 50 f.limit
        → DistinctGuids (deduplicate [] rs)
          × (length (deduplicate [] rs) ≤ limit_or 50 f.limit)
          × (length (deduplicate [] rs) ≡ length (deduplicate [] rs))
    page rs h = let (a, b, c) = deduplicate_lem [] rs in (b, omega arith, refl)
