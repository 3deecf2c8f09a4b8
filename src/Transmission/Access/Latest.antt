-- ===== src/Transmission/Access/Latest.antt =====
-- The latest row of a voucher, and who may see that voucher (voucher_transmission_store.go).
use mathlib.Core.Path.{subst}
use go_fdo_voucher_managemen.Prelude.{
  ◌≡◌, refl, sym, ◌∙◌, inl, inr, String, Bool, true, false, ◌&&◌, List, [], ◌∷◌, Memᴰ, All,
  All-filter, All-mem, filter-All, filter, any-at, ltb, ◌==◌, Bool-cases, if◌then◌else◌, arith,
}
use go_fdo_voucher_managemen.Prelude.Order.{All-sort_by}
use go_fdo_voucher_managemen.Backend.{rejected, ok, Backend, raise, statement}
use go_fdo_voucher_managemen.Backend.Laws.{statement-Ran, query-ok}
use go_fdo_voucher_managemen.Transmission.{VoucherTransmissionRecord, Tables}
use go_fdo_voucher_managemen.Transmission.Store.{
  newest_first, first_row, select_guid, fetch_latest_by_guid,
}
use go_fdo_voucher_managemen.Transmission.Grants.{owns, count_union, has_access_by_guid}
use go_fdo_voucher_managemen.Transmission.Access.{may_see, count_union-may_see}

abbrev Row : Type 0
Row = VoucherTransmissionRecord

-- a record of the table with this GUID
abbrev pub OfGuid : String → Tables → Row → Type 0
OfGuid guid t r = Memᴰ r t.transmissions × ((r.voucher_guid == guid) ≡ true)

pub first-All :
    (P : Row → Type 0) (rows : List Row) {r : Row} → All P rows → first_row rows ≡ ok r → P r
first-All P [] h e = absurd (cc)
first-All P (q ∷ rows) {r} (p, h) e = let same : q ≡ r = ground (arith, e) in subst P same p

pub guid-All : (guid : String) (t : Tables) → All (OfGuid guid t) (select_guid guid t)
unfolding select_guid
guid-All guid t = All-sort_by newest_first (OfGuid guid t) _ (
    both (filter (λ r. r.voucher_guid == guid) t.transmissions)
      (All-filter (λ r. Memᴰ r t.transmissions) (λ r. r.voucher_guid == guid) t.transmissions
        (All-mem t.transmissions))
      (filter-All (λ r. r.voucher_guid == guid) t.transmissions))
  where
    both :
        (rows : List Row)
        → All (λ r. Memᴰ r t.transmissions) rows
        → All (λ r. (r.voucher_guid == guid) ≡ true) rows
        → All (OfGuid guid t) rows
    both [] h k = tt
    both (r ∷ rows) (h, hs) (k, ks) = ((h, k), both rows hs ks)

pub latest :
    (guid : String) (b : Backend Tables) {r : Row}
    → (fetch_latest_by_guid guid b).0 ≡ ok r
    → OfGuid guid b.content r
unfolding fetch_latest_by_guid raise
latest guid b {r} h =
    first-All (OfGuid guid b.content) (select_guid guid b.content) {r = r} (guid-All guid b.content)
      (go (guid == "") h)
  where
    go :
        (c : Bool)
        → ((if c
              then raise (rejected "guid cannot be empty")
              else statement (λ (t : Tables). (first_row (select_guid guid t), t)))
            b).0
          ≡ ok r
        → first_row (select_guid guid b.content) ≡ ok r
    go true k = absurd (cc)
    go false k =
        ground (arith, k, statement-Ran (λ (t : Tables). (first_row (select_guid guid t), t)) b)

pub latest-content :
    (guid : String) (b : Backend Tables) → (fetch_latest_by_guid guid b).1.content ≡ b.content
unfolding fetch_latest_by_guid raise
latest-content guid b = elim (Bool-cases (guid == "")) [
  | inl e ↦ rw e refl
  | inr e ↦
      rw e (ground (arith, statement-Ran (λ (t : Tables). (first_row (select_guid guid t), t)) b))
]

pub owner-may_see :
    (guid fp : String) (t : Tables) (r : Row)
    → OfGuid guid t r
    → (r.owner_key_fingerprint == fp) ≡ true
    → may_see guid fp t ≡ true
unfolding may_see owns
owner-may_see guid fp t r (m, g) own =
    let e : (r.voucher_guid == guid && r.owner_key_fingerprint == fp) ≡ true = rw (g, own) refl in
    rw
      (any-at (λ (q : Row). q.voucher_guid == guid && q.owner_key_fingerprint == fp) t.transmissions
        m e)
      refl

pub access-may_see :
    (guid fp : String) (b : Backend Tables)
    → (has_access_by_guid guid fp b).0 ≡ ok true
    → may_see guid fp b.content ≡ true
unfolding has_access_by_guid
access-may_see guid fp b h =
    sym (count_union-may_see guid fp b.content)
    ∙ sym (query-ok (λ t. ltb 0 (count_union guid fp t)) b h)
