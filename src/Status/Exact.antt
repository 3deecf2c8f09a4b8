-- ===== src/Status/Exact.antt =====
-- What the status page answers when the database is there (voucher_status_handler.go).
use go_fdo_voucher_managemen.Prelude.{
  ◌≡◌, refl, inl, inr, String, Bool, true, false, ◌||◌, some, [], ◌==◌, Bool-cases, if◌then◌else◌,
  arith,
}
use go_fdo_voucher_managemen.Backend.{
  rejected, Result, ok, err, Backend, pure, raise, attempt, ◌>>=◌,
}
use go_fdo_voucher_managemen.Backend.Laws.{IsReliable, query_reliable, statement_reliable}
use go_fdo_voucher_managemen.Environment.{Environment}
use go_fdo_voucher_managemen.Identity.{CallerIdentity}
use go_fdo_voucher_managemen.Transmission.{VoucherTransmissionRecord, Tables}
use go_fdo_voucher_managemen.Transmission.Store.{
  first_row, select_guid, select_serial, fetch_latest_by_guid, fetch_by_serial,
}
use go_fdo_voucher_managemen.Transmission.Access.{may_see, has_access_by_guid_reliable}
use go_fdo_voucher_managemen.Assign.Handler.{authenticate_caller}
use go_fdo_voucher_managemen.Status.{
  VoucherStatusHandler, StatusRequest, StatusAnswer, shown, build_status_response, identifier_kind,
  look_up, not_found, is_unscoped, after_look_up, serve_http,
}
use go_fdo_voucher_managemen.Status.Laws.{own-may_see, look_up-InTable}
use go_fdo_voucher_managemen.Status.Paths.{extract_last_path_segment, strip_hyphens}

abbrev Row : Type 0
Row = VoucherTransmissionRecord

-- the newest row of a GUID or of a serial number
unfoldable pub found_row : Bool → String → Tables → Result Row
found_row true id t =
    if strip_hyphens id == ""
    then err (rejected "guid cannot be empty")
    else first_row (select_guid (strip_hyphens id) t)
found_row false id t = first_row (select_serial id t)

-- the answer to a caller: a voucher that it may not see is as one that is not there
abbrev pub page_for : Environment → CallerIdentity → Tables → Result Row → StatusAnswer
page_for env caller t (err e) = not_found
page_for env caller t (ok rec) =
    if is_unscoped caller || may_see rec.voucher_guid caller.fingerprint t
    then shown (build_status_response env rec)
    else not_found

abbrev calm : Backend Tables → Backend Tables
calm b = record { content = b.content; outages = [] }

look_up_reliable :
    (is_guid : Bool) (id : String) (b : Backend Tables)
    → IsReliable b
    → look_up is_guid id b ≡ (found_row is_guid id b.content, calm b)
unfolding look_up found_row fetch_latest_by_guid fetch_by_serial ◌>>=◌ raise
look_up_reliable true id b rel = elim (Bool-cases (strip_hyphens id == "")) [
  | inl e ↦ rw (e, ← rel) refl
  | inr e ↦
      rw
        (
          e,
          statement_reliable (λ (t : Tables). (first_row (select_guid (strip_hyphens id) t), t)) b
              rel,
        )
        refl
]
look_up_reliable false id b rel = rw (query_reliable (select_serial id) b rel) refl

page_found :
    (env : Environment) (caller : CallerIdentity) (is_guid : Bool) (id : String) (t : Tables)
    → (after_look_up env caller (found_row is_guid id t) (record { content = t; outages = [] })).0
      ≡ ok (page_for env caller t (found_row is_guid id t))
unfolding pure attempt ◌>>=◌
page_found env caller is_guid id t = go (found_row is_guid id t) (λ rec e. known rec e)
  where
    b : Backend Tables
    b = record { content = t; outages = [] }

    known :
        (rec : Row)
        → found_row is_guid id t ≡ ok rec
        → (rec.owner_key_fingerprint == caller.fingerprint) ≡ true
        → may_see rec.voucher_guid caller.fingerprint t ≡ true
    known rec e own =
        own-may_see caller.fingerprint t rec
          (look_up-InTable is_guid id b (rw (look_up_reliable is_guid id b refl) e)) own

    go :
        (o : Result Row)
        → ((rec : Row)
            → o ≡ ok rec
            → (rec.owner_key_fingerprint == caller.fingerprint) ≡ true
            → may_see rec.voucher_guid caller.fingerprint t ≡ true)
        → (after_look_up env caller o b).0 ≡ ok (page_for env caller t o)
    go (err e) k = refl
    go (ok rec) k = elim (Bool-cases (is_unscoped caller)) [
      | inl e ↦ rw e refl
      | inr e ↦
          rw (e, has_access_by_guid_reliable rec.voucher_guid caller.fingerprint b refl)
            (elim (Bool-cases (may_see rec.voucher_guid caller.fingerprint t)) [
              | inl sees ↦ rw sees refl
              | inr blind ↦
                  let stranger : (rec.owner_key_fingerprint == caller.fingerprint) ≡ false =
                    ground (arith, blind, k rec refl) in
                  rw (blind, stranger) refl
            ])
    ]

pub serve_http-page_for :
    (env : Environment) (h : VoucherStatusHandler) (r : StatusRequest) (b : Backend Tables)
    (caller : CallerIdentity) (is_guid : Bool)
    → IsReliable b
    → (r.method == "GET") ≡ true
    → authenticate_caller h.validate_token r.authorization ≡ ok caller
    → (extract_last_path_segment r.path == "") ≡ false
    → identifier_kind r.identifier_type (extract_last_path_segment r.path) ≡ some is_guid
    → (serve_http env h r b).0
      ≡ ok (
          page_for env caller b.content
            (found_row is_guid (extract_last_path_segment r.path) b.content))
unfolding serve_http attempt ◌>>=◌
serve_http-page_for env h r b caller is_guid rel get known named kind =
    rw (get, known, named, kind)
      (rw (look_up_reliable is_guid (extract_last_path_segment r.path) b rel)
        (page_found env caller is_guid (extract_last_path_segment r.path) b.content))
