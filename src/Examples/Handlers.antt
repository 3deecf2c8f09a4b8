-- ===== src/Examples/Handlers.antt =====
-- The theorems on the status page and the list, applied to two vouchers.
use go_fdo_voucher_managemen.Prelude.{◌≤◌, ◌≡◌, refl, ◌∙◌, true, false, some, List, map, length}
use go_fdo_voucher_managemen.Prelude.Int.{pos}
use mathlib.Core.List.Memᴰ
use go_fdo_voucher_managemen.Prelude.Text.{to_lower, split_at_space}
use go_fdo_voucher_managemen.Prelude.Order.{sort_by}
use go_fdo_voucher_managemen.Backend.{ok}
use go_fdo_voucher_managemen.Identity.{CallerIdentity, fdo_key_auth}
use go_fdo_voucher_managemen.Assign.Handler.{authenticate_caller}
use go_fdo_voucher_managemen.Transmission.{VoucherTransmissionRecord}
use go_fdo_voucher_managemen.Transmission.Store.{select_guid}
use go_fdo_voucher_managemen.Transmission.Grants.{owns, grants_to}
use go_fdo_voucher_managemen.Transmission.Access.{may_see, IsAccessList}
use go_fdo_voucher_managemen.Status
use go_fdo_voucher_managemen.Status.{
  VoucherStatusHandler, StatusRequest, VoucherStatusResponse, shown, failure, build_status_response,
}
use go_fdo_voucher_managemen.Status.Paths.{
  extract_last_path_segment, is_guid_pattern, strip_hyphens, trim_slashes,
}
use go_fdo_voucher_managemen.Status.Laws.{serve_http-may_see}
use go_fdo_voucher_managemen.Status.Exact.{found_row, serve_http-page_for}
use go_fdo_voucher_managemen.Listing
use go_fdo_voucher_managemen.Listing.{
  VoucherListHandler, ListRequest, VoucherListItem, listed, list_item, page_limit,
}
use go_fdo_voucher_managemen.Listing.Laws.{serve_http-IsAccessList}
use go_fdo_voucher_managemen.Examples.{env, pending_row, tables, store}
use go_fdo_voucher_managemen.Examples.Records.{tables-IsKeyed}

abbrev partner_caller : CallerIdentity
partner_caller = record {
  fingerprint = "f9";
  identity_label = "partner";
  auth_method = fdo_key_auth;
  partner_id = "";
  has_owner_key = true;
}

abbrev status_handler : VoucherStatusHandler
status_handler = record { validate_token = some (λ token. ok partner_caller) }

abbrev list_handler : VoucherListHandler
list_handler = record { validate_token = some (λ token. ok partner_caller) }

abbrev pub status_request : StatusRequest
status_request = record {
  method = "GET";
  authorization = "Bearer t";
  path = "/api/v1/vouchers/status/a1/";
  identifier_type = "guid";
}

abbrev list_request : ListRequest
list_request = record { method = "GET"; authorization = "bearer t"; limit = some (pos 500) }

abbrev pub status_page : VoucherStatusResponse
status_page = build_status_response env pending_row

-- a GUID with hyphens is told from a serial number, and its hyphens are dropped
guid_with_hyphens :
    (is_guid_pattern "0123abcd-0123-ABCD-0123-0123456789ab" ≡ true)
    × (is_guid_pattern "0123abcd-0123-ABCD-0123-0123456789a" ≡ false)
    × (strip_hyphens "01-23" ≡ "0123")
unfolding is_guid_pattern strip_hyphens
guid_with_hyphens = (refl, refl, refl)

pub last_segment : extract_last_path_segment status_request.path ≡ "a1"
unfolding extract_last_path_segment trim_slashes
last_segment = refl

known_bearer :
    authenticate_caller (some (λ token. ok partner_caller)) "Bearer t" ≡ ok partner_caller
unfolding authenticate_caller split_at_space to_lower
known_bearer = refl

pub seen_one : may_see "a1" "f9" tables ≡ true
unfolding may_see owns grants_to
seen_one = refl

pub found_one : found_row true "a1" tables ≡ ok pending_row
unfolding found_row select_guid sort_by strip_hyphens
found_one = refl

page_shown : (Status.serve_http env status_handler status_request store).0 ≡ ok (shown status_page)
page_shown =
    serve_http-page_for env status_handler status_request store partner_caller true refl refl
      known_bearer (rw last_segment refl) (rw last_segment kind_guid)
    ∙ rw (last_segment, found_one, seen_one) refl
  where
    kind_guid : Status.identifier_kind "guid" "a1" ≡ some true
    kind_guid = unfold Status.identifier_kind in refl

serve_http-may_see_example : may_see "a1" "f9" tables ≡ true
unfolding build_status_response
serve_http-may_see_example =
    serve_http-may_see env status_handler status_request store partner_caller status_page
      known_bearer refl page_shown

serve_http-IsAccessList_example :
    (rows : List VoucherTransmissionRecord) × ((Listing.serve_http env list_handler list_request
        store).0
      ≡ ok (listed (map (list_item env) rows) (length rows)))
    × IsAccessList "f9" (page_limit (some (pos 500))) store rows
    × (page_limit (some (pos 500)) ≤ 200)
unfolding authenticate_caller split_at_space to_lower
serve_http-IsAccessList_example =
    serve_http-IsAccessList env list_handler list_request store partner_caller refl tables-IsKeyed
      refl refl refl
