-- ===== src/Listing.antt =====
-- voucher_list_handler.go: `GET {root}/list`, from the request to the response.
pub mod Laws
use go_fdo_voucher_managemen.Prelude.{
  ℕ, zero, suc, String, Bool, not, Option, none, some, List, map, ltb, length, beq, ◌==◌,
  if◌then◌else◌,
}
use go_fdo_voucher_managemen.Prelude.Int.{ℤ, pos, negsuc}
use go_fdo_voucher_managemen.Backend.{Result, ok, err, Exec, Backend, pure, attempt, ◌>>=◌}
use go_fdo_voucher_managemen.Environment.{Environment}
use go_fdo_voucher_managemen.Identity.{CallerIdentity, is_global}
use go_fdo_voucher_managemen.Assign.Handler.{authenticate_caller}
use go_fdo_voucher_managemen.Transmission.{VoucherTransmissionRecord, Tables}
use go_fdo_voucher_managemen.Transmission.Store.{list_transmissions}
use go_fdo_voucher_managemen.Transmission.Grants.{list_by_access_grant}
use go_fdo_voucher_managemen.Status.{map_transmission_status, format_if_set}

-- a nil `validateToken` is `none`
pub record VoucherListHandler : Type 0 where
  pub validate_token : Option (String → Result CallerIdentity)

pub record ListRequest : Type 0 where
  pub method : String
  pub authorization : String  -- "" where there is no such header
  pub limit : Option ℤ  -- the parameter by strconv.Atoi; `none` if it is absent or no number

pub record VoucherListItem : Type 0 where
  pub voucher_id : String
  pub serial : String
  pub status : String
  pub owner_key_fingerprint : String
  pub created_at : String
  pub assigned_at : String
  pub assigned_to_fingerprint : String
  pub assigned_to_did : String
  pub assigned_by_fingerprint : String
  pub destination : String
  pub push_attempts : ℕ

pub data ListAnswer : Type 0 where
  failure : (status : ℕ) → (message : String) → ListAnswer
  listed : (vouchers : List VoucherListItem) → (count : ℕ) → ListAnswer

abbrev pub requested_limit : Option ℤ → ℕ
requested_limit none = 50
requested_limit (some (pos zero)) = 50
requested_limit (some (pos (suc n))) = suc n
requested_limit (some (negsuc n)) = 50

unfoldable pub page_limit : Option ℤ → ℕ
page_limit limit = if ltb 200 (requested_limit limit) then 200 else requested_limit limit

unfoldable pub list_item : Environment → VoucherTransmissionRecord → VoucherListItem
unfolding map_transmission_status
list_item env rec = record {
  voucher_id = rec.voucher_guid;
  serial = rec.serial_number;
  status = map_transmission_status rec.status;
  owner_key_fingerprint = rec.owner_key_fingerprint;
  created_at = if beq rec.created_at 0 then "" else env.format_rfc3339 rec.created_at;
  assigned_at = format_if_set env rec.assigned_at;
  assigned_to_fingerprint = rec.assigned_to_fingerprint;
  assigned_to_did = rec.assigned_to_did;
  assigned_by_fingerprint = rec.assigned_by_fingerprint;
  destination = rec.destination_url;
  push_attempts = rec.attempts;
}

abbrev pub fetch_listed :
    CallerIdentity → ℕ → Exec (Backend Tables) (List VoucherTransmissionRecord)
fetch_listed caller limit =
    if is_global caller.auth_method
    then list_transmissions "" "" (pos limit)
    else list_by_access_grant caller.fingerprint (pos limit)

abbrev pub list_answer : Environment → Result (List VoucherTransmissionRecord) → ListAnswer
list_answer env (err e) = failure 500 "internal error"
list_answer env (ok records) = listed (map (list_item env) records) (length records)

abbrev pub serve_caller :
    Environment → Result CallerIdentity → ListRequest → Exec (Backend Tables) ListAnswer
serve_caller env (err e) r = pure (failure 401 "authentication required")
serve_caller env (ok caller) r =
    attempt (fetch_listed caller (page_limit r.limit)) >>= λ records. pure (list_answer env records)

unfoldable pub serve_http :
    Environment → VoucherListHandler → ListRequest → Exec (Backend Tables) ListAnswer
unfolding authenticate_caller page_limit list_item
serve_http env h r =
    if not (r.method == "GET")
    then pure (failure 405 "method not allowed")
    else serve_caller env (authenticate_caller h.validate_token r.authorization) r
