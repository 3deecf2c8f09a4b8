-- ===== src/Status.antt =====
-- voucher_status_handler.go: `GET {root}/status/{identifier}`, from the request to the response.
pub mod Paths
pub mod Laws
pub mod Exact
use go_fdo_voucher_managemen.Prelude.{
  ℕ, zero, String, Bool, true, false, ◌||◌, not, Option, none, some, beq, ◌==◌, if◌then◌else◌,
}
use go_fdo_voucher_managemen.Backend.{Error, Result, ok, err, Exec, Backend, pure, attempt, ◌>>=◌}
use go_fdo_voucher_managemen.Environment.{Environment}
use go_fdo_voucher_managemen.Identity.{CallerIdentity, AuthMethod, is_global}
use go_fdo_voucher_managemen.Assign.Handler.{authenticate_caller}
use go_fdo_voucher_managemen.Transmission.{
  VoucherTransmissionRecord, Tables, transmission_status_pending, transmission_status_succeeded,
  transmission_status_failed, transmission_status_permanent, transmission_status_assigned,
}
use go_fdo_voucher_managemen.Transmission.Store.{first_row, fetch_latest_by_guid, fetch_by_serial}
use go_fdo_voucher_managemen.Transmission.Grants.{has_access_by_guid}
use Paths.{extract_last_path_segment, is_guid_pattern, strip_hyphens}

abbrev Row : Type 0
Row = VoucherTransmissionRecord

-- a nil `validateToken` is `none`
pub record VoucherStatusHandler : Type 0 where
  pub validate_token : Option (String → Result CallerIdentity)

pub record StatusRequest : Type 0 where
  pub method : String
  pub authorization : String  -- "" where there is no such header
  pub path : String
  pub identifier_type : String  -- the query parameter `type`, "" where it is absent

-- A field that the JSON leaves out is "".
pub record VoucherStatusResponse : Type 0 where
  pub voucher_id : String
  pub serial : String
  pub status : String
  pub owner_key_fingerprint : String
  pub created_at : String
  pub signed_over_at : String
  pub pushed_at : String
  pub pushed_to : String
  pub push_attempts : ℕ
  pub last_push_error : String
  pub pulled_at : String
  pub assigned_at : String
  pub assigned_to_fingerprint : String
  pub assigned_to_did : String
  pub assigned_by_fingerprint : String
  pub error_message : String

pub data StatusAnswer : Type 0 where
  failure : (status : ℕ) → (message : String) → StatusAnswer
  shown : VoucherStatusResponse → StatusAnswer

unfoldable pub map_transmission_status : String → String
map_transmission_status status =
    if status == transmission_status_pending
    then "held"
    else if status == transmission_status_succeeded
    then "pushed"
    else if status == transmission_status_failed || status == transmission_status_permanent
    then "failed"
    else if status == transmission_status_assigned
    then "assigned"
    else "unknown"

abbrev pub format_if_set : Environment → Option ℕ → String
format_if_set env none = ""
format_if_set env (some t) = env.format_rfc3339 t

unfoldable pub build_status_response : Environment → Row → VoucherStatusResponse
unfolding map_transmission_status
build_status_response env rec = record {
  voucher_id = rec.voucher_guid;
  serial = rec.serial_number;
  status = map_transmission_status rec.status;
  owner_key_fingerprint = rec.owner_key_fingerprint;
  created_at = if beq rec.created_at 0 then "" else env.format_rfc3339 rec.created_at;
  signed_over_at = "";
  pushed_at = format_if_set env rec.delivered_at;
  pushed_to = rec.destination_url;
  push_attempts = rec.attempts;
  last_push_error = rec.last_error;
  pulled_at = "";
  assigned_at = format_if_set env rec.assigned_at;
  assigned_to_fingerprint = rec.assigned_to_fingerprint;
  assigned_to_did = rec.assigned_to_did;
  assigned_by_fingerprint = rec.assigned_by_fingerprint;
  error_message =
      if rec.status == transmission_status_failed || rec.status == transmission_status_permanent
      then rec.last_error
      else "";
}

-- whether the identifier is a GUID, or that the parameter is neither "guid" nor "serial"
unfoldable pub identifier_kind : String → String → Option Bool
unfolding is_guid_pattern
identifier_kind identifier_type identifier =
    if identifier_type == "guid"
    then some true
    else if identifier_type == "serial"
    then some false
    else if identifier_type == ""
    then some (is_guid_pattern identifier)
    else none

-- the newest row of the GUID, with its hyphens dropped, or of the serial number
unfoldable pub look_up : Bool → String → Exec (Backend Tables) Row
unfolding strip_hyphens
look_up true identifier = fetch_latest_by_guid (strip_hyphens identifier)
look_up false identifier = fetch_by_serial identifier >>= λ rows b. (first_row rows, b)

abbrev pub not_found : StatusAnswer
not_found = failure 404 "voucher not found"

-- whom the access check leaves out
abbrev pub is_unscoped : CallerIdentity → Bool
is_unscoped caller = is_global caller.auth_method || caller.fingerprint == ""

module _ (env : Environment) where
  abbrev pub after_access : CallerIdentity → Row → Result Bool → Exec (Backend Tables) StatusAnswer
  after_access caller rec (err e) = pure (failure 500 "internal error")
  after_access caller rec (ok true) = pure (shown (build_status_response env rec))
  after_access caller rec (ok false) =
      if rec.owner_key_fingerprint == caller.fingerprint
      then pure (shown (build_status_response env rec))
      else pure not_found

  abbrev pub after_look_up : CallerIdentity → Result Row → Exec (Backend Tables) StatusAnswer
  after_look_up caller (err e) = pure not_found
  after_look_up caller (ok rec) =
      if is_unscoped caller
      then pure (shown (build_status_response env rec))
      else attempt (has_access_by_guid rec.voucher_guid caller.fingerprint) >>= λ access.
          after_access caller rec access

  abbrev pub serve_kind : CallerIdentity → String → Option Bool → Exec (Backend Tables) StatusAnswer
  serve_kind caller identifier none =
      pure (failure 400 "invalid type parameter; must be 'guid' or 'serial'")
  serve_kind caller identifier (some is_guid) =
      attempt (look_up is_guid identifier) >>= λ found. after_look_up caller found

  abbrev pub serve_caller :
      Result CallerIdentity → StatusRequest → Exec (Backend Tables) StatusAnswer
  serve_caller (err e) r = pure (failure 401 "authentication required")
  serve_caller (ok caller) r =
      let identifier = extract_last_path_segment r.path in
      if identifier == ""
      then pure (failure 400 "identifier is required")
      else serve_kind caller identifier (identifier_kind r.identifier_type identifier)

  unfoldable pub serve_http :
      VoucherStatusHandler → StatusRequest → Exec (Backend Tables) StatusAnswer
  unfolding authenticate_caller extract_last_path_segment identifier_kind build_status_response
  serve_http h r =
      if not (r.method == "GET")
      then pure (failure 405 "method not allowed")
      else serve_caller (authenticate_caller h.validate_token r.authorization) r
