-- ===== src/Transmission.antt =====
-- voucher_transmission_store.go: the rows of the two tables. A time is a number, the zero
-- `time.Time` is 0, and a NULL or invalid `sql.NullTime` is `none`.
pub mod Store
pub mod Grants
pub mod Access
use go_fdo_voucher_managemen.Prelude.{
  ℕ, zero, suc, String, Bool, Option, none, some, List, [], ◌∷◌, beq, ◌==◌, take, if◌then◌else◌,
}
use go_fdo_voucher_managemen.Prelude.Int.{ℤ, pos, negsuc, is_nonpos}

abbrev pub transmission_status_pending : String
transmission_status_pending = "pending"

abbrev pub transmission_status_succeeded : String
transmission_status_succeeded = "succeeded"

abbrev pub transmission_status_failed : String
transmission_status_failed = "failed"

abbrev pub transmission_status_permanent : String
transmission_status_permanent = "failed_permanent"

abbrev pub transmission_status_assigned : String
transmission_status_assigned = "assigned"

pub record VoucherTransmissionRecord : Type 0 where
  pub id : ℕ
  pub voucher_guid : String
  pub file_path : String
  pub destination_url : String
  pub auth_token : String
  pub destination_source : String
  pub mode : String
  pub status : String
  pub attempts : ℕ
  pub last_error : String
  pub serial_number : String
  pub model_number : String
  pub owner_key_fingerprint : String
  pub original_owner_fingerprint : String
  pub assigned_at : Option ℕ
  pub assigned_to_fingerprint : String
  pub assigned_to_did : String
  pub assigned_by_fingerprint : String
  pub created_at : ℕ
  pub updated_at : ℕ
  pub last_attempt_at : Option ℕ
  pub delivered_at : Option ℕ
  pub retry_after : Option ℕ

pub record AccessGrant : Type 0 where
  pub id : ℕ
  pub voucher_guid : String
  pub serial_number : String
  pub identity_fingerprint : String
  pub identity_type : String
  pub access_level : String
  pub partner_id : String
  pub granted_at : ℕ
  pub granted_by : String

-- The tables voucher_transmissions and voucher_access_grants, with the AUTOINCREMENT counters.
pub record Tables : Type 0 where
  pub transmissions : List VoucherTransmissionRecord
  pub last_transmission_id : ℕ
  pub grants : List AccessGrant
  pub last_grant_id : ℕ

-- `nullTime`: the zero time is stored as NULL
abbrev pub null_time : ℕ → Option ℕ
null_time zero = none
null_time (suc t) = some (suc t)

-- `if limit <= 0 { limit = d }`
abbrev pub limit_or : ℕ → ℤ → ℕ
limit_or d (pos zero) = d
limit_or d (pos (suc n)) = suc n
limit_or d (negsuc n) = d

-- SQL's `LIMIT ?`, where a negative bound is no bound
abbrev pub sql_limit {ℓ} : {A : Type ℓ} → ℤ → List A → List A
sql_limit (pos n) rows = take n rows
sql_limit (negsuc n) rows = rows
