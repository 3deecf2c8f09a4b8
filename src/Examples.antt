-- ===== src/Examples.antt =====
-- Concrete inputs on which the theorems are applied, and tests of the definitions.
pub mod Delivery
pub mod Records
pub mod Handlers
pub mod Upload
pub mod Arrival
pub mod Start
pub mod Access
pub mod Trust
pub mod Command
use go_fdo_voucher_managemen.Prelude.{
  ℕ, ◌*◌, String, Bool, true, false, Option, none, some, List, [], ◌∷◌,
}
use go_fdo_voucher_managemen.Prelude.Int.{ℤ, pos}
use go_fdo_voucher_managemen.Backend.{Result, ok, err, rejected, push_error, Backend}
use go_fdo_voucher_managemen.Config.{Config, default_config, second, hour}
use go_fdo_voucher_managemen.Disk.{Files}
use go_fdo_voucher_managemen.Environment.{Environment, ecdsa}
use go_fdo_voucher_managemen.Partner.{Partner, PartnerTable}
use go_fdo_voucher_managemen.Transmission.{VoucherTransmissionRecord, AccessGrant, Tables}
use go_fdo_voucher_managemen.World.{World}
use go_fdo_voucher_managemen.Push.{VoucherPushService}
use go_fdo_voucher_managemen.Destination.{VoucherDestinationResolver}

-- Vouchers and keys are texts; a receiver that is busy asks for a minute, and the random float is 1/2: no jitter.
abbrev env : Environment
env = record {
  Voucher = String;
  PublicKey = String;
  parse_voucher = λ text. ok text;
  format_voucher_pem = λ voucher. ok voucher;
  guid_hex = λ voucher. "a1";
  device_info = λ voucher. "device";
  cbor_marshal = λ voucher. ok voucher;
  extend_voucher = λ voucher key. ok key;
  key_kind = λ key. ecdsa;
  load_public_key_pem = λ pem. ok pem;
  fingerprint_fdo_hex = λ key. key;
  sha256_hex = λ text. text;
  resolve_did = λ now did. ok (did, "https://partner/push");
  destination_command = λ now serial model guid. ok "https://callback/push";
  authenticate = λ now url. err (rejected "no handshake");
  send = λ now url token voucher. err (push_error true (pos (60 * second)) "503");
  rand_float = λ now. 4503599627370496;
  format_rfc3339 = λ t. "then";
  OtherJson = String;
  Float = String;
  run_shell = λ now command. ok command;
  decode_owner_key = λ text. ok (record { owner_key_pem = text; owner_did = ""; error = "" });
  decode_extra = λ text. ok [];
  parse_int64 = λ text. none;
  format_float = λ f. f;
  marshal_value = λ v. ok "";
  extend_voucher_with = λ voucher key extra. ok key;
  manufacturer_key = λ voucher. ok "maker";
  owner_public_key = λ voucher. ok (some "f0");
  format_cbor_pem = λ text. text;
  export_public_key_pem = λ key. ok key;
  web_did_to_url = λ did. ok did;
  fetch_document = λ now url. ok "";
  decode_services = λ text. ok [];
  holder_service_type = "FDOVoucherHolder";
}

abbrev service : VoucherPushService
service = record {
  config = default_config;
  has_store = true;
  resolver = none;
  has_client = true;
  has_owner_key = false;
}

abbrev pending_row : VoucherTransmissionRecord
pending_row = record {
  id = 1;
  voucher_guid = "a1";
  file_path = "v/a1.fdoov";
  destination_url = "https://partner/push";
  auth_token = "secret";
  destination_source = "static";
  mode = "fallback";
  status = "pending";
  attempts = 3;
  last_error = "";
  serial_number = "S1";
  model_number = "M";
  owner_key_fingerprint = "f0";
  original_owner_fingerprint = "";
  assigned_at = none;
  assigned_to_fingerprint = "";
  assigned_to_did = "";
  assigned_by_fingerprint = "";
  created_at = 5;
  updated_at = 5;
  last_attempt_at = none;
  delivered_at = none;
  retry_after = none;
}

abbrev assigned_row : VoucherTransmissionRecord
assigned_row = record pending_row {
  id = 2;
  status = "assigned";
  serial_number = "S2";
  voucher_guid = "b2";
}

abbrev grant : AccessGrant
grant = record {
  id = 1;
  voucher_guid = "a1";
  serial_number = "S1";
  identity_fingerprint = "f9";
  identity_type = "custodian";
  access_level = "full";
  partner_id = "";
  granted_at = 7;
  granted_by = "assign_api";
}

abbrev tables : Tables
tables = record {
  transmissions = pending_row ∷ assigned_row ∷ [];
  last_transmission_id = 2;
  grants = grant ∷ [];
  last_grant_id = 1;
}

abbrev no_tables : Tables
no_tables = record { transmissions = []; last_transmission_id = 0; grants = []; last_grant_id = 0 }

abbrev files : Files
files = ("v/a1.fdoov", "voucher a1") ∷ []

abbrev store : Backend Tables
store = record { content = tables; outages = [] }

abbrev disk : Backend Files
disk = record { content = files; outages = [] }

abbrev world : World
world = record {
  tables = store;
  disk = disk;
  partners = record { content = []; outages = [] };
  token_cache = [];
}

abbrev partner : Partner
partner = record {
  id = "acme";
  can_supply_vouchers = true;
  can_receive_vouchers = true;
  did_uri = "did:web:acme";
  public_key = "key-acme";
  push_url = "https://acme/push";
  pull_url = "";
  auth_token = "";
  did_document = "";
  did_document_fetched_at = 0;
  did_document_etag = "";
  public_key_fingerprint = "";
  enabled = true;
  created_at = 0;
  updated_at = 0;
}
