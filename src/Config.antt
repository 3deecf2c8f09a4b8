-- ===== src/Config.antt =====
-- config.go: the settings, with the defaults of `DefaultConfig`. A struct with one field is that field.
-- A duration is in nanoseconds, as `time.Duration` is, and may be negative; so may an `int`.
use go_fdo_voucher_managemen.Prelude.{ℕ, ◌*◌, String, Bool, true, false, Option, List, []}
use go_fdo_voucher_managemen.Prelude.Int.{ℤ, pos}

abbrev pub second : ℕ
second = 1000000000

abbrev pub minute : ℕ
minute = 60 * second

abbrev pub hour : ℕ
hour = 60 * minute

pub record ServerConfig : Type 0 where
  pub addr : String
  pub ext_addr : String
  pub use_tls : Bool
  pub insecure_tls : Bool

pub record DatabaseConfig : Type 0 where
  pub path : String
  pub password : String

pub record KeyManagementConfig : Type 0 where
  pub key_type : String
  pub first_time_init : Bool
  pub import_key_file : String

pub record VoucherReceiverConfig : Type 0 where
  pub enabled : Bool
  pub endpoint : String
  pub global_token : String
  pub validate_ownership : Bool
  pub require_auth : Bool
  pub require_trusted_manufacturer : Bool

pub record VoucherSigningConfig : Type 0 where
  pub mode : String
  pub external_command : String
  pub external_timeout : ℤ

-- `OVEExtraData` and `DestinationCallback`
pub record CallbackConfig : Type 0 where
  pub enabled : Bool
  pub external_command : String
  pub timeout : ℤ

pub record DidCacheConfig : Type 0 where
  pub enabled : Bool
  pub refresh_interval : ℤ
  pub max_age : ℤ
  pub failure_backoff : ℤ
  pub purge_unused : ℤ
  pub purge_on_startup : Bool

pub record OwnerSignoverConfig : Type 0 where
  pub mode : String
  pub static_public_key : String
  pub static_did : String
  pub external_command : String
  pub timeout : ℤ

pub record PushServiceConfig : Type 0 where
  pub enabled : Bool
  pub url : String
  pub auth_token : String
  pub mode : String
  pub delete_after_success : Bool
  pub retry_interval : ℤ
  pub max_attempts : ℤ

pub record RetryWorkerConfig : Type 0 where
  pub enabled : Bool
  pub retry_interval : ℤ
  pub max_attempts : ℤ

pub record RetentionConfig : Type 0 where
  pub keep_indefinitely : Bool
  pub purge_after : ℤ

pub record PullServiceConfig : Type 0 where
  pub enabled : Bool
  pub session_ttl : ℤ
  pub max_sessions : ℤ
  pub token_ttl : ℤ
  pub reveal_voucher_existence : Bool

-- A nil pointer, where the file leaves a flag out, is `none`.
pub record PartnerConfig : Type 0 where
  pub id : String
  pub can_supply : Option Bool
  pub can_receive : Option Bool
  pub did : String
  pub key_file : String
  pub push_url : String
  pub pull_url : String
  pub auth_token : String
  pub enabled : Option Bool

pub record DidMintingConfig : Type 0 where
  pub enabled : Bool
  pub host : String
  pub path : String
  pub voucher_recipient_url : String
  pub voucher_holder_url : String
  pub serve_did_document : Bool
  pub export_did_uri : Bool
  pub key_export_path : String

pub record Config : Type 0 where
  pub debug : Bool
  pub server : ServerConfig
  pub database : DatabaseConfig
  pub key_management : KeyManagementConfig
  pub voucher_receiver : VoucherReceiverConfig
  pub voucher_signing : VoucherSigningConfig
  pub ove_extra_data : CallbackConfig
  pub owner_signover : OwnerSignoverConfig
  pub voucher_files_directory : String
  pub destination_callback : CallbackConfig
  pub did_cache : DidCacheConfig
  pub push_service : PushServiceConfig
  pub did_push_enabled : Bool
  pub retry_worker : RetryWorkerConfig
  pub retention : RetentionConfig
  pub pull_service : PullServiceConfig
  pub partners : List PartnerConfig
  pub did_minting : DidMintingConfig

abbrev pub default_config : Config
default_config = record {
  debug = false;
  server = record { addr = "localhost:8080"; ext_addr = ""; use_tls = false; insecure_tls = false };
  database = record { path = "voucher_manager.db"; password = "" };
  key_management = record { key_type = "ec384"; first_time_init = true; import_key_file = "" };
  voucher_receiver = record {
    enabled = true;
    endpoint = "/api/v1/vouchers";
    global_token = "";
    validate_ownership = false;
    require_auth = false;
    require_trusted_manufacturer = false;
  };
  voucher_signing = record {
    mode = "internal";
    external_command = "";
    external_timeout = pos (30 * second);
  };
  ove_extra_data = record { enabled = false; external_command = ""; timeout = pos (10 * second) };
  owner_signover = record {
    mode = "static";
    static_public_key = "";
    static_did = "";
    external_command = "";
    timeout = pos (10 * second);
  };
  voucher_files_directory = "data/vouchers";
  destination_callback = record {
    enabled = false;
    external_command = "";
    timeout = pos (10 * second);
  };
  did_cache = record {
    enabled = false;
    refresh_interval = pos (1 * hour);
    max_age = pos (24 * hour);
    failure_backoff = pos (1 * hour);
    purge_unused = pos (7 * 24 * hour);
    purge_on_startup = false;
  };
  push_service = record {
    enabled = false;
    url = "";
    auth_token = "";
    mode = "fallback";
    delete_after_success = false;
    retry_interval = pos (8 * hour);
    max_attempts = pos 5;
  };
  did_push_enabled = true;
  retry_worker = record { enabled = true; retry_interval = pos (8 * hour); max_attempts = pos 5 };
  retention = record { keep_indefinitely = true; purge_after = pos 0 };
  pull_service = record {
    enabled = false;
    session_ttl = pos (60 * second);
    max_sessions = pos 1000;
    token_ttl = pos (1 * hour);
    reveal_voucher_existence = false;
  };
  partners = [];
  did_minting = record {
    enabled = false;
    host = "";
    path = "";
    voucher_recipient_url = "";
    voucher_holder_url = "";
    serve_did_document = true;
    export_did_uri = true;
    key_export_path = "";
  };
}
