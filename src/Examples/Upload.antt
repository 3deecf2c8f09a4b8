-- ===== src/Examples/Upload.antt =====
-- The theorems on uploads, the pipeline, tokens and partners, applied to one voucher.
use go_fdo_voucher_managemen.Prelude.{
  ℕ, ◌≤◌, ◌^◌, ◌≡◌, ◌⊎◌, refl, true, false, String, none, some, List, [], ◌∷◌, leb, ◌==◌,
  if◌then◌else◌, arith,
}
use go_fdo_voucher_managemen.Prelude.Int.{pos, negsuc}
use go_fdo_voucher_managemen.Backend.{ok}
use go_fdo_voucher_managemen.Config.{Config, default_config, hour, VoucherSigningConfig}
use go_fdo_voucher_managemen.Pipeline
use go_fdo_voucher_managemen.Pipeline.{VoucherPipeline, Received, next_owner}
use go_fdo_voucher_managemen.Pipeline.Laws.{Kept, process_voucher-unsigned, process_voucher-Kept}
use go_fdo_voucher_managemen.Push.{VoucherPushService}
use go_fdo_voucher_managemen.PullTokens.{issue, validate}
use go_fdo_voucher_managemen.PullTokens.Sessions.{good, validate-issue}
use go_fdo_voucher_managemen.Tokens.{after}
use go_fdo_voucher_managemen.Services.Hash.{hash_word, hash_string}
use go_fdo_voucher_managemen.Services.Hash.Bounds.{hash_string-bounds}
use go_fdo_voucher_managemen.Receiver.{
  Server, VoucherReceiverHandler, UploadForm, UploadRequest, serve_http,
}
use go_fdo_voucher_managemen.Receiver.Outcome.{Outcome}
use go_fdo_voucher_managemen.Receiver.Laws.{serve_http-Outcome}
use go_fdo_voucher_managemen.Pipeline.Disk.{KeepsFiles}
use go_fdo_voucher_managemen.Receiver.Once.{
  Step, upload, work, accepted_in, Distinct, accepted_in-Distinct,
}
use go_fdo_voucher_managemen.Examples.{env, service, world}
use go_fdo_voucher_managemen.Examples.Records.{tables-IsKeyed}

-- a text whose hash is the least int
least_hash : hash_string "%8_(Y5L+gup16P" ≡ negsuc 806
unfolding hash_string
least_hash = refl

hash_string-bounds_example :
    ((n : ℕ) × (hash_string "note" ≡ pos n) × (1 ≤ n) × (n ≤ 1000))
    ⊎ ((hash_word 0 "note" ≡ 2 ^ 63) × (hash_string "note" ≡ negsuc 806))
hash_string-bounds_example = hash_string-bounds "note"

abbrev pub callback_config : Config
callback_config = record default_config {
  destination_callback = record {
    enabled = true;
    external_command = "where {serialno}";
    timeout = pos hour;
  };
}

abbrev pub pipeline : VoucherPipeline
pipeline = record {
  config = default_config;
  signing_service = record { mode = "internal"; has_owner_signer = true };
  owner_key_service = none;
  ove_extra_data_service = none;
  destination_resolver = record {
    config = some callback_config;
    has_callback_executor = true;
    has_partner_store = false;
  };
  push_service = some (record service { config = callback_config });
  did_resolver = none;
}

abbrev arrived : Received
arrived = record {
  serial = "S9";
  model = "M";
  guid = "c3";
  file_path = "v/c3.fdoov";
  owner_key_fingerprint = "f0";
}

abbrev other_mode : VoucherSigningConfig
other_mode = record { mode = "internal"; external_command = ""; external_timeout = pos 0 }

process_voucher-unsigned_example :
    Pipeline.process_voucher env
      (record pipeline {
        config = record default_config { voucher_signing = other_mode };
        signing_service = record { mode = "hsm"; has_owner_signer = false };
        ove_extra_data_service = none;
      })
      9
      "other"
      arrived
      world
    ≡ Pipeline.process_voucher env pipeline 9 "given" arrived world
process_voucher-unsigned_example =
    process_voucher-unsigned env pipeline 9 "given" "other" arrived
      (record { mode = "hsm"; has_owner_signer = false }) none other_mode world

pub no_next_owner : (now : ℕ) (v : Received) → next_owner env pipeline now v ≡ ok (none, "")
unfolding next_owner
no_next_owner now v = refl

pub is_built :
    (svc : VoucherPushService)
    → pipeline.push_service ≡ some svc
    → (svc.has_client ≡ true) × (svc.has_store ≡ true)
is_built svc e = (ground (arith, e), ground (arith, e))

process_voucher-Kept_example :
    Kept env pipeline 9 arrived "f0" "" world
      (Pipeline.process_voucher env pipeline 9 "given" arrived world)
process_voucher-Kept_example =
    process_voucher-Kept env pipeline callback_config 9 "given" arrived none "" world refl
      tables-IsKeyed is_built refl refl (no_next_owner 9 arrived)

-- a server with an empty token table, and a request with no credentials, where none are required
abbrev pub receiver_handler : VoucherReceiverHandler
receiver_handler = record {
  config = record default_config {
    voucher_receiver = record default_config.voucher_receiver { require_auth = false };
  };
  file_store = record { directory = "w" };
  has_pipeline = true;
  has_partner_store = false;
}

abbrev pub server : Server
server = record {
  world = world;
  receiver = record {
    content = record { tokens = []; audit = []; last_audit_id = 0 };
    outages = [];
  };
}

abbrev pub upload_form : UploadForm
upload_form = record {
  file = ok (record { size = pos 3; content = ok "abc" });
  serial = "S9";
  model = "M";
  manufacturer = "maker";
}

abbrev pub upload_request : UploadRequest
upload_request = record {
  method = "POST";
  authorization = "";
  forwarded_for = " 10.0.0.1 , 10.0.0.2";
  real_ip = "";
  remote_addr = "127.0.0.1:5000";
  form = ok upload_form;
}

serve_http-Outcome_example :
    Outcome env receiver_handler 9 upload_request server
      (serve_http env receiver_handler 9 upload_request server)
serve_http-Outcome_example = serve_http-Outcome env receiver_handler 9 upload_request server refl

keeps_files : (svc : VoucherPushService) → pipeline.push_service ≡ some svc → KeepsFiles svc.config
keeps_files svc e = ground (arith, e)

-- an upload, its job, and the same upload again
abbrev steps : List (Step String)
steps = upload 9 upload_request ∷ work 10 "abc" arrived ∷ upload 11 upload_request ∷ []

accepted_in-Distinct_example : Distinct (accepted_in env receiver_handler pipeline steps server)
accepted_in-Distinct_example =
    accepted_in-Distinct env receiver_handler pipeline keeps_files steps server refl

validate-issue_example :
    good (validate 12 "t" (issue (pos 5) (some "f9") (ok "t") 9 9 (λ token. none)).1) ≡ (
      if "t" == "t"
      then (if leb 12 (after 9 (pos 5)) then some "f9" else none)
      else good (validate 12 "t" (λ token. none)))
validate-issue_example = validate-issue (pos 5) "f9" "t" "t" 9 9 12 (λ token. none) (omega arith)
