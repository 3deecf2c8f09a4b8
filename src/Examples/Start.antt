-- ===== src/Examples/Start.antt =====
-- The theorems on a start of the server, its tokens and two uploads at once, applied.
use go_fdo_voucher_managemen.Prelude.{◌≡◌, ◌∙◌, refl, true, false, none, some, [], ◌∷◌, ◌++◌}
use go_fdo_voucher_managemen.Prelude.Int.{pos, ◌+ℤ◌}
use go_fdo_voucher_managemen.Prelude.Text.{to_lower, split_at_space}
use go_fdo_voucher_managemen.Assign.Handler.{authenticate_caller}
use go_fdo_voucher_managemen.Backend.{ok, Backend}
use go_fdo_voucher_managemen.Config.{PartnerConfig, default_config, hour}
use go_fdo_voucher_managemen.Disk.{lookup, file_exists}
use go_fdo_voucher_managemen.FileStore.{file_path_for_guid}
use go_fdo_voucher_managemen.Partner.{PartnerTable}
use go_fdo_voucher_managemen.Receiver.{accepted, pem_data, path_of, job_for, after_stat}
use go_fdo_voucher_managemen.Receiver.Once.{file_of}
use go_fdo_voucher_managemen.Receiver.Interleaving.{uploads_race}
use go_fdo_voucher_managemen.Startup.{validate_token, bootstrap_partners}
use go_fdo_voucher_managemen.Startup.Tokens.{with_issued, issued_token-may_see}
use go_fdo_voucher_managemen.Startup.Bootstrap.Again.{bootstrap_partners_idempotent}
use go_fdo_voucher_managemen.Status
use go_fdo_voucher_managemen.Status.{StatusRequest, shown, is_unscoped}
use go_fdo_voucher_managemen.Status.Exact.{serve_http-page_for}
use go_fdo_voucher_managemen.Tokens.{ReceiverTables}
use go_fdo_voucher_managemen.Tokens.Laws.{
  key_identity, validate_token_to_identity-issue_token_for_key,
}
use go_fdo_voucher_managemen.Transmission.Access.{may_see}
use go_fdo_voucher_managemen.Examples.{env, store, tables, world}
use go_fdo_voucher_managemen.Examples.Handlers.{
  status_request, status_page, last_segment, found_one, seen_one,
}
use go_fdo_voucher_managemen.Examples.Upload.{receiver_handler, server, upload_form}

no_file : file_of env receiver_handler "a1" server ≡ none
unfolding lookup file_path_for_guid to_lower
no_file = refl

uploads_race_example :
    (let first =
        after_stat env receiver_handler 9 upload_form
          (pos 3)
          "ip"
          ""
          "abc"
          "abc"
          (ok false)
          server in
      let second =
        after_stat env receiver_handler 9 upload_form
          (pos 3)
          "ip"
          ""
          "xyz"
          "xyz"
          (ok false)
          first.1 in
      ((file_exists (path_of env receiver_handler 9 "abc") server.world.disk).0 ≡ ok false)
      × ((file_exists (path_of env receiver_handler 9 "xyz") server.world.disk).0 ≡ ok false)
      × (first.0 ≡ ok (accepted "a1" (job_for env receiver_handler 9 upload_form "abc")))
      × (second.0 ≡ ok (accepted "a1" (job_for env receiver_handler 9 upload_form "xyz")))
      × (file_of env receiver_handler "a1" second.1 ≡ some (pem_data env "xyz")))
uploads_race_example =
    uploads_race env receiver_handler 9 upload_form upload_form (pos 3) (pos 3) "ip" "ip" "" ""
      "abc" "xyz" "abc" "xyz" server refl no_file refl

abbrev entry : PartnerConfig
entry = record {
  id = "acme";
  can_supply = some true;
  can_receive = none;
  did = "did:web:acme";
  key_file = "";
  push_url = "";
  pull_url = "";
  auth_token = "";
  enabled = none;
}

bootstrap_partners_idempotent_example :
    (added : PartnerTable) × ((bootstrap_partners env 9 (entry ∷ []) world).1.partners.content
      ≡ [] ++ added)
    × ((bootstrap_partners env 10
          (entry ∷ [])
          (bootstrap_partners env 9 (entry ∷ []) world).1).1.partners.content
        ≡ (bootstrap_partners env 9 (entry ∷ []) world).1.partners.content)
bootstrap_partners_idempotent_example =
    bootstrap_partners_idempotent env 9 10 (entry ∷ []) world refl refl

abbrev no_tokens : Backend ReceiverTables
no_tokens = server.receiver

issued_known :
    authenticate_caller
      (some (λ t.
        (validate_token env default_config 10 t (with_issued 9 "f9" "t" (pos hour) no_tokens)).0))
      "Bearer t"
    ≡ ok (key_identity "f9")
unfolding authenticate_caller split_at_space to_lower validate_token ◌+ℤ◌
issued_known =
    (validate_token_to_identity-issue_token_for_key env.sha256_hex 9 10 "f9" "t" (pos hour)
      no_tokens refl refl refl).1

issued_page :
    (Status.serve_http env
      (record {
        validate_token = some (λ t.
            (validate_token env default_config 10 t
              (with_issued 9 "f9" "t" (pos hour) no_tokens)).0);
      })
      status_request
      store).0
    ≡ ok (shown status_page)
issued_page =
    serve_http-page_for env
      (record {
        validate_token = some (λ t.
            (validate_token env default_config 10 t
              (with_issued 9 "f9" "t" (pos hour) no_tokens)).0);
      })
      status_request store (key_identity "f9") true refl refl issued_known (rw last_segment refl)
      (rw last_segment (unfold Status.identifier_kind in refl))
    ∙ rw (last_segment, found_one, seen_one) refl

issued_token-may_see_example : may_see "a1" "f9" tables ≡ true
unfolding Status.build_status_response ◌+ℤ◌
issued_token-may_see_example =
    issued_token-may_see env default_config 9 10 "f9" "t" (pos hour) no_tokens status_request store
      status_page refl refl refl refl refl refl (unfold split_at_space to_lower in refl) issued_page
