-- ===== src/Examples/Arrival.antt =====
-- The theorems on an upload with its pipeline, push tokens, refreshes and races, applied.
use go_fdo_voucher_managemen.Prelude.{
  ◌+◌, ◌≡◌, refl, String, true, false, none, some, [], ◌∷◌, map, ◌==◌,
}
use go_fdo_voucher_managemen.Prelude.Int.{pos, ◌+ℤ◌}
use go_fdo_voucher_managemen.Tokens.{issue_token_for_key}
use go_fdo_voucher_managemen.Prelude.Text.{to_lower}
use go_fdo_voucher_managemen.Backend.{ok, Backend, pure, attempt, query, command, statement, ◌>>=◌}
use go_fdo_voucher_managemen.Config.{default_config, hour}
use go_fdo_voucher_managemen.Disk.{lookup, put, file_exists, write_file, rename_file}
use go_fdo_voucher_managemen.FileStore.{file_path_for_guid, make_directory}
use go_fdo_voucher_managemen.World.{on_disk, on_partners}
use go_fdo_voucher_managemen.Partner.{
  PartnerRow, PartnerTable, has_suppliers, get_by_fingerprint, matches_fingerprint, scan_partner,
  is_supplier, is_trusted_supplier,
}
use go_fdo_voucher_managemen.Push.{attempt_record}
use go_fdo_voucher_managemen.Push.Races.{then_assigned, attempt_record_stale}
use go_fdo_voucher_managemen.PullTokens.{issue_push_token}
use go_fdo_voucher_managemen.Tokens.{validate_token_to_identity}
use go_fdo_voucher_managemen.Tokens.Laws.{key_identity}
use go_fdo_voucher_managemen.PullTokens.Trust.{issue_push_token-trusted, issue_push_token_open}
use go_fdo_voucher_managemen.Refresh.{PartnerRefreshWorker, refresh_all}
use go_fdo_voucher_managemen.Refresh.Laws.{lasting, refresh_all-lasting}
use go_fdo_voucher_managemen.Transmission.{VoucherTransmissionRecord, transmission_status_assigned}
use go_fdo_voucher_managemen.Transmission.Store.Rows.{row_at}
use go_fdo_voucher_managemen.Receiver.{
  Server, accepted, serve_http, save_upload, store_voucher, authenticate, on_world, on_receiver,
  received,
}
use go_fdo_voucher_managemen.Receiver.EndToEnd.{Listed, serve_and_process, serve_and_process-Listed}
use go_fdo_voucher_managemen.Examples.{env, service, pending_row, world}
use go_fdo_voucher_managemen.Examples.Records.{tables-IsKeyed}
use go_fdo_voucher_managemen.Examples.Upload.{
  callback_config, pipeline, receiver_handler, server, upload_form, upload_request, is_built,
  no_next_owner,
}

attempt_record_stale_example :
    (r : VoucherTransmissionRecord) × (row_at 1
        (attempt_record env service 9
          (some pending_row)
          (then_assigned 8 pending_row "f7" "" "f5" world)).1.tables.content.transmissions
      ≡ ok r)
    × ((r.status == transmission_status_assigned) ≡ false)
    × (r.assigned_to_fingerprint ≡ "f7")
unfolding row_at
attempt_record_stale_example =
    attempt_record_stale env service 8 9 pending_row "f7" "" "f5" world refl refl refl refl refl
      refl

-- nothing is asked of the request, and the directory is empty
was_accepted :
    (serve_and_process env receiver_handler pipeline 9 10 upload_request server).0
    ≡ ok (accepted "a1" (some ("abc", received env receiver_handler 9 upload_form "abc")))
unfolding serve_and_process serve_http authenticate store_voucher save_upload on_world on_receiver
    pure attempt ◌>>=◌ statement query command on_disk file_exists lookup put file_path_for_guid
    to_lower make_directory write_file rename_file
was_accepted = refl

serve_and_process-Listed_example :
    Listed env receiver_handler pipeline 10 "a1" server.world
      (serve_http env receiver_handler 9 upload_request server).1.world
      (serve_and_process env receiver_handler pipeline 9 10 upload_request server).1.world
serve_and_process-Listed_example =
    serve_and_process-Listed env receiver_handler pipeline callback_config 9 10 upload_request
      server is_built refl (λ v. (none, "", no_next_owner 10 v)) "a1" _ refl refl tables-IsKeyed
      refl (unfold file_path_for_guid to_lower in refl) was_accepted

-- a partner that may supply vouchers, with its key's fingerprint and a did:web DID
abbrev supplier : PartnerRow
supplier = record {
  id = "acme";
  did_uri = some "did:web:acme";
  public_key = some "key-acme";
  public_key_fingerprint = some "key-acme";
  push_url = none;
  pull_url = none;
  auth_token = none;
  did_document = none;
  did_document_fetched_at = none;
  did_document_etag = none;
  can_supply_vouchers = 1;
  can_receive_vouchers = 0;
  enabled = 1;
  created_at = 0;
  updated_at = 0;
}

abbrev suppliers : Backend PartnerTable
suppliers = record { content = supplier ∷ []; outages = [] }

abbrev guarded : Server
guarded = record server { world = record world { partners = suppliers } }

abbrev unguarded : Server
unguarded = record server {
  world = record world { partners = record { content = supplier ∷ []; outages = true ∷ [] } };
}

was_issued :
    (issue_push_token env default_config true 9
      (some "key-acme")
      (ok "t")
      (ok "key-acme")
      guarded).0
    ≡ ok ("t", 9 + hour)
unfolding issue_push_token ◌>>=◌ on_world on_partners has_suppliers query is_supplier
    is_trusted_supplier get_by_fingerprint matches_fingerprint scan_partner on_receiver
    issue_token_for_key ◌+ℤ◌
was_issued = refl

issue_push_token-trusted_example :
    (key : String) × (id : String) × (ok "key-acme" ≡ ok key)
    × ((is_trusted_supplier env key suppliers).0 ≡ ok (id, true))
issue_push_token-trusted_example =
    issue_push_token-trusted env default_config 9 (some "key-acme") (ok "t") (ok "key-acme") guarded
      "t" (9 + hour) refl (unfold is_supplier in refl) was_issued

issue_push_token_open_example :
    ((issue_push_token env default_config true 9 (some "f6") (ok "t") (ok "stranger") unguarded).0
      ≡ ok ("t", 9 + hour))
    × ((validate_token_to_identity env.sha256_hex 5000 "t"
          (issue_push_token env default_config true 9
            (some "f6")
            (ok "t")
            (ok "stranger")
            unguarded).1.receiver).0
        ≡ ok (key_identity "f6"))
unfolding ◌+ℤ◌
issue_push_token_open_example =
    issue_push_token_open env default_config 9 5000 "f6" "t" (ok "stranger") unguarded [] refl refl
      refl refl refl

abbrev worker : PartnerRefreshWorker
worker = record {
  resolver_enabled = true;
  insecure_http = false;
  interval = pos hour;
  max_age = pos hour;
}

refresh_all-lasting_example :
    map lasting (refresh_all env worker 9 suppliers).1.content ≡ map lasting suppliers.content
refresh_all-lasting_example = refresh_all-lasting env worker 9 suppliers (refl, tt)
