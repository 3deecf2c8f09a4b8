-- ===== src/Startup/Tokens.antt =====
-- From a token that was issued to a key (voucher_receiver_tokens.go), by the check of main.go, to
-- the status page (voucher_status_handler.go).
use go_fdo_voucher_managemen.Prelude.{
  ℕ, ◌≡◌, refl, ◌∙◌, String, true, false, ◌&&◌, not, some, any, ltb, ◌==◌, arith,
}
use go_fdo_voucher_managemen.Prelude.Int.{ℤ}
use go_fdo_voucher_managemen.Prelude.Text.{split_at_space}
use go_fdo_voucher_managemen.Assign.Handler.{bearer, authenticate_caller}
use go_fdo_voucher_managemen.Backend.{ok, Backend}
use go_fdo_voucher_managemen.Backend.Laws.{IsReliable}
use go_fdo_voucher_managemen.Config.{Config}
use go_fdo_voucher_managemen.Environment.{Environment}
use go_fdo_voucher_managemen.Status.{StatusRequest, VoucherStatusResponse, shown, serve_http}
use go_fdo_voucher_managemen.Status.Laws.{serve_http-may_see}
use go_fdo_voucher_managemen.Tokens.{ReceiverTables, issue_token_for_key, unix_micro, after}
use go_fdo_voucher_managemen.Tokens.Laws.{
  key_identity, validate_token_to_identity-issue_token_for_key,
}
use go_fdo_voucher_managemen.Transmission.{Tables}
use go_fdo_voucher_managemen.Transmission.Access.{may_see}
use go_fdo_voucher_managemen.Startup.{validate_token}

-- the tables of the receiver after a token was issued to a key
abbrev pub with_issued : ℕ → String → String → ℤ → Backend ReceiverTables → Backend ReceiverTables
with_issued now fingerprint token ttl b =
    (issue_token_for_key now (some fingerprint) (ok token) ttl b).1

-- With no outage of the tokens, a token is issued to a key and is not the global one; a status request
-- that shows it, while it is good, is answered with a page only of a voucher that the key owns a record
-- of or has a grant to, whatever the outages of the vouchers' tables.
pub issued_token-may_see :
    (env : Environment) (cfg : Config) (now later : ℕ) (fingerprint token : String) (ttl : ℤ)
    (tokens : Backend ReceiverTables) (r : StatusRequest) (b : Backend Tables)
    (page : VoucherStatusResponse)
    → IsReliable tokens
    → (fingerprint == "") ≡ false
    → any (λ q. q.token == token) tokens.content.tokens ≡ false
    → (token == cfg.voucher_receiver.global_token) ≡ false
    → ltb (unix_micro later) (unix_micro (after now ttl)) ≡ true
    → (r.authorization == "") ≡ false
    → bearer (split_at_space r.authorization) ≡ some token
    → (serve_http env
        (record {
          validate_token = some (λ t.
              (validate_token env cfg later t (with_issued now fingerprint token ttl tokens)).0);
        })
        r
        b).0
      ≡ ok (shown page)
    → may_see page.voucher_id fingerprint b.content ≡ true
unfolding authenticate_caller validate_token
issued_token-may_see env cfg now later fingerprint token ttl tokens r b page rel key fresh other
      good header shows answer =
    serve_http-may_see env _ r b (key_identity fingerprint) page known (rw key refl) answer
  where
    checked :
        (validate_token env cfg later token (with_issued now fingerprint token ttl tokens)).0
        ≡ ok (key_identity fingerprint)
    checked =
        let gate : (not (cfg.voucher_receiver.global_token == "")
              && token == cfg.voucher_receiver.global_token)
            ≡ false =
          ground (arith, other) in
        rw gate (
          (validate_token_to_identity-issue_token_for_key env.sha256_hex now later fingerprint token
            ttl tokens rel key fresh).1
          ∙ rw good refl)

    known :
        authenticate_caller
          (some (λ t.
            (validate_token env cfg later t (with_issued now fingerprint token ttl tokens)).0))
          r.authorization
        ≡ ok (key_identity fingerprint)
    known = rw (header, shows) checked
