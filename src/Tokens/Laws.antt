-- ===== src/Tokens/Laws.antt =====
-- When a receiver's token is good, and for whom (voucher_receiver_tokens.go).
use go_fdo_voucher_managemen.Prelude.{
  ℕ, ◌≡◌, refl, sym, ap, ◌∙◌, String, Bool, true, false, not, some, List, [], ◌∷◌, ◌++◌, filter,
  any, count_where, ltb, ◌==◌, eq_iff, eq_refl, Bool-cases, inl, inr, if◌then◌else◌, arith,
}
use go_fdo_voucher_managemen.Prelude.Int.{ℤ}
use go_fdo_voucher_managemen.Backend.{
  rejected, Result, ok, err, Backend, pure, raise, attempt, ◌>>=◌,
}
use go_fdo_voucher_managemen.Backend.Laws.{IsReliable, query_reliable, statement_reliable}
use go_fdo_voucher_managemen.Transmission.Store.{first_row}
use go_fdo_voucher_managemen.Identity.{
  CallerIdentity, fdo_key_auth, can_sign_over, is_authenticated,
}
use go_fdo_voucher_managemen.Tokens.{
  ReceiverToken, ReceiverTables, unix_micro, after, insert_token, is_valid, is_live,
  validate_receiver_token, delete_receiver_token, add_receiver_token_with_fingerprint,
  issue_token_for_key, token_identity, identity_or_refusal, validate_token_to_identity,
}

abbrev pub is_ok {ℓ} : {A : Type ℓ} → Result A → Bool
is_ok (ok a) = true
is_ok (err e) = false

identity_of :
    (sha256_hex : String → String) (now : ℕ) (token : String) (b : Backend ReceiverTables)
    → IsReliable b
    → (validate_token_to_identity sha256_hex now token b).0
      ≡ (identity_or_refusal sha256_hex
          (first_row (filter (is_valid now token) b.content.tokens))
          b).0
unfolding validate_token_to_identity ◌>>=◌ attempt pure raise
identity_of sha256_hex now token b rel =
    rw (statement_reliable _ b rel) (go (first_row (filter (is_valid now token) b.content.tokens)))
  where
    go :
        (r : Result ReceiverToken)
        → (identity_or_refusal sha256_hex r (record { content = b.content; outages = [] })).0
          ≡ (identity_or_refusal sha256_hex r b).0
    go (ok r) = refl
    go (err e) = refl

counted :
    (sha256_hex : String → String) (now : ℕ) (token : String) (rows : List ReceiverToken)
    (b : Backend ReceiverTables)
    → is_ok (identity_or_refusal sha256_hex (first_row (filter (is_valid now token) rows)) b).0
      ≡ ltb 0 (count_where (is_valid now token) rows)
unfolding pure raise
counted sha256_hex now token [] b = refl
counted sha256_hex now token (r ∷ rows) b = elim (Bool-cases (is_valid now token r)) [
  | inl e ↦ rw e (ground arith)
  | inr e ↦ rw e (counted sha256_hex now token rows b)
]

-- With no outage, ValidateReceiverToken accepts a token at a time exactly when
-- ValidateTokenToIdentity returns an identity for it.
pub validate_receiver_token-validate_token_to_identity :
    (sha256_hex : String → String) (now : ℕ) (token : String) (b : Backend ReceiverTables)
    → IsReliable b
    → (validate_receiver_token now token b).0
      ≡ ok (is_ok (validate_token_to_identity sha256_hex now token b).0)
unfolding validate_receiver_token
validate_receiver_token-validate_token_to_identity sha256_hex now token b rel =
    rw
      (
        query_reliable (λ (t : ReceiverTables). ltb 0 (count_where (is_valid now token) t.tokens)) b
            rel,
        identity_of sha256_hex now token b rel,
        counted sha256_hex now token b.content.tokens b,
      )
      refl

-- the identity that a key has by its token
abbrev pub key_identity : String → CallerIdentity
key_identity fingerprint = record {
  fingerprint = fingerprint;
  identity_label = "FDOKeyAuth-issued";
  auth_method = fdo_key_auth;
  partner_id = "";
  has_owner_key = true;
}

only_new :
    (now : ℕ) (row : ReceiverToken) (rows : List ReceiverToken)
    → any (λ r. r.token == row.token) rows ≡ false
    → filter (is_valid now row.token) (rows ++ row ∷ [])
      ≡ (if is_live now row.expires_at then row ∷ [] else [])
unfolding is_valid
only_new now row [] h = ground (arith, eq_refl row.token)
only_new now row (r ∷ rows) h = ground (arith, only_new now row rows)

-- With no outage and a key that has a fingerprint that is not empty, a fresh random token is issued
-- with the expiry that is returned, and from then on, whenever it is shown: before that expiry, in
-- whole microseconds, it identifies the key, which can be signed over to; from it on, it is refused.
pub validate_token_to_identity-issue_token_for_key :
    (sha256_hex : String → String) (now later : ℕ) (fingerprint token : String) (ttl : ℤ)
    (b : Backend ReceiverTables)
    → IsReliable b
    → (fingerprint == "") ≡ false
    → any (λ r. r.token == token) b.content.tokens ≡ false
    → ((issue_token_for_key now (some fingerprint) (ok token) ttl b).0 ≡ ok (token, after now ttl))
      × ((validate_token_to_identity sha256_hex later token
            (issue_token_for_key now (some fingerprint) (ok token) ttl b).1).0
          ≡ (if ltb (unix_micro later) (unix_micro (after now ttl))
              then ok (key_identity fingerprint)
              else err (rejected "token not found or expired")))
      × (can_sign_over (some (key_identity fingerprint)) ≡ true)
unfolding issue_token_for_key add_receiver_token_with_fingerprint insert_token ◌>>=◌ pure raise
    can_sign_over is_authenticated
validate_token_to_identity-issue_token_for_key sha256_hex now later fingerprint token ttl b rel
      some_key fresh =
    rw (statement_reliable (insert_token row) b rel, fresh)
      (
        refl,
        identity_of sha256_hex later token
              (record {
                content = record b.content { tokens = b.content.tokens ++ row ∷ [] };
                outages = [];
              })
              refl
            ∙ rw (only_new later row b.content.tokens fresh)
                (elim (Bool-cases (ltb (unix_micro later) (unix_micro (after now ttl)))) [
                  | inl e ↦ rw e (unfold token_identity in rw some_key refl)
                  | inr e ↦ rw e refl
                ]),
        rw some_key refl,
      )
  where
    row : ReceiverToken
    row = record {
      token = token;
      description = some "FDOKeyAuth-issued";
      expires_at = some (unix_micro (after now ttl));
      created_at = unix_micro now;
      owner_key_fingerprint = some fingerprint;
    }

deleted :
    (now : ℕ) (token other : String) (rows : List ReceiverToken)
    → count_where (is_valid now other) (filter (λ r. not (r.token == token)) rows)
      ≡ (if token == other then 0 else count_where (is_valid now other) rows)
unfolding is_valid
deleted now token other [] = ground arith
deleted now token other (r ∷ rows) = ground (
  arith,
  deleted now token other rows,
  eq_iff r.token token,
  eq_iff r.token other,
  eq_iff token other,
)

validated :
    (now : ℕ) (token : String) (b : Backend ReceiverTables)
    → IsReliable b
    → (validate_receiver_token now token b).0
      ≡ ok (ltb 0 (count_where (is_valid now token) b.content.tokens))
unfolding validate_receiver_token
validated now token b rel =
    ap (λ p. p.0)
      (query_reliable (λ (t : ReceiverTables). ltb 0 (count_where (is_valid now token) t.tokens)) b
        rel)

-- With no outage, once DeleteReceiverToken has been called for a token, whatever it returned, the
-- token is refused at any time, and any other token is accepted as before.
pub validate_receiver_token-delete_receiver_token :
    (now : ℕ) (token other : String) (b : Backend ReceiverTables)
    → IsReliable b
    → (validate_receiver_token now other (delete_receiver_token token b).1).0
      ≡ (if token == other then ok false else (validate_receiver_token now other b).0)
unfolding delete_receiver_token
validate_receiver_token-delete_receiver_token now token other b rel =
    rw (statement_reliable _ b rel) (
      validated now other _ refl
      ∙ rw (deleted now token other b.content.tokens) (elim (Bool-cases (token == other)) [
        | inl e ↦ rw e refl
        | inr e ↦ rw e (sym (validated now other b rel))
      ]))
