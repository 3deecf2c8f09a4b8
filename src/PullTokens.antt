-- ===== src/PullTokens.antt =====
-- pull_service_setup.go: the session tokens of the Pull API, and who is given a token to push with.
pub mod Sessions
pub mod Trust
use go_fdo_voucher_managemen.Prelude.{
  ℕ, ◌*◌, beq, String, Bool, true, false, ◌&&◌, not, Option, none, some, ltb, ◌==◌, if◌then◌else◌,
}
use go_fdo_voucher_managemen.Prelude.Int.{ℤ, pos, negsuc}
use go_fdo_voucher_managemen.Backend.{
  Error, rejected, Result, ok, err, Exec, pure, raise, attempt, ◌>>=◌,
}
use go_fdo_voucher_managemen.Config.{Config, hour}
use go_fdo_voucher_managemen.Environment.{Environment}
use go_fdo_voucher_managemen.Partner.{PartnerTable, has_suppliers, is_trusted_supplier}
use go_fdo_voucher_managemen.Receiver.{Server, on_world, on_receiver}
use go_fdo_voucher_managemen.Tokens.{after, issue_token_for_key}
use go_fdo_voucher_managemen.World.{on_partners}
use go_fdo_voucher_managemen.Backend.{Backend}

pub record PullToken : Type 0 where
  pub owner_key_fingerprint : String
  pub expires_at : ℕ

-- the map of a `pullTokenStore`
abbrev pub PullTokens : Type 0
PullTokens = String → Option PullToken

-- `now.After(expiresAt)`
abbrev pub is_expired : ℕ → PullToken → Bool
is_expired now t = ltb t.expires_at now

abbrev pub unless_expired : ℕ → Option PullToken → Option PullToken
unless_expired now none = none
unless_expired now (some t) = if is_expired now t then none else some t

-- the expired tokens are deleted, and the new one is stored
unfoldable pub store_session : ℕ → String → PullToken → PullTokens → PullTokens
store_session now token t tokens k = if token == k then some t else unless_expired now (tokens k)

-- The fingerprint, which not every key has, and the random token are the libraries'; the second
-- time is that of the deletion.
unfoldable pub issue : ℤ → Option String → Result String → ℕ → ℕ → Exec PullTokens (String × ℕ)
unfolding store_session
issue ttl none random now later tokens =
    (err (rejected "failed to compute owner key fingerprint"), tokens)
issue ttl (some fingerprint) (err e) now later tokens = (err e, tokens)
issue ttl (some fingerprint) (ok token) now later tokens = (
  ok (token, after now ttl),
  store_session later token
      (record { owner_key_fingerprint = fingerprint; expires_at = after now ttl }) tokens,
)

abbrev pub validate_found : ℕ → Option PullToken → Result String
validate_found now none = err (rejected "token not found")
validate_found now (some t) =
    if is_expired now t then err (rejected "token expired") else ok t.owner_key_fingerprint

unfoldable pub validate : ℕ → String → PullTokens → Result String
validate now token tokens = validate_found now (tokens token)

-- `if tokenTTL == 0 { tokenTTL = 1 * time.Hour }`
abbrev pub token_ttl : Config → ℤ
token_ttl cfg = elim cfg.pull_service.token_ttl [
  | pos n ↦ (if beq n 0 then pos hour else pos n)
  | negsuc n ↦ negsuc n
]

module _ (env : Environment) where
  abbrev pub lookup_trust : String × Bool → Result ℤ
  lookup_trust (id, trusted) = if trusted then ok (pos 0) else ok (negsuc 0)

  -- the `LookupKey` of the push receiver: 0 for a key that may push, -1 for one that may not
  unfoldable pub lookup_key : Bool → Result env.PublicKey → Exec (Backend PartnerTable) ℤ
  lookup_key has_store public = if not has_store then pure (pos 0) else (elim public [
    | err e ↦ raise e
    | ok key ↦ is_trusted_supplier env key >>= λ trust b. (lookup_trust trust, b)
  ])

  -- the token that the receiver's token manager issues
  abbrev pub issue_for : Config → ℕ → Option String → Result String → Exec Server (String × ℕ)
  issue_for cfg now fingerprint random =
      on_receiver (issue_token_for_key now fingerprint random (token_ttl cfg))

  abbrev pub issue_if_trusted :
      Config → ℕ → Option String → Result String → String × Bool → Exec Server (String × ℕ)
  issue_if_trusted cfg now fingerprint random (id, trusted) =
      if not trusted
      then raise (rejected "caller key is not a trusted supplier")
      else issue_for cfg now fingerprint random

  abbrev pub issue_checked :
      Config → ℕ → Option String → Result String → Result env.PublicKey → Exec Server (String × ℕ)
  issue_checked cfg now fingerprint random (err e) = raise e
  issue_checked cfg now fingerprint random (ok key) =
      on_world (on_partners (is_trusted_supplier env key)) >>= λ trust.
      issue_if_trusted cfg now fingerprint random trust

  abbrev pub issue_gated :
      Config
      → ℕ
      → Option String
      → Result String
      → Result env.PublicKey
      → Bool
      → Exec Server (String × ℕ)
  issue_gated cfg now fingerprint random public gated =
      if gated
      then issue_checked cfg now fingerprint random public
      else issue_for cfg now fingerprint random

  -- the `IssueToken` of the push receiver
  unfoldable pub issue_push_token :
      Config
      → Bool
      → ℕ
      → Option String
      → Result String
      → Result env.PublicKey
      → Exec Server (String × ℕ)
  issue_push_token cfg has_store now fingerprint random public =
      if has_store
      then (on_world (on_partners has_suppliers) >>= λ some_suppliers.
          issue_gated cfg now fingerprint random public some_suppliers)
      else issue_for cfg now fingerprint random
