-- ===== src/Identity.antt =====
-- token_identity.go: who a caller is. A nil pointer is `none`.
use go_fdo_voucher_managemen.Prelude.{
  String, Bool, true, false, ◌&&◌, not, Option, none, some, ◌==◌,
}

pub data AuthMethod : Type 0 where
  fdo_key_auth bearer_token global_token no_auth : AuthMethod

abbrev pub is_no_auth : AuthMethod → Bool
is_no_auth no_auth = true
is_no_auth m = false

abbrev pub is_global : AuthMethod → Bool
is_global global_token = true
is_global m = false

pub record CallerIdentity : Type 0 where
  pub fingerprint : String
  pub identity_label : String
  pub auth_method : AuthMethod
  pub partner_id : String
  pub has_owner_key : Bool

unfoldable pub is_authenticated : Option CallerIdentity → Bool
is_authenticated none = false
is_authenticated (some c) = not (is_no_auth c.auth_method) && not (c.fingerprint == "")

unfoldable pub can_assign : Option CallerIdentity → Bool
unfolding is_authenticated
can_assign c = is_authenticated c

unfoldable pub can_sign_over : Option CallerIdentity → Bool
unfolding is_authenticated
can_sign_over none = false
can_sign_over (some c) = is_authenticated (some c) && c.has_owner_key
