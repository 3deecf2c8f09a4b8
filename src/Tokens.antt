-- ===== src/Tokens.antt =====
-- voucher_receiver_tokens.go: the bearer tokens of the receiver, and its audit log. A time is in
-- nanoseconds since 1970, and a column has microseconds.
pub mod Laws
use go_fdo_voucher_managemen.Prelude.{
  ℕ, zero, suc, ◌+◌, ◌*◌, ◌/◌, String, Bool, true, false, ◌&&◌, ◌||◌, not, Option, none, some, List,
  [], ◌∷◌, ◌++◌, map, filter, any, count_where, ltb, leb, ◌==◌, if◌then◌else◌,
}
use go_fdo_voucher_managemen.Prelude.Int.{ℤ, pos, pos_part, ◌+ℤ◌, is_nonpos}
use go_fdo_voucher_managemen.Prelude.Order.{sort_by}
use go_fdo_voucher_managemen.Backend.{
  Error, constraint, rejected, Result, ok, err, Exec, Backend, pure, raise, attempt, ◌>>=◌, ◌>>◌,
  statement, query, command,
}
use go_fdo_voucher_managemen.Config.{hour}
use go_fdo_voucher_managemen.Push.Backoff.{mul_int64}
use go_fdo_voucher_managemen.Transmission.Store.{first_row}
use go_fdo_voucher_managemen.Identity.{AuthMethod, fdo_key_auth, bearer_token, CallerIdentity}

-- a row of voucher_receiver_tokens; a NULL is `none`
pub record ReceiverToken : Type 0 where
  pub token : String
  pub description : Option String
  pub expires_at : Option ℕ
  pub created_at : ℕ
  pub owner_key_fingerprint : Option String

-- a row of voucher_receiver_audit
pub record ReceivedVoucher : Type 0 where
  pub id : ℕ
  pub guid : String
  pub serial : String
  pub model : String
  pub manufacturer : String
  pub source_ip : String
  pub token_used : String
  pub received_at : ℕ
  pub file_size : ℤ

pub record ReceiverTables : Type 0 where
  pub tokens : List ReceiverToken
  pub audit : List ReceivedVoucher
  pub last_audit_id : ℕ

-- `UnixMicro`
abbrev pub unix_micro : ℕ → ℕ
unix_micro t = t / 1000

-- `t.Add(d)`, no earlier than 1970
abbrev pub after : ℕ → ℤ → ℕ
after t d = pos_part (pos t +ℤ d)

-- `INSERT`, where the token is the primary key
unfoldable pub insert_token : ReceiverToken → ReceiverTables → Result (Unit {0}) × ReceiverTables
insert_token row t =
    if any (λ r. r.token == row.token) t.tokens
    then (err constraint, t)
    else (ok tt, record t { tokens = t.tokens ++ row ∷ [] })

unfoldable pub add_receiver_token : ℕ → String → String → ℤ → Exec (Backend ReceiverTables) Unit
unfolding insert_token
add_receiver_token now token description expires_hours = statement (
    insert_token (record {
      token = token;
      description = some description;
      expires_at =
          if is_nonpos expires_hours
          then none
          else some (unix_micro (after now (mul_int64 expires_hours (pos hour))));
      created_at = unix_micro now;
      owner_key_fingerprint = none;
    }))

-- `expires_at IS NULL OR expires_at > ?`
abbrev pub is_live : ℕ → Option ℕ → Bool
is_live now none = true
is_live now (some t) = ltb (unix_micro now) t

unfoldable pub is_valid : ℕ → String → ReceiverToken → Bool
is_valid now token r = r.token == token && is_live now r.expires_at

unfoldable pub validate_receiver_token : ℕ → String → Exec (Backend ReceiverTables) Bool
unfolding is_valid
validate_receiver_token now token = query (λ t. ltb 0 (count_where (is_valid now token) t.tokens))

-- no row affected is an error
unfoldable pub delete_receiver_token : String → Exec (Backend ReceiverTables) Unit
delete_receiver_token token = statement λ t. (
  (if any (λ r. r.token == token) t.tokens then ok tt else err (rejected "token not found")),
  record t { tokens = filter (λ r. not (r.token == token)) t.tokens },
)

pub record ReceiverTokenInfo : Type 0 where
  pub token : String
  pub description : String
  pub owner_key_fingerprint : String
  pub expires_at : Option ℕ
  pub created_at : ℕ
  pub is_expired : Bool

abbrev pub or_empty : Option String → String
or_empty none = ""
or_empty (some s) = s

-- `expiresAt.Before(now)`
abbrev pub is_past : ℕ → Option ℕ → Bool
is_past now none = false
is_past now (some t) = ltb (t * 1000) now

-- every row has a description: a NULL there, which no INSERT of the program writes, would be an error
unfoldable pub token_info : ℕ → ReceiverToken → ReceiverTokenInfo
token_info now r = record {
  token = r.token;
  description = or_empty r.description;
  owner_key_fingerprint = or_empty r.owner_key_fingerprint;
  expires_at = r.expires_at;
  created_at = r.created_at;
  is_expired = is_past now r.expires_at;
}

unfoldable pub latest_first : ReceiverToken → ReceiverToken → Bool
latest_first a b = leb b.created_at a.created_at

unfoldable pub list_receiver_tokens : ℕ → Exec (Backend ReceiverTables) (List ReceiverTokenInfo)
list_receiver_tokens now = query (λ t. map (token_info now) (sort_by latest_first t.tokens))

unfoldable pub add_receiver_token_with_fingerprint :
    ℕ → String → String → ℕ → String → Exec (Backend ReceiverTables) Unit
unfolding insert_token
add_receiver_token_with_fingerprint now token description expires_at fingerprint = statement (
    insert_token (record {
      token = token;
      description = some description;
      expires_at = some (unix_micro expires_at);
      created_at = unix_micro now;
      owner_key_fingerprint = some fingerprint;
    }))

-- The key's fingerprint, where it has one, and the random token are computed by the libraries.
unfoldable pub issue_token_for_key :
    ℕ → Option String → Result String → ℤ → Exec (Backend ReceiverTables) (String × ℕ)
unfolding add_receiver_token_with_fingerprint
issue_token_for_key now none random ttl = raise (rejected "failed to compute key fingerprint")
issue_token_for_key now (some fingerprint) (err e) ttl = raise e
issue_token_for_key now (some fingerprint) (ok token) ttl =
    add_receiver_token_with_fingerprint now token "FDOKeyAuth-issued" (after now ttl) fingerprint
    >> pure (token, after now ttl)

abbrev pub label_or : String → String
label_or description = if description == "" then "token" else description

-- The SHA-256 of a label is its fingerprint, where no key has one.
unfoldable pub token_identity : (String → String) → ReceiverToken → CallerIdentity
token_identity sha256_hex r =
    if or_empty r.owner_key_fingerprint == ""
    then record {
      fingerprint = sha256_hex (label_or (or_empty r.description));
      identity_label = label_or (or_empty r.description);
      auth_method = bearer_token;
      partner_id = "";
      has_owner_key = false;
    }
    else record {
      fingerprint = or_empty r.owner_key_fingerprint;
      identity_label = or_empty r.description;
      auth_method = fdo_key_auth;
      partner_id = "";
      has_owner_key = true;
    }

abbrev pub identity_or_refusal :
    (String → String) → Result ReceiverToken → Exec (Backend ReceiverTables) CallerIdentity
identity_or_refusal sha256_hex (ok r) = pure (token_identity sha256_hex r)
identity_or_refusal sha256_hex (err e) = raise (rejected "token not found or expired")

unfoldable pub validate_token_to_identity :
    (String → String) → ℕ → String → Exec (Backend ReceiverTables) CallerIdentity
unfolding is_valid token_identity
validate_token_to_identity sha256_hex now token = do
  found ← attempt (statement (λ t. (first_row (filter (is_valid now token) t.tokens), t)))
  identity_or_refusal sha256_hex found

unfoldable pub log_received_voucher :
    ℕ → String → String → String → String → String → String → ℤ → Exec (Backend ReceiverTables) Unit
log_received_voucher now guid serial model manufacturer source_ip token_used file_size =
    command λ t. record t {
      audit =
          t.audit
          ++ record {
            id = suc t.last_audit_id;
            guid = guid;
            serial = serial;
            model = model;
            manufacturer = manufacturer;
            source_ip = source_ip;
            token_used = token_used;
            received_at = unix_micro now;
            file_size = file_size;
          }
            ∷ [];
      last_audit_id = suc t.last_audit_id;
    }
