-- ===== src/Push/Client.antt =====
-- voucher_push_client.go: one upload, with a cached FDOKeyAuth token where none is configured.
use go_fdo_voucher_managemen.Prelude.{
  ℕ, ◌+◌, ◌*◌, String, Bool, ◌&&◌, Option, none, some, List, [], ◌∷◌, ltb, ◌==◌, if◌then◌else◌,
}
use go_fdo_voucher_managemen.Backend.{rejected, Result, ok, err, Exec, pure, raise, attempt, ◌>>=◌}
use go_fdo_voucher_managemen.Config.{second}
use go_fdo_voucher_managemen.Destination.{VoucherDestination}
use go_fdo_voucher_managemen.Disk.{read_file}
use go_fdo_voucher_managemen.Environment.{Environment}
use go_fdo_voucher_managemen.World.{CachedToken, World, on_disk, answer}

unfoldable pub cached : String → List (String × CachedToken) → Option CachedToken
cached url [] = none
cached url ((u, t) ∷ cache) = if u == url then some t else cached url cache

-- `time.Now().Before(ct.expiresAt.Add(-30 * time.Second))`
abbrev pub fresh_token : ℕ → Option CachedToken → Option String
fresh_token now none = none
fresh_token now (some t) = if ltb (now + 30 * second) t.expires_at then some t.token else none

-- a new token goes to the head, where it hides an older one
unfoldable pub store_token : String → String → ℕ → Exec World String
store_token url token expires_at w = (
  ok token,
  record w {
    token_cache = (url, record { token = token; expires_at = expires_at }) ∷ w.token_cache;
  },
)

unfoldable pub get_or_refresh_token : Environment → ℕ → String → Exec World String
unfolding cached store_token
get_or_refresh_token env now url w = elim (fresh_token now (cached url w.token_cache)) [
  | some token ↦ (ok token, w)
  | none ↦ (elim (env.authenticate now url) [
    | err e ↦ (err e, w)
    | ok (token, expires) ↦ store_token url token (expires * second) w
  ])
]

-- a failed handshake is logged, and the push goes on with no token
abbrev pub token_or_none : Result String → String
token_or_none (ok token) = token
token_or_none (err e) = ""

unfoldable pub push_token : Environment → Bool → ℕ → VoucherDestination → Exec World String
unfolding get_or_refresh_token
push_token env has_owner_key now dest =
    if dest.token == "" && has_owner_key
    then (do r ← attempt (get_or_refresh_token env now dest.url); pure (token_or_none r))
    else pure dest.token

unfoldable pub push : Environment → Bool → ℕ → VoucherDestination → String → Exec World Unit
unfolding push_token
push env has_owner_key now dest file_path =
    if dest.url == "" then raise (rejected "destination missing URL") else (do
      text ← on_disk (read_file file_path)
      voucher ← answer (env.parse_voucher text)
      token ← push_token env has_owner_key now dest
      answer (env.send now dest.url token voucher))
