-- ===== src/Assign/Handler.antt =====
-- voucher_assign_handler.go: `ServeHTTP`, from the request to the response's status and results.
pub mod Guard
use go_fdo_voucher_managemen.Prelude.{
  ℕ, String, Bool, true, false, ◌&&◌, ◌||◌, not, Option, none, some, List, [], ◌∷◌, ◌==◌,
  if◌then◌else◌,
}
use go_fdo_voucher_managemen.Prelude.Text.{to_lower, split_at_space}
use go_fdo_voucher_managemen.Backend.{Error, rejected, Result, ok, err, Exec, pure, attempt, ◌>>=◌}
use go_fdo_voucher_managemen.Environment.{Environment}
use go_fdo_voucher_managemen.Identity.{CallerIdentity, AuthMethod, no_auth, can_assign}
use go_fdo_voucher_managemen.Push.{error_text}
use go_fdo_voucher_managemen.World.{World}
use go_fdo_voucher_managemen.Assign.{VoucherAssignHandler, AssignResult, Assignment, assign_voucher}

pub record AssignRequest : Type 0 where
  pub serials : List String
  pub new_owner_did : String
  pub new_owner_key : String
  pub new_owner_key_fmt : String
  pub push_url : String

-- a request, with its body as encoding/json decodes it
pub record HttpRequest : Type 0 where
  pub method : String
  pub authorization : String  -- "" where there is no such header
  pub body : Result AssignRequest

pub data HttpResponse : Type 0 where
  failure : (status : ℕ) → (message : String) → HttpResponse
  assigned_all : List AssignResult → HttpResponse

-- the token of an Authorization header, where its scheme is Bearer in any case
abbrev pub bearer : Option (String × String) → Option String
bearer none = none
bearer (some (scheme, token)) = if to_lower scheme == "bearer" then some token else none

abbrev pub check_bearer : (String → Result CallerIdentity) → Option String → Result CallerIdentity
check_bearer validate none = err (rejected "invalid authorization header")
check_bearer validate (some token) = validate token

unfoldable pub authenticate_caller :
    Option (String → Result CallerIdentity) → String → Result CallerIdentity
unfolding split_at_space
authenticate_caller none header = ok (record {
  fingerprint = "";
  identity_label = "";
  auth_method = no_auth;
  partner_id = "";
  has_owner_key = false;
})
authenticate_caller (some validate) header =
    if header == ""
    then err (rejected "no authorization header")
    else check_bearer validate (bearer (split_at_space header))

module _ (env : Environment) (h : VoucherAssignHandler) (now : ℕ) where
  -- each serial in turn; none of them stops the others
  unfoldable pub assign_each :
      env.PublicKey → String → CallerIdentity → List String → Exec World (List AssignResult)
  assign_each key did caller [] = pure []
  assign_each key did caller (serial ∷ serials) = do
    result ←
        assign_voucher env h now
          (record {
            serial = serial;
            new_owner_fingerprint = env.fingerprint_fdo_hex key;
            new_owner_did = did;
            caller = caller;
          })
          key
    results ← assign_each key did caller serials
    pure (result ∷ results)

  abbrev pub assign_to :
      String → CallerIdentity → List String → Result env.PublicKey → Exec World HttpResponse
  assign_to did caller serials (err e) = pure (failure 400 (error_text e))
  assign_to did caller serials (ok key) =
      assign_each key did caller serials >>= λ results. pure (assigned_all results)

  abbrev pub key_of : Result (env.PublicKey × String) → Result env.PublicKey
  key_of (err e) = err e
  key_of (ok (key, url)) = ok key

  abbrev pub is_empty : List String → Bool
  is_empty [] = true
  is_empty (s ∷ rest) = false

  unfoldable pub serve_request : CallerIdentity → Result AssignRequest → Exec World HttpResponse
  unfolding assign_each
  serve_request caller (err e) = pure (failure 400 "invalid request body")
  serve_request caller (ok req) =
      if is_empty req.serials
      then pure (failure 400 "serials is required and must not be empty")
      else if req.new_owner_did == "" && req.new_owner_key == ""
      then pure (failure 400 "either new_owner_did or new_owner_key is required")
      else if not (req.new_owner_did == "") && not (req.new_owner_key == "")
      then pure (failure 400 "new_owner_did and new_owner_key are mutually exclusive")
      else if not (req.new_owner_did == "")
      then (if not h.has_did_resolver
          then pure (failure 400 "DID resolution not configured")
          else assign_to req.new_owner_did caller req.serials
              (key_of (env.resolve_did now req.new_owner_did)))
      else assign_to "" caller req.serials (env.load_public_key_pem req.new_owner_key)

  abbrev pub serve_caller : Result CallerIdentity → Result AssignRequest → Exec World HttpResponse
  serve_caller (err e) body = pure (failure 401 "authentication required")
  serve_caller (ok caller) body =
      if not (can_assign (some caller))
      then pure (failure 403 "caller identity cannot perform assignment")
      else serve_request caller body

  unfoldable pub serve_http : HttpRequest → Exec World HttpResponse
  unfolding serve_request authenticate_caller
  serve_http r =
      if not (r.method == "POST")
      then pure (failure 405 "method not allowed")
      else serve_caller (authenticate_caller h.validate_token r.authorization) r.body
