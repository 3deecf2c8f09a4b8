-- ===== src/Assign/Handler/Guard.antt =====
-- Who may have vouchers assigned at all (voucher_assign_handler.go, token_identity.go).
use go_fdo_voucher_managemen.Prelude.{
  ℕ, ◌≡◌, refl, String, Bool, false, ◌&&◌, none, some, ◌==◌, Bool-cases, inl, inr, arith,
}
use go_fdo_voucher_managemen.Backend.{Result, ok, err, pure}
use go_fdo_voucher_managemen.Environment.{Environment}
use go_fdo_voucher_managemen.Identity.{CallerIdentity, can_assign}
use go_fdo_voucher_managemen.World.{World}
use go_fdo_voucher_managemen.Assign.{VoucherAssignHandler}
use go_fdo_voucher_managemen.Assign.Handler.{
  HttpRequest, failure, authenticate_caller, serve_caller, serve_http,
}

abbrev pub caller_may : Result CallerIdentity → Bool
caller_may (err e) = false
caller_may (ok caller) = can_assign (some caller)

-- a POST by a caller who may assign
abbrev pub is_admitted : VoucherAssignHandler → HttpRequest → Bool
is_admitted h r =
    r.method == "POST" && caller_may (authenticate_caller h.validate_token r.authorization)

-- Any other request is answered by a failure, and nothing changes: no row, grant, file or partner.
serve_http_refused :
    (env : Environment) (h : VoucherAssignHandler) (now : ℕ) (r : HttpRequest) (w : World)
    → is_admitted h r ≡ false
    → (status : ℕ) × (message : String) × (serve_http env h now r w
        ≡ (ok (failure status message), w))
unfolding serve_http pure
serve_http_refused env h now r w refused = elim (Bool-cases (r.method == "POST")) [
  | inr e ↦ rw e (_, _, refl)
  | inl e ↦ rw e (go (authenticate_caller h.validate_token r.authorization) (ground arith))
]
  where
    go :
        (c : Result CallerIdentity)
        → caller_may c ≡ false
        → (status : ℕ) × (message : String) × (serve_caller env h now c r.body w
            ≡ (ok (failure status message), w))
    go (err e) k = (_, _, refl)
    go (ok caller) k = rw k (_, _, refl)

-- Without a token check, a request is never admitted: it has no identity.
pub is_admitted_unchecked :
    (h : VoucherAssignHandler) (r : HttpRequest) → h.validate_token ≡ none → is_admitted h r ≡ false
unfolding authenticate_caller can_assign
is_admitted_unchecked h r e = rw e (ground arith)
