-- ===== src/PullTokens/Sessions.antt =====
-- How long a session token of the Pull API is good (pull_service_setup.go).
use go_fdo_voucher_managemen.Prelude.{
  ℕ, ◌≤◌, ◌≡◌, refl, String, true, Option, none, some, leb, ltb, ◌==◌, Bool-cases, inl, inr,
  if◌then◌else◌, arith,
}
use go_fdo_voucher_managemen.Prelude.Int.{ℤ}
use go_fdo_voucher_managemen.Backend.{Result, ok, err}
use go_fdo_voucher_managemen.Tokens.{after}
use go_fdo_voucher_managemen.PullTokens.{
  PullToken, PullTokens, store_session, issue, validate, validate_found, unless_expired,
}

-- the fingerprint that a token stands for, if it is good
abbrev pub good : Result String → Option String
good (ok fingerprint) = some fingerprint
good (err e) = none

kept_until :
    (later t : ℕ) (o : Option PullToken)
    → later ≤ t
    → good (validate_found t (unless_expired later o)) ≡ good (validate_found t o)
kept_until later t none h = refl
kept_until later t (some x) h = elim (Bool-cases (ltb x.expires_at later)) [
  | inr e ↦ rw e refl
  | inl e ↦ (let gone : ltb x.expires_at t ≡ true = ground arith in rw (e, gone) refl)
]

-- From the time of an issue on, the issued token stands for its owner's key until its expiry and no
-- longer, and every other token is as good as if the issue had not deleted the expired ones.
pub validate-issue :
    (ttl : ℤ) (fingerprint token other : String) (now later t : ℕ) (tokens : PullTokens)
    → later ≤ t
    → good (validate t other (issue ttl (some fingerprint) (ok token) now later tokens).1) ≡ (
        if token == other
        then (if leb t (after now ttl) then some fingerprint else none)
        else good (validate t other tokens))
unfolding validate issue store_session
validate-issue ttl fingerprint token other now later t tokens h =
    elim (Bool-cases (token == other)) [
      | inr e ↦ rw e (kept_until later t (tokens other) h)
      | inl e ↦ rw e (ground arith)
    ]
