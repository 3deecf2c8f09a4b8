-- ===== src/Destination.antt =====
-- voucher_destination.go: where a voucher is delivered to.
pub mod Laws
use go_fdo_voucher_managemen.Prelude.{
  ℕ, String, Bool, true, false, ◌&&◌, not, Option, none, some, ◌==◌, if◌then◌else◌,
}
use go_fdo_voucher_managemen.Backend.{
  Error, rejected, Result, ok, err, Exec, pure, raise, attempt, ◌>>=◌, Backend,
}
use go_fdo_voucher_managemen.Config.{Config}
use go_fdo_voucher_managemen.Environment.{Environment}
use go_fdo_voucher_managemen.Partner.{Partner, PartnerTable, get_by_fingerprint}
use Prim.Native.String

pub record VoucherDestination : Type 0 where
  pub url : String
  pub token : String
  pub source : String
  pub mode : String

-- The pointers of the resolver that may be nil: `none` is a nil config, the flags tell whether the
-- callback executor and the partner store are there.
pub record VoucherDestinationResolver : Type 0 where
  pub config : Option Config
  pub has_callback_executor : Bool
  pub has_partner_store : Bool

-- the destination that a partner's row gives, if it may receive vouchers and has a push URL
unfoldable pub partner_destination : Config → Partner → Option VoucherDestination
partner_destination cfg p =
    if not p.can_receive_vouchers
    then none
    else if p.push_url == ""
    then none
    else some (record {
      url = p.push_url;
      token = p.auth_token;
      source = String.◌++◌ "partner:" p.id;
      mode = cfg.push_service.mode;
    })

abbrev pub partner_or_none : Config → Result Partner → Option VoucherDestination
partner_or_none cfg (ok p) = partner_destination cfg p
partner_or_none cfg (err e) = none

unfoldable pub resolve_via_partner :
    Config → String → Exec (Backend PartnerTable) (Option VoucherDestination)
resolve_via_partner cfg fp = do r ← attempt (get_by_fingerprint fp); pure (partner_or_none cfg r)

unfoldable pub resolve_via_callback :
    Environment → Config → Bool → ℕ → String → String → String → Result VoucherDestination
resolve_via_callback env cfg has_executor now serial model guid =
    if not has_executor
    then err (rejected "destination callback enabled but executor is nil")
    else (elim (env.destination_command now serial model guid) [
      | err e ↦ err e
      | ok output ↦
          if output == ""
          then err (rejected "destination callback returned empty output")
          else ok (record {
            url = output;
            token = "";
            source = "callback";
            mode = cfg.push_service.mode;
          })
    ])

abbrev pub callback_or_none : Result VoucherDestination → Option VoucherDestination
callback_or_none (ok d) = some d
callback_or_none (err e) = none

-- 3. the DID's URL, 4. the configured URL
unfoldable pub resolve_configured : Config → String → Result VoucherDestination
resolve_configured cfg did_url =
    if cfg.did_push_enabled && not (did_url == "")
    then ok (record { url = did_url; token = ""; source = "did"; mode = cfg.push_service.mode })
    else if cfg.push_service.enabled && not (cfg.push_service.url == "")
    then ok (record {
      url = cfg.push_service.url;
      token = cfg.push_service.auth_token;
      source = "static";
      mode = cfg.push_service.mode;
    })
    else err (rejected "no voucher destination available")

-- 1. the callback, if it is enabled
unfoldable pub by_callback :
    Environment → Config → Bool → ℕ → String → String → String → Option VoucherDestination
unfolding resolve_via_callback
by_callback env cfg has_executor now serial model guid =
    if cfg.destination_callback.enabled
    then callback_or_none (resolve_via_callback env cfg has_executor now serial model guid)
    else none

-- 2. the partner with the next owner's key
unfoldable pub by_partner :
    Config → Bool → String → Exec (Backend PartnerTable) (Option VoucherDestination)
unfolding resolve_via_partner
by_partner cfg has_store fp =
    if has_store && not (fp == "") then resolve_via_partner cfg fp else pure none

abbrev pub or_configured : Config → String → Option VoucherDestination → Result VoucherDestination
or_configured cfg did_url (some d) = ok d
or_configured cfg did_url none = resolve_configured cfg did_url

unfoldable pub after_callback :
    Config
    → Bool
    → String
    → String
    → Option VoucherDestination
    → Exec (Backend PartnerTable) VoucherDestination
unfolding by_partner
after_callback cfg has_store did_url fp (some d) = pure d
after_callback cfg has_store did_url fp none =
    by_partner cfg has_store fp >>= λ d s. (or_configured cfg did_url d, s)

unfoldable pub resolve_destination :
    Environment
    → VoucherDestinationResolver
    → ℕ
    → String
    → String
    → String
    → String
    → String
    → Exec (Backend PartnerTable) VoucherDestination
unfolding by_callback after_callback
resolve_destination env r now serial model guid did_url fp = elim r.config [
  | none ↦ raise (rejected "destination resolver not configured")
  | some cfg ↦
      after_callback cfg r.has_partner_store did_url fp
        (by_callback env cfg r.has_callback_executor now serial model guid)
]
