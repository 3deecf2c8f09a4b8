-- ===== src/Startup.antt =====
-- main.go and partner_command.go: the token check that the handlers share, and the partners of the
-- configuration, which are enrolled at every start.
pub mod Tokens
pub mod Bootstrap
use go_fdo_voucher_managemen.Prelude.{
  ℕ, String, Bool, true, false, ◌&&◌, not, Option, none, some, List, [], ◌∷◌, ◌==◌, if◌then◌else◌,
}
use go_fdo_voucher_managemen.Backend.{
  Error, Result, ok, err, Exec, Backend, pure, raise, attempt, ◌>>=◌, ◌>>◌,
}
use go_fdo_voucher_managemen.Config.{Config, PartnerConfig}
use go_fdo_voucher_managemen.Disk.{read_file}
use go_fdo_voucher_managemen.Environment.{Environment}
use go_fdo_voucher_managemen.Identity.{CallerIdentity, global_token}
use go_fdo_voucher_managemen.Partner.{Partner, get, add}
use go_fdo_voucher_managemen.Tokens.{ReceiverTables, validate_token_to_identity}
use go_fdo_voucher_managemen.World.{World, on_disk, on_partners}

-- the closure `validateToken` of main
unfoldable pub validate_token :
    Environment → Config → ℕ → String → Exec (Backend ReceiverTables) CallerIdentity
validate_token env cfg now token =
    if not (cfg.voucher_receiver.global_token == "") && token == cfg.voucher_receiver.global_token
    then pure (record {
      fingerprint = env.sha256_hex "global";
      identity_label = "global";
      auth_method = global_token;
      partner_id = "";
      has_owner_key = false;
    })
    else validate_token_to_identity env.sha256_hex now token

abbrev pub or_default : Bool → Option Bool → Bool
or_default d none = d
or_default d (some b) = b

module _ (env : Environment) (now : ℕ) where
  -- a key file that cannot be read or parsed leaves the partner without a key
  abbrev pub parsed_or_empty : String → Result env.PublicKey → String
  parsed_or_empty pem (err e) = ""
  parsed_or_empty pem (ok key) = pem

  abbrev pub key_or_empty : Result String → String
  key_or_empty (err e) = ""
  key_or_empty (ok pem) = parsed_or_empty pem (env.load_public_key_pem pem)

  unfoldable pub read_key : String → Exec World String
  read_key key_file =
      if key_file == ""
      then pure ""
      else attempt (on_disk (read_file key_file)) >>= λ pem. pure (key_or_empty pem)

  unfoldable pub configured_partner : PartnerConfig → String → Partner
  configured_partner pc pem = record {
    id = pc.id;
    can_supply_vouchers = or_default false pc.can_supply;
    can_receive_vouchers = or_default false pc.can_receive;
    did_uri = pc.did;
    public_key = pem;
    push_url = pc.push_url;
    pull_url = pc.pull_url;
    auth_token = pc.auth_token;
    did_document = "";
    did_document_fetched_at = 0;
    did_document_etag = "";
    public_key_fingerprint = "";
    enabled = or_default true pc.enabled;
    created_at = 0;
    updated_at = 0;
  }

  -- an error of `Get` reads as "not there", and one of `Add` is logged
  abbrev pub enrol_missing : PartnerConfig → Result Partner → Exec World Unit
  enrol_missing pc (ok p) = pure tt
  enrol_missing pc (err e) = read_key pc.key_file >>= λ pem.
      attempt (on_partners (add env now (configured_partner pc pem))) >> pure tt

  unfoldable pub enrol : PartnerConfig → Exec World Unit
  unfolding read_key configured_partner
  enrol pc =
      if pc.id == ""
      then pure tt
      else attempt (on_partners (get pc.id)) >>= λ existing. enrol_missing pc existing

  unfoldable pub bootstrap_partners : List PartnerConfig → Exec World Unit
  unfolding enrol
  bootstrap_partners [] = pure tt
  bootstrap_partners (pc ∷ rest) = enrol pc >> bootstrap_partners rest
