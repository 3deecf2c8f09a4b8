-- ===== src/Receiver.antt =====
-- voucher_receiver_handler.go: an upload, from the request to the response and the pipeline's job.
pub mod Headers
pub mod Outcome
pub mod Paths
pub mod Once
pub mod EndToEnd
pub mod Interleaving
pub mod Laws
use Prim.Native.String.{◌++◌}
use go_fdo_voucher_managemen.Prelude.{
  ℕ, suc, ◌*◌, String, Bool, true, false, ◌&&◌, not, Option, none, some, ◌==◌, if◌then◌else◌,
}
use go_fdo_voucher_managemen.Prelude.Int.{ℤ, pos, ltb_ℤ}
use go_fdo_voucher_managemen.Prelude.Text.{split_at_space, contains}
use go_fdo_voucher_managemen.Backend.{
  Error, Result, ok, err, Exec, Backend, pure, raise, attempt, ◌>>=◌, ◌>>◌,
}
use go_fdo_voucher_managemen.Assign.Handler.{bearer}
use go_fdo_voucher_managemen.Config.{Config}
use go_fdo_voucher_managemen.Disk.{Files, write_file, rename_file, remove_file, file_exists}
use go_fdo_voucher_managemen.Environment.{Environment}
use go_fdo_voucher_managemen.FileStore.{VoucherFileStore, file_path_for_guid, make_directory}
use go_fdo_voucher_managemen.Partner.{is_trusted_supplier}
use go_fdo_voucher_managemen.Pipeline.{Received}
use go_fdo_voucher_managemen.Tokens.{ReceiverTables, validate_receiver_token, log_received_voucher}
use go_fdo_voucher_managemen.World.{World, on_disk, on_partners}
use Headers.{get_source_ip}

-- the state of the handler: that of the services, and the tables of the receiver's tokens
pub record Server : Type 0 where
  pub world : World
  pub receiver : Backend ReceiverTables

module _ {A : Type 0} where
  unfoldable pub on_world : Exec World A → Exec Server A
  on_world m s = let (r, w) = m s.world in (r, record s { world = w })

  unfoldable pub on_receiver : Exec (Backend ReceiverTables) A → Exec Server A
  on_receiver m s = let (r, b) = m s.receiver in (r, record s { receiver = b })

abbrev pub max_voucher_size : ℕ
max_voucher_size = 10 * 1024 * 1024

-- A nil pipeline or partner store is a flag.
pub record VoucherReceiverHandler : Type 0 where
  pub config : Config
  pub file_store : VoucherFileStore
  pub has_pipeline : Bool
  pub has_partner_store : Bool

-- the part of the form that is the voucher: its size, and what reading it gives
pub record UploadedFile : Type 0 where
  pub size : ℤ
  pub content : Result String

pub record UploadForm : Type 0 where
  pub file : Result UploadedFile
  pub serial : String
  pub model : String
  pub manufacturer : String

pub record UploadRequest : Type 0 where
  pub method : String
  pub authorization : String  -- a header that is absent is ""
  pub forwarded_for : String
  pub real_ip : String
  pub remote_addr : String
  pub form : Result UploadForm

-- The outcome of a request; an accepted one may start the pipeline on the voucher, later.
pub data ReceiverAnswer (Voucher : Type 0) : Type 0 where
  failure : (status : ℕ) → (message : String) → ReceiverAnswer Voucher
  accepted : (guid : String) → (job : Option (Voucher × Received)) → ReceiverAnswer Voucher

pub data AuthResult : Type 0 where
  auth_ok auth_none auth_invalid : AuthResult

abbrev pub token_answer : String → Result Bool → String × AuthResult
token_answer token (err e) = ("", auth_invalid)
token_answer token (ok true) = (token, auth_ok)
token_answer token (ok false) = ("", auth_invalid)

abbrev pub check_token :
    Config → ℕ → Option String → Exec (Backend ReceiverTables) (String × AuthResult)
check_token cfg now none = pure ("", auth_invalid)
check_token cfg now (some token) =
    if not (cfg.voucher_receiver.global_token == "") && token == cfg.voucher_receiver.global_token
    then pure ("global", auth_ok)
    else attempt (validate_receiver_token now token) >>= λ valid. pure (token_answer token valid)

-- the token that was used, and whether it is good
unfoldable pub authenticate :
    Config → ℕ → String → Exec (Backend ReceiverTables) (String × AuthResult)
unfolding split_at_space
authenticate cfg now header =
    if not cfg.voucher_receiver.require_auth
    then pure ("", auth_ok)
    else if header == ""
    then pure ("", auth_none)
    else check_token cfg now (bearer (split_at_space header))

-- the text of the file: a PEM voucher as it is, any other in PEM
unfoldable pub pem_data : Environment → String → String
pem_data env text =
    if contains text "-----BEGIN OWNERSHIP VOUCHER-----" then text else env.format_cbor_pem text

abbrev pub temp_path : String → String
temp_path path = path ++ ".tmp"

abbrev pub after_rename : String → Result (Unit {0}) → Exec (Backend Files) Unit
after_rename path (ok u) = pure tt
after_rename path (err e) = attempt (remove_file (temp_path path)) >> raise e

-- first to a temporary file, which then takes the voucher's place
unfoldable pub save_upload : Environment → String → String → Exec (Backend Files) Unit
unfolding pem_data
save_upload env path text =
    make_directory
    >> write_file (temp_path path) (pem_data env text)
    >> (attempt (rename_file (temp_path path) path) >>= λ done. after_rename path done)

module _ (env : Environment) (h : VoucherReceiverHandler) (now : ℕ) where
  abbrev Answer : Type 0
  Answer = ReceiverAnswer env.Voucher

  abbrev pub owner_or_empty : Result (Option env.PublicKey) → String
  owner_or_empty (err e) = ""
  owner_or_empty (ok none) = ""
  owner_or_empty (ok (some key)) = env.fingerprint_fdo_hex key

  unfoldable pub extract_owner_key_fingerprint : env.Voucher → String
  extract_owner_key_fingerprint voucher = owner_or_empty (env.owner_public_key voucher)

  abbrev pub path_of : env.Voucher → String
  path_of voucher = file_path_for_guid h.file_store (env.guid_hex voucher)

  abbrev pub received : UploadForm → env.Voucher → Received
  received form voucher = record {
    serial = form.serial;
    model = form.model;
    guid = env.guid_hex voucher;
    file_path = path_of voucher;
    owner_key_fingerprint = extract_owner_key_fingerprint voucher;
  }

  abbrev pub job_for : UploadForm → env.Voucher → Option (env.Voucher × Received)
  job_for form voucher = if h.has_pipeline then some (voucher, received form voucher) else none

  -- an audit entry that cannot be written is logged
  abbrev pub after_save :
      UploadForm → ℤ → String → String → env.Voucher → Result (Unit {0}) → Exec Server Answer
  after_save form size ip token voucher (err e) = pure (failure 500 "failed to save voucher")
  after_save form size ip token voucher (ok u) =
      attempt (
        on_receiver (
          log_received_voucher now (env.guid_hex voucher) form.serial form.model form.manufacturer
            ip token size))
      >> pure (accepted (env.guid_hex voucher) (job_for form voucher))

  -- an error of os.Stat reads as "no such file"
  abbrev pub after_stat :
      UploadForm → ℤ → String → String → String → env.Voucher → Result Bool → Exec Server Answer
  after_stat form size ip token text voucher (ok true) =
      pure (failure 409 "voucher already exists for this device")
  after_stat form size ip token text voucher found =
      attempt (on_world (on_disk (save_upload env (path_of voucher) text))) >>= λ saved.
      after_save form size ip token voucher saved

  unfoldable pub store_voucher :
      UploadForm → ℤ → String → String → String → env.Voucher → Exec Server Answer
  unfolding save_upload extract_owner_key_fingerprint
  store_voucher form size ip token text voucher =
      attempt (on_world (on_disk (file_exists (path_of voucher)))) >>= λ found.
      after_stat form size ip token text voucher found

  abbrev pub after_trust :
      UploadForm → ℤ → String → String → String → env.Voucher → String × Bool → Exec Server Answer
  after_trust form size ip token text voucher (partner, trusted) =
      if not trusted && h.config.voucher_receiver.require_trusted_manufacturer
      then pure (failure 403 "voucher manufacturer key is not trusted")
      else store_voucher form size ip token text voucher

  abbrev pub check_maker :
      UploadForm
      → ℤ
      → String
      → String
      → String
      → env.Voucher
      → Result env.PublicKey
      → Exec Server Answer
  check_maker form size ip token text voucher (err e) =
      pure (failure 400 "failed to extract manufacturer key from voucher")
  check_maker form size ip token text voucher (ok key) =
      on_world (on_partners (is_trusted_supplier env key)) >>= λ trust.
      after_trust form size ip token text voucher trust

  abbrev pub after_parse :
      UploadForm → ℤ → String → String → String → Result env.Voucher → Exec Server Answer
  after_parse form size ip token text (err e) = pure (failure 400 "invalid voucher format")
  after_parse form size ip token text (ok voucher) =
      if h.has_partner_store
      then check_maker form size ip token text voucher (env.manufacturer_key voucher)
      else store_voucher form size ip token text voucher

  abbrev pub after_read : UploadForm → ℤ → String → String → Result String → Exec Server Answer
  after_read form size ip token (err e) = pure (failure 500 "failed to read voucher file")
  after_read form size ip token (ok text) =
      after_parse form size ip token text (env.parse_voucher text)

  abbrev pub after_file : UploadForm → String → String → Result UploadedFile → Exec Server Answer
  after_file form ip token (err e) = pure (failure 400 "voucher file missing")
  after_file form ip token (ok file) =
      if ltb_ℤ (pos max_voucher_size) file.size
      then pure (failure 413 "voucher file exceeds size limit")
      else after_read form file.size ip token file.content

  abbrev pub after_form : String → String → Result UploadForm → Exec Server Answer
  after_form ip token (err e) = pure (failure 400 "failed to parse multipart data")
  after_form ip token (ok form) = after_file form ip token form.file

  abbrev pub after_auth : UploadRequest → String × AuthResult → Exec Server Answer
  after_auth r (token, auth_none) = pure (failure 401 "authentication required")
  after_auth r (token, auth_invalid) = pure (failure 403 "invalid or expired token")
  after_auth r (token, auth_ok) =
      after_form (get_source_ip r.forwarded_for r.real_ip r.remote_addr) token r.form

  unfoldable pub serve_http : UploadRequest → Exec Server Answer
  unfolding authenticate store_voucher get_source_ip
  serve_http r =
      if not (r.method == "POST")
      then pure (failure 405 "method not allowed")
      else on_receiver (authenticate h.config now r.authorization) >>= λ auth. after_auth r auth
