-- ===== src/Pull.antt =====
-- voucher_pull_store.go: vouchers that are served to the keys that own them.
pub mod Laws
pub mod Page
use go_fdo_voucher_managemen.Prelude.{
  ℕ, suc, String, Bool, true, false, ◌&&◌, not, Option, none, some, List, [], ◌∷◌, filter, take,
  length, any, ltb, leb, ◌==◌, if◌then◌else◌,
}
use go_fdo_voucher_managemen.Prelude.Int.{ℤ, pos}
use go_fdo_voucher_managemen.Backend.{
  Error, rejected, Result, ok, err, Exec, pure, raise, attempt, ◌>>=◌, ◌>>◌,
}
use go_fdo_voucher_managemen.Disk.{read_file, remove_file}
use go_fdo_voucher_managemen.Environment.{Environment}
use go_fdo_voucher_managemen.FileStore.{VoucherFileStore, file_path_for_guid, save_voucher}
use go_fdo_voucher_managemen.Transmission.{VoucherTransmissionRecord, limit_or}
use go_fdo_voucher_managemen.Transmission.Store.{fetch_latest_by_guid, list_transmissions}
use go_fdo_voucher_managemen.Transmission.Grants.{has_access_by_guid, list_by_access_grant}
use go_fdo_voucher_managemen.World.{World, on_tables, on_disk, answer}

-- transfer.VoucherData, less the serial number, which is always empty
pub record VoucherData (V : Type 0) : Type 0 where
  pub guid : String
  pub device_info : String
  pub voucher : V
  pub raw : String

missing_voucher : {A : Type 0} → Exec World A
missing_voucher = raise (rejected "voucher not found")

module _ (env : Environment) (s : VoucherFileStore) where
  unfoldable pub load_voucher_from_file : String → String → Exec World (VoucherData env.Voucher)
  load_voucher_from_file path guid = do
    text ← on_disk (read_file path)
    ov ← answer (env.parse_voucher text)
    raw ← answer (env.cbor_marshal ov)
    pure (record { guid = guid; device_info = env.device_info ov; voucher = ov; raw = raw })

  unfoldable pub load : String → Exec World (VoucherData env.Voucher)
  unfolding load_voucher_from_file missing_voucher
  load guid =
      let path = file_path_for_guid s guid in
      if path == "" then missing_voucher else load_voucher_from_file path guid

  -- `data` or its voucher may be nil
  unfoldable pub save : Option env.Voucher → Exec World String
  save none = raise (rejected "voucher data is nil")
  save (some ov) = on_disk (save_voucher env s (some ov))

  abbrev pub check_access : Result Bool → Exec World Unit
  check_access (err e) = raise (rejected "voucher not found")
  check_access (ok has) = if has then pure tt else raise (rejected "voucher not found")

  -- the newest record of the voucher belongs to the key, or the key has a grant
  unfoldable pub check_latest : String → String → Result VoucherTransmissionRecord → Exec World Unit
  check_latest fp guid (err e) = raise (rejected "voucher not found")
  check_latest fp guid (ok rec) =
      if rec.owner_key_fingerprint == fp
      then pure tt
      else attempt (on_tables (has_access_by_guid guid fp)) >>= λ access. check_access access

  -- the key's fingerprint in hexadecimal, or `none` where there is no key
  unfoldable pub get_voucher : Option String → String → Exec World (VoucherData env.Voucher)
  unfolding check_latest load
  get_voucher none guid = load guid
  get_voucher (some fp) guid =
      (attempt (on_tables (fetch_latest_by_guid guid)) >>= λ found. check_latest fp guid found)
      >> load guid

  unfoldable pub remove : String → Exec World Unit
  remove guid =
      let path = file_path_for_guid s guid in
      if path == "" then raise (rejected "voucher not found") else on_disk (remove_file path)

-- transfer.ListFilter and transfer.VoucherInfo, as far as they are used
pub record ListFilter : Type 0 where
  pub limit : ℤ
  pub since : Option ℕ
  pub until : Option ℕ

pub record VoucherInfo : Type 0 where
  pub guid : String
  pub serial_number : String
  pub model_number : String
  pub created_at : ℕ

-- The continuation is the time that the token formats, or `none` for the empty token.
pub record VoucherListResponse : Type 0 where
  pub vouchers : List VoucherInfo
  pub continuation : Option ℕ
  pub has_more : Bool
  pub total_count : ℕ

abbrev pub not_before : Option ℕ → ℕ → Bool
not_before none t = true
not_before (some since) t = leb since t

abbrev pub not_after : Option ℕ → ℕ → Bool
not_after none t = true
not_after (some until) t = leb t until

unfoldable pub in_window : ListFilter → VoucherTransmissionRecord → Bool
in_window f rec = not_before f.since rec.created_at && not_after f.until rec.created_at

unfoldable pub info : VoucherTransmissionRecord → VoucherInfo
info rec = record {
  guid = rec.voucher_guid;
  serial_number = rec.serial_number;
  model_number = rec.model_number;
  created_at = rec.created_at;
}

-- the first record of each GUID; the list has the GUIDs that were seen
unfoldable pub deduplicate : List String → List VoucherTransmissionRecord → List VoucherInfo
unfolding info
deduplicate seen [] = []
deduplicate seen (rec ∷ records) =
    let skipped = deduplicate seen records in
    let kept = deduplicate (rec.voucher_guid ∷ seen) records in
    if any (λ g. g == rec.voucher_guid) seen then skipped else info rec ∷ kept

abbrev pub last_created : List VoucherTransmissionRecord → Option ℕ
last_created [] = none
last_created (rec ∷ []) = some rec.created_at
last_created (rec ∷ next ∷ records) = last_created (next ∷ records)

unfoldable pub respond : ListFilter → List VoucherTransmissionRecord → VoucherListResponse
unfolding in_window deduplicate
respond f records =
    let query_limit = limit_or 50 f.limit in
    let filtered = filter (in_window f) records in
    let has_more = ltb query_limit (length filtered) in
    let page = if has_more then take query_limit filtered else filtered in
    let vouchers = deduplicate [] page in
    record {
      vouchers = vouchers;
      continuation = if has_more then last_created page else none;
      has_more = has_more;
      total_count = length vouchers;
    }

abbrev pub select_records : Option String → ℕ → Exec World (List VoucherTransmissionRecord)
select_records none limit = on_tables (list_transmissions "" "" (pos limit))
select_records (some fp) limit = on_tables (list_by_access_grant fp (pos limit))

unfoldable pub list_vouchers : Option String → ListFilter → Exec World VoucherListResponse
unfolding respond
list_vouchers fp f = do
  records ← select_records fp (suc (limit_or 50 f.limit))
  pure (respond f records)
