-- ===== src/FileStore.antt =====
-- voucher_file_store.go: vouchers kept as files. The directory is one that path/filepath leaves as it
-- is, and not the root, so that a path is the directory, a slash and the name.
pub mod Laws
use Prim.Native.String.{◌++◌}
use go_fdo_voucher_managemen.Prelude.{
  String, Bool, true, false, ◌&&◌, ◌||◌, Option, none, some, ◌==◌, if◌then◌else◌,
}
use go_fdo_voucher_managemen.Prelude.Text.{to_lower}
use go_fdo_voucher_managemen.Backend.{
  Error, rejected, Result, ok, err, Exec, Backend, pure, raise, attempt, ◌>>=◌, ◌>>◌, query,
}
use go_fdo_voucher_managemen.Disk.{Files, read_file, write_file, remove_file}
use go_fdo_voucher_managemen.Environment.{Environment}

pub record VoucherFileStore : Type 0 where
  pub directory : String

unfoldable pub new_voucher_file_store : String → VoucherFileStore
new_voucher_file_store directory = record {
  directory = if directory == "" then "data/vouchers" else directory;
}

unfoldable pub file_path_for_guid : VoucherFileStore → String → String
file_path_for_guid s guid =
    if s.directory == "" || guid == "" then "" else s.directory ++ "/" ++ to_lower guid ++ ".fdoov"

-- the copy that an assignment makes of the file
unfoldable pub backup_path : String → String
backup_path path = path ++ ".preassign"

-- os.MkdirAll: no file changes
unfoldable pub make_directory : Exec (Backend Files) Unit
make_directory = query (λ files. tt)

module _ (env : Environment) where
  -- the PEM text goes to the path, which is returned
  unfoldable pub write_voucher : String → Result String → Exec (Backend Files) String
  write_voucher path (err e) = raise e
  write_voucher path (ok text) = write_file path text >> pure path

  unfoldable pub save_voucher : VoucherFileStore → Option env.Voucher → Exec (Backend Files) String
  unfolding write_voucher
  save_voucher s none =
      if s.directory == ""
      then raise (rejected "voucher file store not configured")
      else raise (rejected "voucher cannot be nil")
  save_voucher s (some ov) =
      if s.directory == ""
      then raise (rejected "voucher file store not configured")
      else make_directory
        >> (let path = file_path_for_guid s (env.guid_hex ov) in
            if path == ""
            then raise (rejected "unable to derive voucher path")
            else write_voucher path (env.format_voucher_pem ov))

unfoldable pub backup_voucher : VoucherFileStore → String → Exec (Backend Files) Unit
unfolding backup_path
backup_voucher s guid =
    let path = file_path_for_guid s guid in
    if path == ""
    then raise (rejected "unable to derive voucher path")
    else (do text ← read_file path; write_file (backup_path path) text)

-- a backup that cannot be removed stays
unfoldable pub restore_voucher : VoucherFileStore → String → Exec (Backend Files) Unit
unfolding backup_path
restore_voucher s guid =
    let path = file_path_for_guid s guid in
    if path == "" then raise (rejected "unable to derive voucher path") else (do
      text ← read_file (backup_path path)
      write_file path text
      attempt (remove_file (backup_path path))
      pure tt)
