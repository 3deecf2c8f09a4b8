-- ===== src/Receiver/Paths.antt =====
-- The paths that voucher_receiver_handler.go writes to, beside those of the voucher files.
use Prim.Native.String.{String, [], ◌∷◌, ◌++◌}
use Prim.Native.String.append
use go_fdo_voucher_managemen.Prelude.{
  ◌≡◌, refl, ap, sym, ◌∙◌, inl, inr, Bool, true, false, ◌||◌, some, ◌==◌, eq_iff, Bool-cases,
  if◌then◌else◌, false≢true, arith,
}
use go_fdo_voucher_managemen.Prelude.Text.{to_lower}
use go_fdo_voucher_managemen.Disk.{Files, lookup, erase, put}
use go_fdo_voucher_managemen.Disk.Laws.{lookup-put, lookup-erase}
use go_fdo_voucher_managemen.FileStore.{VoucherFileStore, file_path_for_guid}
use go_fdo_voucher_managemen.Receiver.{temp_path}
use go_fdo_voucher_managemen.Receiver.Outcome.{with_file}

-- the text, after a character that was p or not, ends in the letter p
ends_in_p : Bool → String → Bool
ends_in_p last [] = last
ends_in_p last (c ∷ s) = ends_in_p ((c ∷ []) == "p") s

ends_in_p-append :
    (s u : String) (ends : Bool)
    → ((last : Bool) → ends_in_p last u ≡ ends)
    → (last : Bool) → ends_in_p last (s ++ u) ≡ ends
unfolding ends_in_p
ends_in_p-append [] u ends h last = rw (append.nil u) (h last)
ends_in_p-append (c ∷ s) u ends h last =
    rw (append.cons c s u) (ends_in_p-append s u ends h ((c ∷ []) == "p"))

-- a temporary file is not a voucher's
pub temp_path_ne :
    (s : VoucherFileStore) (path guid : String)
    → (temp_path path == file_path_for_guid s guid) ≡ false
unfolding ends_in_p file_path_for_guid
temp_path_ne s path guid = elim (Bool-cases (temp_path path == file_path_for_guid s guid)) [
  | inr e ↦ e
  | inl e ↦
      (let same = (eq_iff (temp_path path) (file_path_for_guid s guid)).0 e in
        absurd (
          false≢true (
            sym (voucher_file (s.directory == "" || guid == ""))
            ∙ ap (ends_in_p false) (sym same)
            ∙ ends_in_p-append path ".tmp" true (λ last. refl) false)))
]
  where
    voucher_file :
        (c : Bool)
        → ends_in_p false (if c then "" else s.directory ++ "/" ++ to_lower guid ++ ".fdoov")
          ≡ false
    voucher_file true = refl
    voucher_file false =
        ends_in_p-append s.directory ("/" ++ to_lower guid ++ ".fdoov") false
          (ends_in_p-append "/" (to_lower guid ++ ".fdoov") false
            (ends_in_p-append (to_lower guid) ".fdoov" false (λ last. refl)))
          false

-- the files under a voucher's path, once an upload is stored
pub lookup-with_file :
    (s : VoucherFileStore) (path text guid : String) (files : Files)
    → lookup (file_path_for_guid s guid) (with_file path text files) ≡ (
        if path == file_path_for_guid s guid
        then some text
        else lookup (file_path_for_guid s guid) files)
lookup-with_file s path text guid files =
    let q = file_path_for_guid s guid in
    ground (
      arith,
      lookup-put path q text (erase (temp_path path) (put (temp_path path) text files)),
      lookup-erase (temp_path path) q (put (temp_path path) text files),
      lookup-put (temp_path path) q text files,
      temp_path_ne s path guid,
    )
