-- ===== src/FileStore/Laws.antt =====
-- The backup and the restoring of a voucher file (voucher_file_store.go).
use Prim.Native.String.{◌++◌}
use text.Mathlib.TextLemmas.{append_cancel_left, append-nil}
use go_fdo_voucher_managemen.Prelude.{
  ◌≡◌, ◌≢◌, refl, sym, ◌∙◌, ap, String, true, false, [], Option, none, some, ◌==◌, eq_iff, eq_refl,
  Bool-cases, inl, inr, if◌then◌else◌, arith,
}
use go_fdo_voucher_managemen.Backend.{Result, ok, err, Backend, pure, raise, attempt, ◌>>=◌}
use go_fdo_voucher_managemen.Backend.Laws.{
  IsReliable, query_reliable, command_reliable, statement_reliable,
}
use go_fdo_voucher_managemen.Disk.{Files, lookup, erase, put, read_file, write_file, remove_file}
use go_fdo_voucher_managemen.Disk.Laws.{lookup-erase, lookup-put}
use go_fdo_voucher_managemen.Environment.{Environment}
use go_fdo_voucher_managemen.FileStore.{
  VoucherFileStore, file_path_for_guid, backup_path, make_directory, write_voucher, save_voucher,
  backup_voucher, restore_voucher,
}

abbrev settled : Files → Backend Files
settled files = record { content = files; outages = [] }

read :
    (path text : String) (b : Backend Files)
    → IsReliable b
    → lookup path b.content ≡ some text
    → read_file path b ≡ (ok text, settled b.content)
unfolding read_file
read path text b rel h = rw (statement_reliable _ b rel) (rw h refl)

write :
    (path text : String) (b : Backend Files)
    → IsReliable b
    → write_file path text b ≡ (ok tt, settled (put path text b.content))
unfolding write_file
write path text b rel = command_reliable (put path text) b rel

remove :
    (path text : String) (b : Backend Files)
    → IsReliable b
    → lookup path b.content ≡ some text
    → remove_file path b ≡ (ok tt, settled (erase path b.content))
unfolding remove_file
remove path text b rel h = rw (statement_reliable _ b rel) (rw h refl)

backup_ne : (path : String) → (path == backup_path path) ≡ false
unfolding backup_path
backup_ne path = ground (arith, eq_iff path (path ++ ".preassign"), longer)
  where
    longer : path ≢ path ++ ".preassign"
    longer h =
        let e : "" ≡ ".preassign" = append_cancel_left path "" ".preassign" (append-nil path ∙ h) in
        let f : true ≡ false = ap (λ x. x == "") e in ground (arith, f)

backed_up :
    (s : VoucherFileStore) (guid text : String) (b : Backend Files)
    → IsReliable b
    → (file_path_for_guid s guid == "") ≡ false
    → lookup (file_path_for_guid s guid) b.content ≡ some text
    → backup_voucher s guid b
      ≡ (ok tt, settled (put (backup_path (file_path_for_guid s guid)) text b.content))
unfolding backup_voucher ◌>>=◌
backed_up s guid text b rel some_path h =
    rw (some_path, read (file_path_for_guid s guid) text b rel h)
      (write _ text (settled b.content) refl)

restored :
    (s : VoucherFileStore) (guid text : String) (b : Backend Files)
    → IsReliable b
    → (file_path_for_guid s guid == "") ≡ false
    → lookup (backup_path (file_path_for_guid s guid)) b.content ≡ some text
    → restore_voucher s guid b ≡ (
      ok tt,
      settled (
          erase
            (backup_path (file_path_for_guid s guid))
            (put (file_path_for_guid s guid) text b.content)),
    )
unfolding restore_voucher ◌>>=◌ attempt pure
restored s guid text b rel some_path h =
    let path = file_path_for_guid s guid in
    let there : lookup (backup_path path) (put path text b.content) ≡ some text =
      lookup-put path (backup_path path) text b.content ∙ rw (backup_ne path) h in
    rw
      (
        some_path,
        read (backup_path path) text b rel h,
        write path text (settled b.content) refl,
        remove (backup_path path) text (settled (put path text b.content)) refl there,
      )
      refl

-- SaveVoucher touches one file
saved :
    (env : Environment) (s : VoucherFileStore) (ov : Option env.Voucher) (path : String)
    (b : Backend Files)
    → IsReliable b
    → ((v : env.Voucher) → ov ≡ some v → file_path_for_guid s (env.guid_hex v) ≡ path)
    → IsReliable (save_voucher env s ov b).1
      × ((q : String)
          → (path == q) ≡ false
          → lookup q (save_voucher env s ov b).1.content ≡ lookup q b.content)
unfolding save_voucher raise ◌>>=◌ write_voucher make_directory pure
saved env s none path b rel at = elim (Bool-cases (s.directory == "")) [
  | inl e ↦ rw e (rel, λ q ne. refl)
  | inr e ↦ rw e (rel, λ q ne. refl)
]
saved env s (some v) path b rel at = elim (Bool-cases (s.directory == "")) [
  | inl e ↦ rw e (rel, λ q ne. refl)
  | inr e ↦ (elim (Bool-cases (file_path_for_guid s (env.guid_hex v) == "")) [
    | inl f ↦ rw (e, query_reliable (λ (files : Files). tt) b rel, f) (refl, λ q ne. refl)
    | inr f ↦
        rw (e, query_reliable (λ (files : Files). tt) b rel, f) (go (env.format_voucher_pem v))
  ])
]
  where
    go :
        (r : Result String)
        → IsReliable
            (write_voucher env (file_path_for_guid s (env.guid_hex v)) r (settled b.content)).1
          × ((q : String)
              → (path == q) ≡ false
              → lookup q
                  (write_voucher env
                    (file_path_for_guid s (env.guid_hex v))
                    r
                    (settled b.content)).1.content
                ≡ lookup q b.content)
    go (err e) = (refl, λ q ne. refl)
    go (ok text) =
        rw (at v refl, write path text (settled b.content) refl)
          (refl, λ q ne. lookup-put path q text b.content ∙ rw ne refl)

-- a file other than the backup, once the path has its text again
same_file :
    (path backup text q : String) (before after : Files)
    → lookup path before ≡ some text
    → ((path == q) ≡ false → lookup q after ≡ lookup q (put backup text before))
    → (if backup == q then none else lookup q (put path text after))
      ≡ (if backup == q then none else lookup q before)
same_file path backup text q before after there kept = elim (Bool-cases (backup == q)) [
  | inl e ↦ rw e refl
  | inr e ↦ rw e (
      lookup-put path q text after ∙ (elim (Bool-cases (path == q)) [
        | inl f ↦
            (let same : path ≡ q = (eq_iff path q).0 f in
              rw f (sym there ∙ ap (λ p. lookup p before) same))
        | inr f ↦ rw f (kept f ∙ lookup-put backup q text before ∙ rw e refl)
      ]))
]

-- On a disk that does not fail, RestoreVoucher after BackupVoucher of a voucher's file and a
-- SaveVoucher to the same path, whether that succeeds or not, succeeds: the file has its text from
-- before the backup, the backup is gone, and the other files are as they were.
pub restore_voucher-backup_voucher :
    (env : Environment) (s : VoucherFileStore) (guid text : String) (ov : Option env.Voucher)
    (b : Backend Files) (q : String)
    → IsReliable b
    → (file_path_for_guid s guid == "") ≡ false
    → lookup (file_path_for_guid s guid) b.content ≡ some text
    → ((v : env.Voucher)
        → ov ≡ some v
        → file_path_for_guid s (env.guid_hex v) ≡ file_path_for_guid s guid)
    → ((restore_voucher s guid (save_voucher env s ov (backup_voucher s guid b).1).1).0 ≡ ok tt)
      × (lookup q
            (restore_voucher s guid (save_voucher env s ov (backup_voucher s guid b).1).1).1.content
          ≡ (if backup_path (file_path_for_guid s guid) == q then none else lookup q b.content))
restore_voucher-backup_voucher env s guid text ov b q rel some_path there at =
    let path = file_path_for_guid s guid in
    rw (backed_up s guid text b rel some_path there) (
      let between = saved env s ov path (settled (put (backup_path path) text b.content)) refl at in
      let kept =
        between.1 (backup_path path) (backup_ne path)
        ∙ lookup-put (backup_path path) (backup_path path) text b.content
        ∙ rw (eq_refl (backup_path path)) refl in
      rw (restored s guid text _ between.0 some_path kept) (
        refl,
        lookup-erase (backup_path path) q _
            ∙ same_file path (backup_path path) text q b.content _ there (between.1 q),
      ))
