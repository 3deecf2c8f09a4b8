-- ===== src/Receiver/Interleaving.antt =====
-- Two uploads that voucher_receiver_handler.go serves at the same time.
use go_fdo_voucher_managemen.Prelude.{
  ℕ, ◌≡◌, refl, sym, ap, ◌∙◌, String, false, none, some, [], eq_refl,
}
use go_fdo_voucher_managemen.Prelude.Int.{ℤ}
use go_fdo_voucher_managemen.Backend.{ok, Backend, pure, attempt, ◌>>=◌}
use go_fdo_voucher_managemen.Backend.Laws.{IsReliable, query_reliable}
use go_fdo_voucher_managemen.Disk.{Files, lookup, is_some, file_exists}
use go_fdo_voucher_managemen.Environment.{Environment}
use go_fdo_voucher_managemen.World.{on_disk}
use go_fdo_voucher_managemen.Receiver.{
  Server, on_world, on_receiver, VoucherReceiverHandler, UploadForm, accepted, pem_data, path_of,
  job_for, after_stat,
}
use go_fdo_voucher_managemen.Receiver.Outcome.{with_file, save_upload_reliable}
use go_fdo_voucher_managemen.Receiver.Once.{file_of}
use go_fdo_voucher_managemen.Receiver.Paths.{lookup-with_file}

module _ (env : Environment) (h : VoucherReceiverHandler) (now : ℕ) where
  -- what follows os.Stat, where it found no file
  stored_upload :
      (form : UploadForm) (size : ℤ) (ip token text : String) (voucher : env.Voucher) (s : Server)
      → IsReliable s.world.disk
      → ((after_stat env h now form size ip token text voucher (ok false) s).0
          ≡ ok (accepted (env.guid_hex voucher) (job_for env h now form voucher)))
        × ((after_stat env h now form size ip token text voucher (ok false) s).1.world.disk
            ≡ record {
              content =
                  with_file (path_of env h now voucher) (pem_data env text) s.world.disk.content;
              outages = [];
            })
  unfolding on_world on_disk on_receiver ◌>>=◌ attempt pure
  stored_upload form size ip token text voucher s rel =
      rw (save_upload_reliable env (path_of env h now voucher) text s.world.disk rel) (refl, refl)

  -- With a disk that does not fail and no file of a GUID, two uploads of it may both ask for the file
  -- before either stores one: both are told that there is none, both are accepted, and the file is
  -- then that of the second.
  pub uploads_race :
      (form1 form2 : UploadForm) (size1 size2 : ℤ) (ip1 ip2 token1 token2 text1 text2 : String)
      (voucher1 voucher2 : env.Voucher) (s : Server)
      → IsReliable s.world.disk
      → file_of env h (env.guid_hex voucher1) s ≡ none
      → env.guid_hex voucher2 ≡ env.guid_hex voucher1
      → (let first = after_stat env h now form1 size1 ip1 token1 text1 voucher1 (ok false) s in
          let second =
            after_stat env h now form2 size2 ip2 token2 text2 voucher2 (ok false) first.1 in
          ((file_exists (path_of env h now voucher1) s.world.disk).0 ≡ ok false)
          × ((file_exists (path_of env h now voucher2) s.world.disk).0 ≡ ok false)
          × (first.0 ≡ ok (accepted (env.guid_hex voucher1) (job_for env h now form1 voucher1)))
          × (second.0 ≡ ok (accepted (env.guid_hex voucher1) (job_for env h now form2 voucher2)))
          × (file_of env h (env.guid_hex voucher1) second.1 ≡ some (pem_data env text2)))
  unfolding file_exists
  uploads_race form1 form2 size1 size2 ip1 ip2 token1 token2 text1 text2 voucher1 voucher2 s rel
        free same =
      let first = stored_upload form1 size1 ip1 token1 text1 voucher1 s rel in
      let mid = (after_stat env h now form1 size1 ip1 token1 text1 voucher1 (ok false) s).1 in
      let after = (after_stat env h now form2 size2 ip2 token2 text2 voucher2 (ok false) mid).1 in
      let second =
        stored_upload form2 size2 ip2 token2 text2 voucher2 mid (ap (λ b. b.outages) first.1) in
      (
        missing voucher1 free,
        missing voucher2 (ap (λ g. file_of env h g s) same ∙ free),
        first.0,
        second.0 ∙ ap (λ g. ok (accepted g (job_for env h now form2 voucher2))) same,
        ap (λ g. file_of env h g after) (sym same)
            ∙ ap (λ (b : Backend Files). lookup (path_of env h now voucher2) b.content) second.1
            ∙ lookup-with_file h.file_store (path_of env h now voucher2) (pem_data env text2)
                (env.guid_hex voucher2) mid.world.disk.content
            ∙ rw (eq_refl (path_of env h now voucher2)) refl,
      )
    where
      missing :
          (voucher : env.Voucher)
          → file_of env h (env.guid_hex voucher) s ≡ none
          → (file_exists (path_of env h now voucher) s.world.disk).0 ≡ ok false
      missing voucher gone =
          rw
            (query_reliable (λ (files : Files). is_some (lookup (path_of env h now voucher) files))
              s.world.disk rel)
            (rw gone refl)
