-- ===== src/Receiver/Outcome.antt =====
-- What an upload to voucher_receiver_handler.go comes to, step by step, when the disk is there.
use go_fdo_voucher_managemen.Prelude.{
  ℕ, ◌≡◌, refl, sym, ap, ◌⊎◌, inl, inr, String, true, false, Option, none, some, [], eq_refl,
}
use go_fdo_voucher_managemen.Prelude.Int.{ℤ, pos, ltb_ℤ}
use go_fdo_voucher_managemen.Backend.{Result, ok, Backend, pure, attempt, ◌>>=◌}
use go_fdo_voucher_managemen.Backend.Laws.{
  IsReliable, query_reliable, command_reliable, statement_reliable,
}
use go_fdo_voucher_managemen.Disk.{
  Files, lookup, erase, put, is_some, file_exists, write_file, rename_file,
}
use go_fdo_voucher_managemen.Disk.Laws.{lookup-put}
use go_fdo_voucher_managemen.Environment.{Environment}
use go_fdo_voucher_managemen.FileStore.{make_directory}
use go_fdo_voucher_managemen.Partner.{PartnerTable, is_trusted_supplier}
use go_fdo_voucher_managemen.Tokens.{ReceiverTables}
use go_fdo_voucher_managemen.World.{on_disk}
use go_fdo_voucher_managemen.Receiver.{
  Server, on_world, on_receiver, max_voucher_size, VoucherReceiverHandler, UploadedFile, UploadForm,
  UploadRequest, ReceiverAnswer, failure, accepted, auth_ok, authenticate, pem_data, temp_path,
  save_upload, path_of, job_for, after_stat, store_voucher,
}

abbrev settled : Files → Backend Files
settled files = record { content = files; outages = [] }

-- the files once the temporary file has taken its place
abbrev pub with_file : String → String → Files → Files
with_file path text files = put path text (erase (temp_path path) (put (temp_path path) text files))

renamed :
    (from to text : String) (b : Backend Files)
    → IsReliable b
    → lookup from b.content ≡ some text
    → rename_file from to b ≡ (ok tt, settled (put to text (erase from b.content)))
unfolding rename_file
renamed from to text b rel h = rw (statement_reliable _ b rel) (rw h refl)

pub save_upload_reliable :
    (env : Environment) (path text : String) (b : Backend Files)
    → IsReliable b
    → save_upload env path text b ≡ (ok tt, settled (with_file path (pem_data env text) b.content))
unfolding save_upload make_directory write_file ◌>>=◌ attempt pure
save_upload_reliable env path text b rel = rw (query_reliable (λ (files : Files). tt) b rel) (
    rw (command_reliable (put (temp_path path) (pem_data env text)) (settled b.content) refl) (
      rw
        (renamed (temp_path path) path (pem_data env text)
          (settled (put (temp_path path) (pem_data env text) b.content)) refl
          (rw
            (
              lookup-put (temp_path path) (temp_path path) (pem_data env text) b.content,
              eq_refl (temp_path path),
            )
            refl))
        refl))

module _ (env : Environment) (h : VoucherReceiverHandler) (now : ℕ) (r : UploadRequest)
    (s : Server) where
  abbrev Answer : Type 0
  Answer = ReceiverAnswer env.Voucher

  -- What is checked of an upload before it is stored.
  pub record Checked : Type 0 where
    pub form : UploadForm
    pub file : UploadedFile
    pub text : String
    pub voucher : env.Voucher
    pub sent : (r.form ≡ ok form) × (form.file ≡ ok file) × (file.content ≡ ok text)
    pub small : ltb_ℤ (pos max_voucher_size) file.size ≡ false
    pub parsed : env.parse_voucher text ≡ ok voucher
    pub authentic :
        (token : String) × ((authenticate h.config now r.authorization s.receiver).0
          ≡ ok (token, auth_ok))
    pub trusted :
        h.has_partner_store ≡ true
        → h.config.voucher_receiver.require_trusted_manufacturer ≡ true
        → (key : env.PublicKey) × (id : String) × (env.manufacturer_key voucher ≡ ok key)
          × ((is_trusted_supplier env key s.world.partners).0 ≡ ok (id, true))

  -- An accepted upload: it passed the checks, there was no file of its GUID, and there is one now.
  pub record Accepted (got : Result Answer) (after : Server) : Type 0 where
    pub checks : Checked
    pub fresh : lookup (path_of env h now checks.voucher) s.world.disk.content ≡ none
    pub saved :
        after.world.disk
        ≡ settled (
            with_file
              (path_of env h now checks.voucher)
              (pem_data env checks.text)
              s.world.disk.content)
    pub unlisted : after.world.tables ≡ s.world.tables
    pub answer :
        got
        ≡ ok (accepted (env.guid_hex checks.voucher) (job_for env h now checks.form checks.voucher))

  -- a refused one: the voucher files and the rows are as they were
  abbrev pub Refused : Result Answer → Server → Type 0
  Refused got after =
      (status : ℕ) × (message : String) × (got ≡ ok (failure status message))
      × (after.world.disk ≡ s.world.disk)
      × (after.world.tables ≡ s.world.tables)

  abbrev pub Outcome : Result Answer × Server → Type 0
  Outcome (got, after) = Refused got after ⊎ Accepted got after

  -- the state, where only the partners' and the tokens' statements were made
  abbrev pub at : Backend PartnerTable → Backend ReceiverTables → Server
  at q b = record { world = record s.world { partners = q }; receiver = b }

  pub store-Outcome :
      IsReliable s.world.disk
      → (c : Checked) (q : Backend PartnerTable) (b : Backend ReceiverTables) (size : ℤ)
        (ip token : String)
      → Outcome (store_voucher env h now c.form size ip token c.text c.voucher (at q b))
  unfolding store_voucher file_exists on_world on_disk on_receiver ◌>>=◌ attempt pure
  store-Outcome rel c q b size ip token =
      rw (query_reliable (λ (files : Files). is_some (lookup path files)) s.world.disk rel)
        (go (lookup path s.world.disk.content) refl)
    where
      path : String
      path = path_of env h now c.voucher

      calm : Server
      calm = record {
        world = record s.world { partners = q; disk = settled s.world.disk.content };
        receiver = b;
      }

      as_it_was : settled s.world.disk.content ≡ s.world.disk
      as_it_was = ap (λ o. record { content = s.world.disk.content; outages = o }) (sym rel)

      go :
          (o : Option String)
          → lookup path s.world.disk.content ≡ o
          → Outcome
              (after_stat env h now c.form size ip token c.text c.voucher (ok (is_some o)) calm)
      go (some old) e = inl (_, _, refl, as_it_was, refl)
      go none e =
          rw (save_upload_reliable env path c.text (settled s.world.disk.content) refl)
            (inr (record { checks = c; fresh = e; saved = refl; unlisted = refl; answer = refl }))
