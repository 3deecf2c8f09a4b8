-- ===== src/Receiver/EndToEnd.antt =====
-- From an upload (voucher_receiver_handler.go) to the row of the voucher (voucher_pipeline.go).
use mathlib.Core.Path.{subst}
use go_fdo_voucher_managemen.Prelude.{
  ℕ, ◌≡◌, refl, sym, ◌∙◌, ap, String, true, false, Option, none, some, ◌==◌, arith,
}
use go_fdo_voucher_managemen.Backend.{Result, ok, err, Exec, pure, attempt, continue, ◌>>=◌, ◌>>◌}
use go_fdo_voucher_managemen.Backend.Laws.{IsReliable}
use go_fdo_voucher_managemen.Config.{Config}
use go_fdo_voucher_managemen.Environment.{Environment}
use go_fdo_voucher_managemen.FileStore.{file_path_for_guid}
use go_fdo_voucher_managemen.Pipeline.{
  VoucherPipeline, Received, next_owner, owner_fingerprint, process_voucher,
}
use go_fdo_voucher_managemen.Pipeline.Laws.{Kept, process_voucher-Kept}
use go_fdo_voucher_managemen.Push.{VoucherPushService}
use go_fdo_voucher_managemen.Transmission.Store.Identity.{IsKeyed}
use go_fdo_voucher_managemen.World.{World}
use go_fdo_voucher_managemen.Receiver.{
  Server, on_world, VoucherReceiverHandler, UploadRequest, ReceiverAnswer, failure, accepted,
  received, serve_http,
}
use go_fdo_voucher_managemen.Receiver.Once.{named}
use go_fdo_voucher_managemen.Receiver.Laws.{serve_http-Outcome}
use go_fdo_voucher_managemen.Receiver.Outcome.{Outcome}

module _ (env : Environment) (h : VoucherReceiverHandler) (p : VoucherPipeline) where
  -- the goroutine of an accepted upload, whose error is logged
  abbrev pub run_job : ℕ → ReceiverAnswer env.Voucher → Exec World Unit
  run_job now (failure status message) = pure tt
  run_job now (accepted guid none) = pure tt
  run_job now (accepted guid (some (voucher, v))) =
      attempt (process_voucher env p now voucher v) >> pure tt

  -- an upload, and its goroutine at a later time with nothing in between
  unfoldable pub serve_and_process :
      ℕ → ℕ → UploadRequest → Exec Server (ReceiverAnswer env.Voucher)
  serve_and_process now later r =
      serve_http env h now r >>= λ answer. on_world (run_job later answer) >> pure answer

-- The voucher of the upload has a row, in the world that the job leaves, by what the job found in
-- the one that it started in, whose tables are those from before the upload.
abbrev pub Listed :
    Environment
    → VoucherReceiverHandler
    → VoucherPipeline
    → ℕ
    → String
    → World
    → World
    → World
    → Type 0
Listed env h p later guid before start after =
    (v : Received) × (key : Option env.PublicKey) × (did_url : String) × (v.guid ≡ guid)
    × (v.file_path ≡ file_path_for_guid h.file_store guid)
    × (next_owner env p later v ≡ ok (key, did_url))
    × (start.tables ≡ before.tables)
    × Kept env p later v (owner_fingerprint env p later v.owner_key_fingerprint key) did_url start
        (ok tt, after)

module _ (env : Environment) (h : VoucherReceiverHandler) (p : VoucherPipeline) (cfg : Config)
    (now later : ℕ) (r : UploadRequest) (s : Server)
    (built : (svc : VoucherPushService)
      → p.push_service ≡ some svc
      → (svc.has_client ≡ true) × (svc.has_store ≡ true))
    (set : p.destination_resolver.config ≡ some cfg)
    (owned : (v : Received)
      → (key : Option env.PublicKey) × (did_url : String) × (next_owner env p later v
          ≡ ok (key, did_url))) where
  job-Listed :
      (w : World) (voucher : env.Voucher) (v : Received)
      → w.tables ≡ s.world.tables
      → IsReliable s.world.tables
      → IsKeyed s.world.tables.content
      → (v.file_path == "") ≡ false
      → v.file_path ≡ file_path_for_guid h.file_store v.guid
      → Listed env h p later v.guid s.world w (process_voucher env p later voucher v w).1
  job-Listed w voucher v same rel keyed path at =
      let (key, did_url, is) = owned v in
      let (got, row) =
        process_voucher-Kept env p cfg later voucher v key did_url w (rw same rel) (rw same keyed)
          built set path is in
      (v, key, did_url, refl, at, is, same, (refl, row))

  -- With a disk and tables that do not fail and ids issued by the counter, an accepted upload whose
  -- pipeline is built and finds its next owner, or needs none, has a row once its job has run, for
  -- the accepted GUID and the path that its file was stored under.
  pub serve_and_process-Listed :
      (guid : String) (job : Option (env.Voucher × Received))
      → IsReliable s.world.disk
      → IsReliable s.world.tables
      → IsKeyed s.world.tables.content
      → h.has_pipeline ≡ true
      → (file_path_for_guid h.file_store guid == "") ≡ false
      → (serve_and_process env h p now later r s).0 ≡ ok (accepted guid job)
      → Listed env h p later guid s.world
          (serve_http env h now r s).1.world
          (serve_and_process env h p now later r s).1.world
  unfolding serve_and_process ◌>>=◌ pure attempt on_world
  serve_and_process-Listed guid job disk rel keyed piped path answer =
      go (serve_http env h now r s).0 (serve_http env h now r s).1
        (serve_http-Outcome env h now r s disk) answer
    where
      go :
          (got : Result (ReceiverAnswer env.Voucher)) (after : Server)
          → Outcome env h now r s (got, after)
          → (continue got (λ a. on_world (run_job env h p later a) >> pure a) after).0
            ≡ ok (accepted guid job)
          → Listed env h p later guid s.world after.world
              (continue got (λ a. on_world (run_job env h p later a) >> pure a) after).1.world
      go (err e) after o e' = absurd (cc)
      go (ok (failure status message)) after o e' = absurd (cc)
      go (ok (accepted g none)) after o e' =
          let (a, same) = named env h now r s after g none o in
          absurd (ground (arith, a.answer, piped))
      go (ok (accepted g (some (voucher, v)))) after o e' =
          let (a, same) = named env h now r s after g (some (voucher, v)) o in
          let made : v ≡ received env h now a.checks.form a.checks.voucher =
            ground (arith, a.answer, piped) in
          let this : v.guid ≡ guid = ap (λ x. x.guid) made ∙ same ∙ ground (arith, e') in
          let stored : v.file_path ≡ file_path_for_guid h.file_store v.guid =
            ap (λ x. x.file_path) made
            ∙ ap (λ x. file_path_for_guid h.file_store x.guid) (sym made) in
          subst
            (λ x.
              Listed env h p later x s.world after.world
                (process_voucher env p later voucher v after.world).1)
            this
            (job-Listed after.world voucher v a.unlisted rel keyed (rw (stored, this) path) stored)
