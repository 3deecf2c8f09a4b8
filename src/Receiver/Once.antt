-- ===== src/Receiver/Once.antt =====
-- When voucher_receiver_handler.go replaces a voucher that it stored, or accepts a GUID again.
use go_fdo_voucher_managemen.Prelude.{
  ℕ, ◌≡◌, refl, ◌∙◌, inl, inr, String, Bool, true, false, Option, none, some, List, [], ◌∷◌, any,
  ◌==◌, eq_iff, eq_refl, Bool-cases, if◌then◌else◌, arith,
}
use go_fdo_voucher_managemen.Backend.{Result, ok, err}
use go_fdo_voucher_managemen.Backend.Laws.{IsReliable}
use go_fdo_voucher_managemen.Disk.{lookup}
use go_fdo_voucher_managemen.Environment.{Environment}
use go_fdo_voucher_managemen.FileStore.{file_path_for_guid}
use go_fdo_voucher_managemen.Pipeline.{VoucherPipeline, Received, process_voucher}
use go_fdo_voucher_managemen.Pipeline.Disk.{KeepsFiles, process_voucher-KeepsDisk}
use go_fdo_voucher_managemen.Push.{VoucherPushService}
use go_fdo_voucher_managemen.Receiver.{
  on_world, Server, VoucherReceiverHandler, UploadRequest, ReceiverAnswer, failure, accepted,
  pem_data, path_of, serve_http,
}
use go_fdo_voucher_managemen.Receiver.Laws.{serve_http-Outcome}
use go_fdo_voucher_managemen.Receiver.Outcome.{Accepted, Outcome}
use go_fdo_voucher_managemen.Receiver.Paths.{lookup-with_file}

module _ (env : Environment) (h : VoucherReceiverHandler) where
  -- the file of a GUID
  abbrev pub file_of : String → Server → Option String
  file_of guid s = lookup (file_path_for_guid h.file_store guid) s.world.disk.content

  outcome-file :
      (now : ℕ) (r : UploadRequest) (s : Server) (guid text : String)
      (got : Result (ReceiverAnswer env.Voucher)) (after : Server)
      → Outcome env h now r s (got, after)
      → file_of guid s ≡ some text
      → file_of guid after ≡ some text
  outcome-file now r s guid text got after (inl (status, message, e, disk, t)) h = rw disk h
  outcome-file now r s guid text got after (inr a) there = rw a.saved (
      lookup-with_file h.file_store path (pem_data env a.checks.text) guid s.world.disk.content
      ∙ go (path == file_path_for_guid h.file_store guid) refl)
    where
      path : String
      path = path_of env h now a.checks.voucher

      go :
          (c : Bool)
          → (path == file_path_for_guid h.file_store guid) ≡ c
          → (if c then some (pem_data env a.checks.text) else file_of guid s) ≡ some text
      go false e = there
      go true e =
          let same = (eq_iff path (file_path_for_guid h.file_store guid)).0 e in
          let missing : file_of guid s ≡ none = rw (← same) a.fresh in
          ground (arith, missing, there)

  outcome-reliable :
      (now : ℕ) (r : UploadRequest) (s : Server) (got : Result (ReceiverAnswer env.Voucher))
      (after : Server)
      → IsReliable s.world.disk
      → Outcome env h now r s (got, after)
      → IsReliable after.world.disk
  outcome-reliable now r s got after rel (inl (status, message, e, disk, t)) = rw disk rel
  outcome-reliable now r s got after rel (inr a) = rw a.saved refl

  -- With a disk that does not fail, an upload leaves every voucher file as it was, whatever it is
  -- answered: a file is written only under a GUID that had none.
  pub serve_http-keeps_file :
      (now : ℕ) (r : UploadRequest) (s : Server) (guid text : String)
      → IsReliable s.world.disk
      → file_of guid s ≡ some text
      → file_of guid (serve_http env h now r s).1 ≡ some text
  serve_http-keeps_file now r s guid text rel there =
      outcome-file now r s guid text (serve_http env h now r s).0 (serve_http env h now r s).1
        (serve_http-Outcome env h now r s rel) there

  abbrev pub guids_of : Result (ReceiverAnswer env.Voucher) → List String → List String
  guids_of (ok (accepted guid job)) rest = guid ∷ rest
  guids_of (ok (failure status message)) rest = rest
  guids_of (err e) rest = rest

-- What the receiver does: it serves an upload, or runs a job of the pipeline.
pub data Step (V : Type 0) : Type 0 where
  upload : ℕ → UploadRequest → Step V
  work : ℕ → V → Received → Step V

-- uploads and jobs one after the other, each at its time: the GUIDs that were accepted, in order
abbrev pub accepted_in :
    (env : Environment)
    → VoucherReceiverHandler
    → VoucherPipeline
    → List (Step env.Voucher)
    → Server
    → List String
accepted_in env h p [] s = []
accepted_in env h p (upload now r ∷ rest) s =
    let later = accepted_in env h p rest (serve_http env h now r s).1 in
    guids_of env h (serve_http env h now r s).0 later
accepted_in env h p (work now voucher v ∷ rest) s =
    accepted_in env h p rest (on_world (process_voucher env p now voucher v) s).1

abbrev pub Distinct : List String → Type 0
Distinct [] = Unit
Distinct (g ∷ gs) = (any (λ q. q == g) gs ≡ false) × Distinct gs

module _ (env : Environment) (h : VoucherReceiverHandler) where
  -- the GUID that an answer accepts
  pub named :
      (now : ℕ) (r : UploadRequest) (s after : Server) (guid : String)
      (job : Option (env.Voucher × Received))
      → Outcome env h now r s (ok (accepted guid job), after)
      → (a : Accepted env h now r s (ok (accepted guid job)) after) × (env.guid_hex a.checks.voucher
          ≡ guid)
  named now r s after guid job (inl (status, message, e, disk, t)) = absurd (cc)
  named now r s after guid job (inr a) = (a, ground (arith, a.answer))

  -- it had no file, and has one now
  fresh_guid :
      (now : ℕ) (r : UploadRequest) (s after : Server) (guid : String)
      (job : Option (env.Voucher × Received))
      → Outcome env h now r s (ok (accepted guid job), after)
      → (file_of env h guid s ≡ none) × ((text : String) × (file_of env h guid after ≡ some text))
  fresh_guid now r s after guid job o =
      let (a, same) = named now r s after guid job o in
      let text = pem_data env a.checks.text in
      (
        rw (← same) a.fresh,
        (
          text,
          rw (a.saved, ← same)
              (lookup-with_file h.file_store (path_of env h now a.checks.voucher) text
                  (env.guid_hex a.checks.voucher) s.world.disk.content
                ∙ rw (eq_refl (path_of env h now a.checks.voucher)) refl),
        ),
      )

  not_this :
      (now : ℕ) (r : UploadRequest) (s after : Server) (guid text : String)
      (got : Result (ReceiverAnswer env.Voucher)) (later : List String)
      → Outcome env h now r s (got, after)
      → file_of env h guid s ≡ some text
      → any (λ q. q == guid) later ≡ false
      → any (λ q. q == guid) (guids_of env h got later) ≡ false
  not_this now r s after guid text (err e) later o there rest = rest
  not_this now r s after guid text (ok (failure status message)) later o there rest = rest
  not_this now r s after guid text (ok (accepted g job)) later o there rest =
      elim (Bool-cases (g == guid)) [
        | inr e ↦ ground (arith, e, rest)
        | inl e ↦
            (let same = (eq_iff g guid).0 e in
              let missing : file_of env h guid s ≡ none =
                rw (← same) (fresh_guid now r s after g job o).0 in
              absurd (ground (arith, missing, there)))
      ]

  Distinct-guids_of :
      (now : ℕ) (r : UploadRequest) (s after : Server) (got : Result (ReceiverAnswer env.Voucher))
      (later : List String)
      → Outcome env h now r s (got, after)
      → ((guid text : String)
          → file_of env h guid after ≡ some text
          → any (λ q. q == guid) later ≡ false)
      → Distinct later
      → Distinct (guids_of env h got later)
  Distinct-guids_of now r s after (err e) later o other rest = rest
  Distinct-guids_of now r s after (ok (failure status message)) later o other rest = rest
  Distinct-guids_of now r s after (ok (accepted g job)) later o other rest =
      let (text, there) = (fresh_guid now r s after g job o).1 in (other g text there, rest)

module _ (env : Environment) (h : VoucherReceiverHandler) (p : VoucherPipeline)
    (off : (svc : VoucherPushService) → p.push_service ≡ some svc → KeepsFiles svc.config) where
  job-disk :
      (now : ℕ) (voucher : env.Voucher) (v : Received) (s : Server)
      → IsReliable s.world.disk
      → (on_world (process_voucher env p now voucher v) s).1.world.disk ≡ s.world.disk
  unfolding on_world
  job-disk now voucher v s rel = (process_voucher-KeepsDisk env p now off voucher v).at s.world rel

  -- a GUID that has a file is not accepted
  never_again :
      (steps : List (Step env.Voucher)) (s : Server) (guid text : String)
      → IsReliable s.world.disk
      → file_of env h guid s ≡ some text
      → any (λ q. q == guid) (accepted_in env h p steps s) ≡ false
  never_again [] s guid text rel there = refl
  never_again (upload now r ∷ rest) s guid text rel there =
      not_this env h now r s (serve_http env h now r s).1 guid text (serve_http env h now r s).0 _
        (serve_http-Outcome env h now r s rel) there
        (never_again rest (serve_http env h now r s).1 guid text
          (outcome-reliable env h now r s _ _ rel (serve_http-Outcome env h now r s rel))
          (serve_http-keeps_file env h now r s guid text rel there))
  never_again (work now voucher v ∷ rest) s guid text rel there =
      let same = job-disk now voucher v s rel in
      never_again rest _ guid text (rw same rel) (rw same there)

  -- With a disk that does not fail and a push service, if there is one, that deletes no file, a
  -- sequence of uploads and jobs, in any order and with any vouchers for the jobs, accepts no GUID
  -- twice.
  pub accepted_in-Distinct :
      (steps : List (Step env.Voucher)) (s : Server)
      → IsReliable s.world.disk
      → Distinct (accepted_in env h p steps s)
  accepted_in-Distinct [] s rel = tt
  accepted_in-Distinct (upload now r ∷ rest) s rel =
      let done = serve_http-Outcome env h now r s rel in
      let calm = outcome-reliable env h now r s _ _ rel done in
      Distinct-guids_of env h now r s (serve_http env h now r s).1 (serve_http env h now r s).0 _
        done (λ guid text there. never_again rest _ guid text calm there)
        (accepted_in-Distinct rest _ calm)
  accepted_in-Distinct (work now voucher v ∷ rest) s rel =
      accepted_in-Distinct rest _ (rw (job-disk now voucher v s rel) rel)
