-- ===== src/Pipeline/Disk.antt =====
-- Actions that leave a disk that does not fail alone, by the way they are built: the pipeline of
-- voucher_pipeline.go and the push that it makes, where the push deletes no file.
use go_fdo_voucher_managemen.Prelude.{
  ℕ, ◌≡◌, refl, sym, ap, ◌∙◌, String, Bool, true, false, Option, none, some, List, if◌then◌else◌,
  arith,
}
use go_fdo_voucher_managemen.Prelude.Int.{ℤ}
use go_fdo_voucher_managemen.Backend.{
  Error, Result, ok, err, Exec, Backend, pure, raise, attempt, continue, ◌>>=◌,
}
use go_fdo_voucher_managemen.Backend.Laws.{IsReliable, statement_reliable}
use go_fdo_voucher_managemen.Config.{Config}
use go_fdo_voucher_managemen.Destination.{VoucherDestination}
use go_fdo_voucher_managemen.Disk.{read_file}
use go_fdo_voucher_managemen.Environment.{Environment}
use go_fdo_voucher_managemen.Partner.{PartnerTable}
use go_fdo_voucher_managemen.Pipeline.{
  VoucherPipeline, Received, next_owner, extra_data, sign_over, store_transmission_record, queue_to,
  by_destination, push_or_store, dispatch, after_owner, process_voucher,
}
use go_fdo_voucher_managemen.Push.{
  VoucherPushService, delete_if_configured, settle, attempt_delivery, attempt_record, enabled,
}
use go_fdo_voucher_managemen.Push.Client.{store_token, get_or_refresh_token, push_token, push}
use go_fdo_voucher_managemen.Transmission.{VoucherTransmissionRecord, Tables}
use go_fdo_voucher_managemen.World.{World, on_tables, on_disk, on_partners, answer}

pub record KeepsDisk {A : Type 0} (m : Exec World A) : Type 0 where
  pub at : (w : World) → IsReliable w.disk → (m w).1.disk ≡ w.disk

module _ {A : Type 0} where
  KeepsDisk-answer : (r : Result A) → KeepsDisk (answer r)
  unfolding answer
  KeepsDisk-answer r = record { at = λ w h. refl }

  KeepsDisk-pure : (a : A) → KeepsDisk (pure {S = World} a)
  unfolding pure
  KeepsDisk-pure a = record { at = λ w h. refl }

  KeepsDisk-raise : (e : Error) → KeepsDisk (raise {S = World} {A = A} e)
  unfolding raise
  KeepsDisk-raise e = record { at = λ w h. refl }

  KeepsDisk-on_tables : (m : Exec (Backend Tables) A) → KeepsDisk (on_tables m)
  unfolding on_tables
  KeepsDisk-on_tables m = record { at = λ w h. refl }

  KeepsDisk-on_partners : (m : Exec (Backend PartnerTable) A) → KeepsDisk (on_partners m)
  unfolding on_partners
  KeepsDisk-on_partners m = record { at = λ w h. refl }

  KeepsDisk-attempt : (m : Exec World A) → KeepsDisk m → KeepsDisk (attempt m)
  unfolding attempt
  KeepsDisk-attempt m k = record { at = λ w h. k.at w h }

  KeepsDisk-if :
      (b : Bool) (m n : Exec World A) → KeepsDisk m → KeepsDisk n → KeepsDisk (if b then m else n)
  KeepsDisk-if true m n k l = k
  KeepsDisk-if false m n k l = l

KeepsDisk-read_file : (path : String) → KeepsDisk (on_disk (read_file path))
unfolding on_disk read_file
KeepsDisk-read_file path = record {
  at = λ w h.
      rw (statement_reliable _ w.disk h)
        (ap (λ o. record { content = w.disk.content; outages = o }) (sym h));
}

continue-disk :
    {A B : Type 0} (f : A → Exec World B) (r : Result A) (w : World)
    → IsReliable w.disk
    → ((a : A) → KeepsDisk (f a))
    → (continue r f w).1.disk ≡ w.disk
continue-disk f (ok a) w h k = (k a).at w h
continue-disk f (err e) w h k = refl

KeepsDisk-bind :
    {A B : Type 0} (m : Exec World A) (f : A → Exec World B)
    → KeepsDisk m
    → ((a : A) → KeepsDisk (f a))
    → KeepsDisk (m >>= f)
unfolding ◌>>=◌
KeepsDisk-bind m f h k = record {
  at = λ w rel. continue-disk f (m w).0 (m w).1 (rw (h.at w rel) rel) k ∙ h.at w rel;
}

ruleset disk_frames = (
  KeepsDisk-answer, KeepsDisk-pure, KeepsDisk-raise, KeepsDisk-on_tables, KeepsDisk-on_partners,
  KeepsDisk-read_file, KeepsDisk-attempt, KeepsDisk-if, KeepsDisk-bind,
)

get_or_refresh_token-KeepsDisk :
    (env : Environment) (now : ℕ) (url : String) → KeepsDisk (get_or_refresh_token env now url)
unfolding get_or_refresh_token store_token
get_or_refresh_token-KeepsDisk env now url = record { at = λ w h. ground arith }

push-KeepsDisk :
    (env : Environment) (has : Bool) (now : ℕ) (d : VoucherDestination) (path : String)
    → KeepsDisk (push env has now d path)
unfolding push push_token
push-KeepsDisk env has now d path = search (disk_frames, get_or_refresh_token-KeepsDisk) depth 14

-- the push deletes no file
abbrev pub KeepsFiles : Config → Type 0
KeepsFiles cfg = cfg.push_service.delete_after_success ≡ false

delete-KeepsDisk :
    (cfg : Config) (path : String) → KeepsFiles cfg → KeepsDisk (delete_if_configured cfg path)
unfolding delete_if_configured
delete-KeepsDisk cfg path off = rw off (KeepsDisk-pure tt)

settle-KeepsDisk :
    (env : Environment) (cfg : Config) (now n : ℕ) (rec : VoucherTransmissionRecord)
    (r : Result (Unit {0}))
    → KeepsFiles cfg
    → KeepsDisk (settle env cfg now n rec r)
unfolding settle
settle-KeepsDisk env cfg now n rec (ok u) off =
    KeepsDisk-bind _ _ (KeepsDisk-on_tables _) (λ a. delete-KeepsDisk cfg rec.file_path off)
settle-KeepsDisk env cfg now n rec (err e) off =
    KeepsDisk-bind _ _ (KeepsDisk-attempt _ (KeepsDisk-on_tables _)) (λ a. KeepsDisk-raise e)

attempt_record-KeepsDisk :
    (env : Environment) (svc : VoucherPushService) (now : ℕ) (rec : VoucherTransmissionRecord)
    → KeepsFiles svc.config
    → KeepsDisk (attempt_record env svc now (some rec))
unfolding attempt_record attempt_delivery
attempt_record-KeepsDisk env svc now rec off =
    search (disk_frames, push-KeepsDisk, settle-KeepsDisk, off) depth 14

module _ (env : Environment) (p : VoucherPipeline) (now : ℕ)
    (off : (svc : VoucherPushService) → p.push_service ≡ some svc → KeepsFiles svc.config) where
  store-KeepsDisk :
      (v : Received) (fp : String) → KeepsDisk (store_transmission_record env p now v fp)
  unfolding store_transmission_record
  store-KeepsDisk v fp = search disk_frames

  queue_to-KeepsDisk :
      (svc : VoucherPushService) (v : Received) (fp : String) (d : VoucherDestination)
      → p.push_service ≡ some svc
      → KeepsDisk (queue_to env p now svc v fp d)
  unfolding queue_to
  queue_to-KeepsDisk svc v fp d is =
      search (disk_frames, attempt_record-KeepsDisk, off svc is) depth 14

  by_destination-KeepsDisk :
      (svc : VoucherPushService) (v : Received) (fp : String) (o : Result VoucherDestination)
      → p.push_service ≡ some svc
      → KeepsDisk (by_destination env p now svc v fp o)
  by_destination-KeepsDisk svc v fp (err e) is = store-KeepsDisk v fp
  by_destination-KeepsDisk svc v fp (ok d) is = queue_to-KeepsDisk svc v fp d is

  dispatch-KeepsDisk :
      (v : Received) (fp did_url : String) → KeepsDisk (dispatch env p now v fp did_url)
  unfolding dispatch
  dispatch-KeepsDisk v fp did_url = go p.push_service refl
    where
      go :
          (o : Option VoucherPushService)
          → p.push_service ≡ o
          → KeepsDisk (push_or_store env p now v fp did_url o)
      go none is = store-KeepsDisk v fp
      go (some svc) is =
          KeepsDisk-if (enabled svc.config) _ _
            (KeepsDisk-bind _ _ (KeepsDisk-attempt _ (KeepsDisk-on_partners _))
              (λ o. by_destination-KeepsDisk svc v fp o is))
            (store-KeepsDisk v fp)

  sign_over-KeepsDisk :
      (voucher : env.Voucher) (key : Option env.PublicKey) (extra : List (ℤ × String))
      → KeepsDisk (sign_over env p now voucher key extra)
  unfolding sign_over
  sign_over-KeepsDisk voucher none extra = KeepsDisk-pure tt
  sign_over-KeepsDisk voucher (some key) extra = search disk_frames

  -- The job of an upload leaves the disk as it is.
  pub process_voucher-KeepsDisk :
      (voucher : env.Voucher) (v : Received) → KeepsDisk (process_voucher env p now voucher v)
  unfolding process_voucher
  process_voucher-KeepsDisk voucher v = go (next_owner env p now v)
    where
      go :
          (o : Result (Option env.PublicKey × String))
          → KeepsDisk (after_owner env p now voucher v o)
      go (err e) = KeepsDisk-raise e
      go (ok (key, url)) =
          KeepsDisk-bind _ _ (sign_over-KeepsDisk voucher key (extra_data env p now v))
            (λ a. dispatch-KeepsDisk v _ url)
