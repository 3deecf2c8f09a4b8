-- ===== src/Pipeline/Laws.antt =====
-- What ProcessVoucher of voucher_pipeline.go leaves in the table.
use go_fdo_voucher_managemen.Prelude.{
  ℕ, suc, ◌≡◌, refl, ◌∙◌, ◌⊎◌, inl, inr, String, true, false, Option, none, some, List, ◌==◌,
  eq_iff, beq_self, Bool-cases,
}
use go_fdo_voucher_managemen.Prelude.Int.{ℤ}
use go_fdo_voucher_managemen.Backend.{Error, Result, ok, err, pure, attempt, ◌>>=◌}
use go_fdo_voucher_managemen.Backend.Laws.{IsReliable}
use go_fdo_voucher_managemen.Config.{Config, VoucherSigningConfig}
use go_fdo_voucher_managemen.Destination.{VoucherDestination, resolve_destination}
use go_fdo_voucher_managemen.Destination.Laws.{resolve_destination-Routed}
use go_fdo_voucher_managemen.Environment.{Environment}
use go_fdo_voucher_managemen.Push.{VoucherPushService, enabled, attempt_record, queued}
use go_fdo_voucher_managemen.Push.Attempts.{recorded, attempt_record-recorded}
use go_fdo_voucher_managemen.Push.Queue.{queued_as, with_row, pushed_to, created, kept}
use go_fdo_voucher_managemen.Services.{VoucherSigningService}
use go_fdo_voucher_managemen.Services.ExtraData.{OveExtraDataService}
use go_fdo_voucher_managemen.Transmission.{VoucherTransmissionRecord}
use go_fdo_voucher_managemen.Transmission.Store.{with_defaults, insert_row}
use go_fdo_voucher_managemen.Transmission.Store.Rows.{row_at, row_at-append}
use go_fdo_voucher_managemen.Transmission.Store.Identity.{IsKeyed, All-ne_next}
use go_fdo_voucher_managemen.Transmission.Store.Queries.{stored}
use go_fdo_voucher_managemen.World.{World, on_partners, answer}
use go_fdo_voucher_managemen.Pipeline.{
  VoucherPipeline, Received, no_destination, next_owner, owner_fingerprint, extra_data, sign_over,
  store_transmission_record, queue_to, by_destination, push_or_store, dispatch, after_owner,
  process_voucher,
}

abbrev Row : Type 0
Row = VoucherTransmissionRecord

sign_over-pure :
    (env : Environment) (p : VoucherPipeline) (now : ℕ) (voucher : env.Voucher)
    (key : Option env.PublicKey) (extra : List (ℤ × String)) (w : World)
    → sign_over env p now voucher key extra w ≡ (ok tt, w)
unfolding sign_over pure ◌>>=◌ attempt answer
sign_over-pure env p now voucher none extra w = refl
sign_over-pure env p now voucher (some key) extra w =
    elim (Bool-cases (p.config.voucher_signing.mode == "")) [
      | inl e ↦ rw e refl
      | inr e ↦ rw e refl
    ]

-- What ProcessVoucher does is decided without the voucher, the signing mode, the signing service and
-- the extra data: whatever these are, its result and all that it leaves behind are the same.
pub process_voucher-unsigned :
    (env : Environment) (p : VoucherPipeline) (now : ℕ) (given other : env.Voucher) (v : Received)
    (signing : VoucherSigningService) (extra : Option OveExtraDataService)
    (mode : VoucherSigningConfig) (w : World)
    → process_voucher env
        (record p {
          config = record p.config { voucher_signing = mode };
          signing_service = signing;
          ove_extra_data_service = extra;
        })
        now
        other
        v
        w
      ≡ process_voucher env p now given v w
unfolding process_voucher next_owner dispatch store_transmission_record queue_to ◌>>=◌
process_voucher-unsigned env p now given other v signing extra mode w = go (next_owner env p now v)
  where
    q : VoucherPipeline
    q = record p {
      config = record p.config { voucher_signing = mode };
      signing_service = signing;
      ove_extra_data_service = extra;
    }

    go :
        (o : Result (Option env.PublicKey × String))
        → after_owner env q now other v o w ≡ after_owner env p now given v o w
    go (err e) = refl
    go (ok (key, url)) =
        rw
          (
            sign_over-pure env p now given key (extra_data env p now v) w,
            sign_over-pure env q now other key (extra_data env q now v) w,
          )
          refl

abbrev next_id : World → ℕ
next_id w = suc w.tables.content.last_transmission_id

abbrev row_for : Received → String → VoucherDestination → Row
row_for v fp d = queued d v.guid v.file_path v.serial v.model fp

-- where the pipeline finds that the voucher is to go, if its push service is there and is enabled
abbrev pub destination :
    Environment
    → VoucherPipeline
    → ℕ
    → Received
    → String
    → String
    → World
    → Result VoucherDestination × World
destination env p now v fp did_url w =
    on_partners
      (resolve_destination env p.destination_resolver now v.serial v.model v.guid did_url fp) w

-- no push service, one that is not enabled, or no destination
abbrev pub IsKeptBack :
    Environment → VoucherPipeline → ℕ → Received → String → String → World → Type 0
IsKeptBack env p now v fp did_url w =
    (p.push_service ≡ none)
    ⊎ ((svc : VoucherPushService) × (p.push_service ≡ some svc)
        × ((enabled svc.config ≡ false)
            ⊎ ((e : Error) × ((destination env p now v fp did_url w).0 ≡ err e))))

-- The row that the voucher is given: one without a destination, as it was created, where it is kept
-- back; and else one with the destination that is found, as the outcome of a push rewrites it, which
-- is made from the state that has the row.
abbrev pub Kept :
    Environment
    → VoucherPipeline
    → ℕ
    → Received
    → String
    → String
    → World
    → Result (Unit {0}) × World
    → Type 0
Kept env p now v fp did_url w (got, after) =
    (got ≡ ok tt)
    × ((IsKeptBack env p now v fp did_url w
          × (row_at (next_id w) after.tables.content.transmissions
              ≡ ok (stored now (next_id w) (row_for v fp no_destination))))
        ⊎ ((svc : VoucherPushService) × (d : VoucherDestination) × (p.push_service ≡ some svc)
            × (enabled svc.config ≡ true)
            × ((destination env p now v fp did_url w).0 ≡ ok d)
            × ((d.url == "") ≡ false)
            × (row_at (next_id w) after.tables.content.transmissions
                ≡ ok (
                    recorded env svc.config now (row_for v fp d)
                      (pushed_to env svc now (row_for v fp d)
                        (destination env p now v fp did_url w).1)
                      (stored now (next_id w) (row_for v fp d))))))

module _ (env : Environment) (p : VoucherPipeline) (now : ℕ) (v : Received) (fp : String) where
  store-row :
      (w : World)
      → IsReliable w.tables
      → IsKeyed w.tables.content
      → ((store_transmission_record env p now v fp w).0 ≡ ok tt)
        × (row_at
              (next_id w)
              (store_transmission_record env p now v fp w).1.tables.content.transmissions
            ≡ ok (stored now (next_id w) (row_for v fp no_destination)))
  unfolding store_transmission_record ◌>>=◌ attempt pure insert_row
  store-row w rel keyed = rw (created now (row_for v fp no_destination) w rel) (
    refl,
    row_at-append (next_id w) (stored now (next_id w) (row_for v fp no_destination))
          w.tables.content.transmissions
          (All-ne_next w.tables.content.last_transmission_id w.tables.content.transmissions
            keyed.issued)
        ∙ rw (beq_self (next_id w)) refl,
  )

  queue-row :
      (svc : VoucherPushService) (d : VoucherDestination) (w : World)
      → IsReliable w.tables
      → IsKeyed w.tables.content
      → svc.has_client ≡ true
      → svc.has_store ≡ true
      → (v.file_path == "") ≡ false
      → (d.url == "") ≡ false
      → ((queue_to env p now svc v fp d w).0 ≡ ok tt)
        × (row_at (next_id w) (queue_to env p now svc v fp d w).1.tables.content.transmissions
            ≡ ok (
                recorded env svc.config now
                  (row_for v fp d)
                  (pushed_to env svc now (row_for v fp d) w)
                  (stored now (next_id w) (row_for v fp d))))
  unfolding queue_to ◌>>=◌ attempt pure with_defaults
  queue-row svc d w rel keyed client store path url = rw (created now (row_for v fp d) w rel) (
      let done =
        attempt_record-recorded env svc now (queued_as now (row_for v fp d) w)
          (with_row now (row_for v fp d) w) refl client store path url in
      (
        refl,
        kept env svc now (row_for v fp d) _ w
            (attempt_record env svc now (some (queued_as now (row_for v fp d) w))
              (with_row now (row_for v fp d) w))
            keyed done,
      ))

  dispatch-Kept :
      (cfg : Config) (did_url : String) (w : World)
      → IsReliable w.tables
      → IsKeyed w.tables.content
      → ((svc : VoucherPushService)
          → p.push_service ≡ some svc
          → (svc.has_client ≡ true) × (svc.has_store ≡ true))
      → p.destination_resolver.config ≡ some cfg
      → (v.file_path == "") ≡ false
      → Kept env p now v fp did_url w (dispatch env p now v fp did_url w)
  unfolding dispatch ◌>>=◌ attempt on_partners
  dispatch-Kept cfg did_url w rel keyed built set path = go p.push_service refl
    where
      resolved : Result VoucherDestination × World
      resolved = destination env p now v fp did_url w

      by :
          (svc : VoucherPushService) (o : Result VoucherDestination)
          → p.push_service ≡ some svc
          → enabled svc.config ≡ true
          → resolved.0 ≡ o
          → Kept env p now v fp did_url w (by_destination env p now svc v fp o resolved.1)
      by svc (err e) is on same =
          let (got, row) = store-row resolved.1 rel keyed in
          (got, inl (inr (svc, is, inr (e, same)), row))
      by svc (ok d) is on same =
          let addressed : (d.url == "") ≡ false = elim (Bool-cases (d.url == "")) [
            | inr e ↦ e
            | inl e ↦ absurd (
                (resolve_destination-Routed env cfg p.destination_resolver now v.serial v.model
                    v.guid did_url fp w.partners {d = d} set same).0
                  ((eq_iff d.url "").0 e))
          ] in
          let (got, row) =
            queue-row svc d resolved.1 rel keyed (built svc is).0 (built svc is).1 path addressed in
          (got, inr (svc, d, is, on, same, addressed, row))

      go :
          (o : Option VoucherPushService)
          → p.push_service ≡ o
          → Kept env p now v fp did_url w (push_or_store env p now v fp did_url o w)
      go none is = let (got, row) = store-row w rel keyed in (got, inl (inl is, row))
      go (some svc) is = elim (Bool-cases (enabled svc.config)) [
        | inl on ↦ rw on (by svc resolved.0 is on refl)
        | inr off ↦
            rw off
              (let (got, row) = store-row w rel keyed in (got, inl (inr (svc, is, inl off), row)))
      ]

-- With tables that do not fail and ids issued by the counter, a pipeline that is built and finds
-- its next owner, or needs none, returns no error and gives the voucher a row under the next id,
-- for the fingerprint of the next owner if there is one and of the voucher's owner if not. Where the
-- push service is enabled and a destination is found, the row has that destination, which is not
-- empty, and the outcome of a push made from the state that has the row; where it is not enabled or
-- no destination is found, the row has none and is as it was created.
pub process_voucher-Kept :
    (env : Environment) (p : VoucherPipeline) (cfg : Config) (now : ℕ) (voucher : env.Voucher)
    (v : Received) (key : Option env.PublicKey) (did_url : String) (w : World)
    → IsReliable w.tables
    → IsKeyed w.tables.content
    → ((svc : VoucherPushService)
        → p.push_service ≡ some svc
        → (svc.has_client ≡ true) × (svc.has_store ≡ true))
    → p.destination_resolver.config ≡ some cfg
    → (v.file_path == "") ≡ false
    → next_owner env p now v ≡ ok (key, did_url)
    → Kept env p now v
        (owner_fingerprint env p now v.owner_key_fingerprint key)
        did_url
        w
        (process_voucher env p now voucher v w)
unfolding process_voucher ◌>>=◌
process_voucher-Kept env p cfg now voucher v key did_url w rel keyed built set path found =
    rw (found, sign_over-pure env p now voucher key (extra_data env p now v) w)
      (dispatch-Kept env p now v (owner_fingerprint env p now v.owner_key_fingerprint key) cfg
        did_url w rel keyed built set path)
