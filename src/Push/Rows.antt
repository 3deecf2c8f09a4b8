-- ===== src/Push/Rows.antt =====
-- The row that AttemptRecord of voucher_push_service.go touches, whatever fails on the way.
use go_fdo_voucher_managemen.Prelude.{
  ℕ, ◌≡◌, refl, ◌∙◌, ap, String, Bool, true, false, beq, Bool-cases, inl, inr, some, arith,
}
use go_fdo_voucher_managemen.Backend.{Result, ok, err, Exec, Backend, attempt, continue, ◌>>=◌}
use go_fdo_voucher_managemen.Backend.Laws.{command-keeps}
use go_fdo_voucher_managemen.Environment.{Environment}
use go_fdo_voucher_managemen.Transmission.{VoucherTransmissionRecord, Tables}
use go_fdo_voucher_managemen.Transmission.Store.{update_row, attempted, mark_attempt}
use go_fdo_voucher_managemen.Transmission.Store.Rows.{row_at, row_at-update}
use go_fdo_voucher_managemen.World.{World, on_tables}
use go_fdo_voucher_managemen.World.Frames.{KeepsTables, KeepsTables-raise}
use go_fdo_voucher_managemen.Push.{
  VoucherPushService, delete_if_configured, settle, destination_of, attempt_delivery,
  attempt_record,
}
use go_fdo_voucher_managemen.Push.Attempts.{
  push-KeepsTables, delete-ok, is_ready, attempt_record_refused,
}

-- what a fetch by the id `j` would find
abbrev pub seen : ℕ → World → Result VoucherTransmissionRecord
seen j w = row_at j w.tables.content.transmissions

pub record KeepsRow (j : ℕ) {A : Type 0} (m : Exec World A) : Type 0 where
  pub at : (w : World) → seen j (m w).1 ≡ seen j w

module _ {A : Type 0} (j : ℕ) where
  pub KeepsRow-tables : (m : Exec World A) → KeepsTables m → KeepsRow j m
  KeepsRow-tables m k = record {
    at = λ w. ap (λ (b : Backend Tables). row_at j b.content.transmissions) (k.at w);
  }

  pub KeepsRow-attempt : (m : Exec World A) → KeepsRow j m → KeepsRow j (attempt m)
  unfolding attempt
  KeepsRow-attempt m k = record { at = λ w. k.at w }

continue-seen :
    {A B : Type 0} (j : ℕ) (f : A → Exec World B) (r : Result A) (w : World)
    → ((a : A) → KeepsRow j (f a))
    → seen j (continue r f w).1 ≡ seen j w
continue-seen j f (ok a) w k = (k a).at w
continue-seen j f (err e) w k = refl

pub KeepsRow-bind :
    {A B : Type 0} (j : ℕ) (m : Exec World A) (f : A → Exec World B)
    → KeepsRow j m
    → ((a : A) → KeepsRow j (f a))
    → KeepsRow j (m >>= f)
unfolding ◌>>=◌
KeepsRow-bind j m f h k = record { at = λ w. continue-seen j f (m w).0 (m w).1 k ∙ h.at w }

pub KeepsRow-mark :
    (j now id : ℕ) (status : String) (n retry_after : ℕ) (e : String) (delivered : Bool)
    → beq id j ≡ false
    → KeepsRow j (on_tables (mark_attempt now id status n retry_after e delivered))
unfolding on_tables mark_attempt update_row
KeepsRow-mark j now id status n retry_after e delivered h = record {
  at = λ w.
      command-keeps
        (λ (t : Tables). row_at j t.transmissions ≡ row_at j w.tables.content.transmissions)
        (update_row id (attempted now status n retry_after e delivered)) w.tables refl
        (row_at-update id j (attempted now status n retry_after e delivered)
            w.tables.content.transmissions (unfold attempted in (λ r. refl))
          ∙ rw h refl);
}

delete-KeepsRow :
    (j : ℕ) (svc : VoucherPushService) (path : String)
    → KeepsRow j (delete_if_configured svc.config path)
delete-KeepsRow j svc path =
    KeepsRow-tables j _ (record { at = λ w. (delete-ok svc.config path w).1 })

settle-KeepsRow :
    (env : Environment) (svc : VoucherPushService) (now n j : ℕ) (rec : VoucherTransmissionRecord)
    (r : Result (Unit {0}))
    → beq rec.id j ≡ false
    → KeepsRow j (settle env svc.config now n rec r)
unfolding settle
settle-KeepsRow env svc now n j rec (ok u) h =
    KeepsRow-bind j _ _ (KeepsRow-mark j now rec.id _ n 0 "" true h)
      (λ _. delete-KeepsRow j svc rec.file_path)
settle-KeepsRow env svc now n j rec (err e) h =
    KeepsRow-bind j _ _ (KeepsRow-attempt j _ (KeepsRow-mark j now rec.id _ n _ _ false h))
      (λ _. KeepsRow-tables j _ (KeepsTables-raise e))

attempt_delivery-KeepsRow :
    (env : Environment) (svc : VoucherPushService) (now j : ℕ) (rec : VoucherTransmissionRecord)
    → beq rec.id j ≡ false
    → KeepsRow j (attempt_delivery env svc now rec)
unfolding attempt_delivery
attempt_delivery-KeepsRow env svc now j rec h =
    KeepsRow-bind j _ _
      (KeepsRow-attempt j _ (
        KeepsRow-tables j _
          (push-KeepsTables env svc.has_owner_key now (destination_of rec) rec.file_path)))
      (λ r. settle-KeepsRow env svc now _ j rec r h)

-- an attempt on a record leaves the rows of other ids
pub attempt_record-KeepsRow :
    (env : Environment) (svc : VoucherPushService) (now j : ℕ) (rec : VoucherTransmissionRecord)
    → beq rec.id j ≡ false
    → KeepsRow j (attempt_record env svc now (some rec))
unfolding attempt_record
attempt_record-KeepsRow env svc now j rec h = elim (Bool-cases (is_ready svc rec)) [
  | inr e ↦ record { at = λ w. ap (seen j) (attempt_record_refused env svc now rec w e).1 }
  | inl e ↦
      (let ready : attempt_record env svc now (some rec) ≡ attempt_delivery env svc now rec =
          ground arith in
        rw ready (attempt_delivery-KeepsRow env svc now j rec h))
]
