-- ===== src/Push/Attempts.antt =====
-- What one delivery attempt of voucher_push_service.go leaves in the table.
use go_fdo_voucher_managemen.Prelude.{
  ℕ, suc, ◌≡◌, refl, ◌∙◌, ap, inl, inr, String, Bool, true, false, ◌&&◌, ◌||◌, not, none, some, [],
  leb, ◌==◌, Bool-cases, if◌then◌else◌, arith,
}
use go_fdo_voucher_managemen.Backend.{
  Error, rejected, Result, ok, err, raise, attempt, Backend, ◌>>=◌,
}
use go_fdo_voucher_managemen.Backend.Laws.{IsReliable, command_reliable}
use go_fdo_voucher_managemen.Config.{Config}
use go_fdo_voucher_managemen.Destination.{VoucherDestination}
use go_fdo_voucher_managemen.Environment.{Environment}
use go_fdo_voucher_managemen.Transmission.{
  VoucherTransmissionRecord, Tables, null_time, transmission_status_pending,
  transmission_status_succeeded, transmission_status_failed,
}
use go_fdo_voucher_managemen.Transmission.Store.{update_row, attempted, mark_attempt}
use go_fdo_voucher_managemen.World.{World, on_tables, on_disk}
use go_fdo_voucher_managemen.World.Frames.{KeepsTables, frames}
use go_fdo_voucher_managemen.Push.Client.{store_token, get_or_refresh_token, push_token, push}
use go_fdo_voucher_managemen.Push.{
  VoucherPushService, max_attempts, is_permanent, error_text, backoff, add_time, after_failure,
  delete_if_configured, settle, destination_of, attempt_delivery, attempt_record,
}

abbrev Row : Type 0
Row = VoucherTransmissionRecord

get_or_refresh_token-KeepsTables :
    (env : Environment) (now : ℕ) (url : String) → KeepsTables (get_or_refresh_token env now url)
unfolding get_or_refresh_token store_token
get_or_refresh_token-KeepsTables env now url = record { at = λ w. ground arith }

-- a push reads a file and calls out: the table is as before
pub push-KeepsTables :
    (env : Environment) (has : Bool) (now : ℕ) (d : VoucherDestination) (path : String)
    → KeepsTables (push env has now d path)
unfolding push push_token
push-KeepsTables env has now d path = search (frames, get_or_refresh_token-KeepsTables) depth 14

-- Whether the row leaves the retry queue after the failure `e` of its attempt number `n`.
abbrev pub gives_up : Config → ℕ → Error → Bool
gives_up cfg n e = is_permanent e || leb (max_attempts cfg) n

-- What an attempt on `rec` with this outcome is to make of the row `r`.
abbrev pub recorded : Environment → Config → ℕ → Row → Result (Unit {0}) → Row → Row
recorded env cfg now rec (ok _) r = record r {
  status = transmission_status_succeeded;
  attempts = suc rec.attempts;
  last_error = "";
  updated_at = now;
  last_attempt_at = some now;
  delivered_at = some now;
  retry_after = none;
}
recorded env cfg now rec (err e) r = record r {
  status =
      if gives_up cfg (suc rec.attempts) e
      then transmission_status_failed
      else transmission_status_pending;
  attempts = suc rec.attempts;
  last_error = error_text e;
  updated_at = now;
  last_attempt_at = some now;
  retry_after =
      if gives_up cfg (suc rec.attempts) e
      then none
      else null_time (add_time now (backoff env cfg now (suc rec.attempts) e));
}

pub delete-ok :
    (cfg : Config) (path : String) (w : World)
    → ((delete_if_configured cfg path w).0 ≡ ok tt)
      × ((delete_if_configured cfg path w).1.tables ≡ w.tables)
unfolding delete_if_configured ◌>>=◌ on_disk
delete-ok cfg path w = elim (Bool-cases cfg.push_service.delete_after_success) [
  | inl e ↦ rw e (refl, refl)
  | inr e ↦ rw e (refl, refl)
]

attempted-recorded :
    (env : Environment) (cfg : Config) (now : ℕ) (rec : Row) (e : Error) (r : Row)
    → attempted now
        (after_failure env cfg now (suc rec.attempts) e).0
        (suc rec.attempts)
        (after_failure env cfg now (suc rec.attempts) e).1
        (error_text e)
        false
        r
      ≡ recorded env cfg now rec (err e) r
unfolding attempted after_failure
attempted-recorded env cfg now rec e r = elim (Bool-cases (is_permanent e)) [
  | inl p ↦ rw p refl
  | inr p ↦ rw p (elim (Bool-cases (leb (max_attempts cfg) (suc rec.attempts))) [
    | inl q ↦ rw q refl
    | inr q ↦ rw q refl
  ])
]

-- The push's outcome is returned, and one row of the tables is rewritten.
abbrev pub After :
    Environment
    → VoucherPushService
    → ℕ
    → Row
    → Result (Unit {0})
    → Backend Tables
    → Result (Unit {0}) × World
    → Type 0
After env svc now rec r b (got, w) =
    (got ≡ r)
    × (w.tables ≡ record {
      content = update_row rec.id (recorded env svc.config now rec r) b.content;
      outages = [];
    })

marked :
    (now id : ℕ) (status : String) (n retry_after : ℕ) (e : String) (delivered : Bool) (w : World)
    → IsReliable w.tables
    → on_tables (mark_attempt now id status n retry_after e delivered) w ≡ (
      ok tt,
      record w {
        tables = record {
          content = update_row id (attempted now status n retry_after e delivered) w.tables.content;
          outages = [];
        };
      },
    )
unfolding on_tables mark_attempt
marked now id status n retry_after e delivered w h =
    rw
      (command_reliable (update_row id (attempted now status n retry_after e delivered)) w.tables h)
      refl

update-same :
    (id : ℕ) (f g : Row → Row) (t : Tables)
    → ((r : Row) → f r ≡ g r)
    → update_row id f t ≡ update_row id g t
unfolding update_row
update-same id f g t h = ap (λ (k : Row → Row). update_row id k t) (λ i r. h r i)

settle-After :
    (env : Environment) (svc : VoucherPushService) (now : ℕ) (rec : Row) (r : Result (Unit {0}))
    (w : World)
    → IsReliable w.tables
    → After env svc now rec r w.tables (settle env svc.config now (suc rec.attempts) rec r w)
unfolding settle ◌>>=◌
settle-After env svc now rec (ok u) w h =
    let same : update_row rec.id
          (attempted now transmission_status_succeeded (suc rec.attempts) 0 "" true)
          w.tables.content
        ≡ update_row rec.id (recorded env svc.config now rec (ok u)) w.tables.content =
      unfold attempted in refl in
    rw (marked now rec.id transmission_status_succeeded (suc rec.attempts) 0 "" true w h) (
      (delete-ok svc.config rec.file_path _).0,
      (delete-ok svc.config rec.file_path _).1
          ∙ ap (λ t. record { content = t; outages = [] }) same,
    )
settle-After env svc now rec (err e) w h =
    rw
      (marked now rec.id (after_failure env svc.config now (suc rec.attempts) e).0
        (suc rec.attempts) (after_failure env svc.config now (suc rec.attempts) e).1 (error_text e)
        false w h)
      (
        refl,
        ap (λ t. record { content = t; outages = [] })
            (update-same rec.id _ _ w.tables.content (attempted-recorded env svc.config now rec e)),
      )

-- With tables that do not fail, a client, a store, a voucher file and a destination URL,
-- AttemptRecord returns what the push returned, and rewrites the row with the record's id, and no
-- other, as `recorded` states: delivered; or failed for good, where the error is permanent or the
-- attempts are used up; or pending, with the retry time of the backoff.
pub attempt_record-recorded :
    (env : Environment) (svc : VoucherPushService) (now : ℕ) (rec : Row) (w : World)
    → IsReliable w.tables
    → svc.has_client ≡ true
    → svc.has_store ≡ true
    → (rec.file_path == "") ≡ false
    → (rec.destination_url == "") ≡ false
    → After env svc now rec
        (push env svc.has_owner_key now (destination_of rec) rec.file_path w).0
        w.tables
        (attempt_record env svc now (some rec) w)
unfolding attempt_record attempt_delivery ◌>>=◌ attempt
attempt_record-recorded env svc now rec w h client store path url =
    rw (client, store, path, url)
      (pushed _ _
        ((push-KeepsTables env svc.has_owner_key now (destination_of rec) rec.file_path).at w))
  where
    pushed :
        (r : Result (Unit {0})) (w' : World)
        → w'.tables ≡ w.tables
        → After env svc now rec r w.tables (settle env svc.config now (suc rec.attempts) rec r w')
    pushed r w' e = rw (← e) (settle-After env svc now rec r w' (rw e h))

-- what AttemptRecord asks for before it tries
abbrev pub is_ready : VoucherPushService → Row → Bool
is_ready svc rec =
    svc.has_client && svc.has_store && not (rec.file_path == "") && not (rec.destination_url == "")

-- AttemptRecord of a record that is not ready (no client, no store, no voucher file or no
-- destination URL) returns an error and changes nothing: the row stays as it is, its retry time too.
pub attempt_record_refused :
    (env : Environment) (svc : VoucherPushService) (now : ℕ) (rec : Row) (w : World)
    → is_ready svc rec ≡ false
    → ((text : String) × ((attempt_record env svc now (some rec) w).0 ≡ err (rejected text)))
      × ((attempt_record env svc now (some rec) w).1 ≡ w)
unfolding attempt_record raise
attempt_record_refused env svc now rec w h = elim (Bool-cases svc.has_client) [
  | inr e ↦ rw e ((_, refl), refl)
  | inl e ↦ (elim (Bool-cases svc.has_store) [
    | inr f ↦ rw (e, f) ((_, refl), refl)
    | inl f ↦ (elim (Bool-cases (rec.file_path == "")) [
      | inl p ↦ rw (e, f, p) ((_, refl), refl)
      | inr p ↦ (elim (Bool-cases (rec.destination_url == "")) [
        | inl u ↦ rw (e, f, p, u) ((_, refl), refl)
        | inr u ↦ absurd (ground arith)
      ])
    ])
  ])
]
