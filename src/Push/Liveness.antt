-- ===== src/Push/Liveness.antt =====
-- Retries of one row (voucher_push_service.go, voucher_transmission_store.go) come to an end.
use go_fdo_voucher_managemen.Prelude.{
  ℕ, suc, ◌+◌, ◌≤◌, ◌<◌, ◌≡◌, ◌≢◌, ◌⊎◌, refl, ◌∙◌, ap, inl, inr, true, false, some, List, [], ◌∷◌,
  length, filter, beq, beq_self, ◌==◌, Bool-cases, if◌then◌else◌, arith,
}
use go_fdo_voucher_managemen.Prelude.Int.{pos}
use go_fdo_voucher_managemen.Backend.{Result, ok, err, Exec, pure, Backend, ◌>>=◌}
use go_fdo_voucher_managemen.Backend.Laws.{IsReliable, statement_reliable}
use go_fdo_voucher_managemen.Environment.{Environment}
use go_fdo_voucher_managemen.Transmission.{
  VoucherTransmissionRecord, Tables, transmission_status_pending, transmission_status_failed,
}
use go_fdo_voucher_managemen.Transmission.Store.{first_row, fetch_by_id, update_row}
use go_fdo_voucher_managemen.Transmission.Store.Rows.{row_at, row_at-id, row_at-update, map_ok}
use go_fdo_voucher_managemen.World.{World, on_tables}
use go_fdo_voucher_managemen.Push.{VoucherPushService, max_attempts, attempt_record}
use go_fdo_voucher_managemen.Push.Attempts.{
  gives_up, recorded, After, is_ready, attempt_record-recorded,
}

abbrev Row : Type 0
Row = VoucherTransmissionRecord

-- one look at the row, and an attempt where it is pending
unfoldable pub retry_once : Environment → VoucherPushService → ℕ → ℕ → Exec World Unit
retry_once env svc id now = on_tables (fetch_by_id (pos id)) >>= λ rec.
    if rec.status == transmission_status_pending
    then attempt_record env svc now (some rec)
    else pure tt

unfoldable pub retries : Environment → VoucherPushService → ℕ → List ℕ → World → World
unfolding retry_once
retries env svc id [] w = w
retries env svc id (now ∷ times) w = retries env svc id times (retry_once env svc id now w).1

-- the row that a look at `r` leaves, where the push has this outcome
abbrev next : Environment → VoucherPushService → ℕ → Result (Unit {0}) → Row → Row
next env svc now outcome r =
    if r.status == transmission_status_pending then recorded env svc.config now r outcome r else r

abbrev Holds : ℕ → World → Row → Type 0
Holds id w r = IsReliable w.tables × (row_at id w.tables.content.transmissions ≡ ok r)

-- the world once a read has used up the outages that it has not
abbrev quiet : World → World
quiet w = record w { tables = record { content = w.tables.content; outages = [] } }

fetched :
    (n : ℕ) (w : World) {r : Row}
    → Holds (suc n) w r
    → on_tables (fetch_by_id (pos (suc n))) w ≡ (ok r, quiet w)
unfolding on_tables fetch_by_id row_at
fetched n w (rel, at) =
    rw
      (statement_reliable
        (λ (t : Tables). (first_row (filter (λ r. beq r.id (suc n)) t.transmissions), t)) w.tables
        rel)
      (rw at refl)

pub recorded-id :
    (env : Environment) (svc : VoucherPushService) (now : ℕ) (r : Row) (o : Result (Unit {0}))
    (q : Row)
    → (recorded env svc.config now r o q).id ≡ q.id
recorded-id env svc now r (ok _) q = refl
recorded-id env svc now r (err e) q = refl

recorded-ready :
    (env : Environment) (svc : VoucherPushService) (now : ℕ) (r : Row) (o : Result (Unit {0}))
    → is_ready svc (recorded env svc.config now r o r) ≡ is_ready svc r
recorded-ready env svc now r (ok _) = refl
recorded-ready env svc now r (err e) = refl

failed_not_pending : (transmission_status_failed == transmission_status_pending) ≢ true
failed_not_pending h = ground arith

-- an attempt that leaves the row pending has left attempts to make
recorded_pending :
    (env : Environment) (svc : VoucherPushService) (now : ℕ) (r : Row) (o : Result (Unit {0}))
    → ((recorded env svc.config now r o r).status == transmission_status_pending) ≡ true
    → ((recorded env svc.config now r o r).attempts ≡ suc r.attempts)
      × (suc r.attempts < max_attempts svc.config)
recorded_pending env svc now r (ok _) h = ground arith
recorded_pending env svc now r (err e) h =
    elim (Bool-cases (gives_up svc.config (suc r.attempts) e)) [
      | inl g ↦
          (let k : (if gives_up svc.config (suc r.attempts) e
                    then transmission_status_failed
                    else transmission_status_pending)
                  == transmission_status_pending
                ≡ true =
              h in
            absurd (
              failed_not_pending (
                rw
                  (← ap
                    (λ b.
                      (if b then transmission_status_failed else transmission_status_pending)
                      == transmission_status_pending)
                    g)
                  k)))
      | inr g ↦ (refl, ground arith)
    ]

After-Holds :
    (env : Environment) (svc : VoucherPushService) (now id : ℕ) (r : Row) (o : Result (Unit {0}))
    (b : Backend Tables) (out : Result (Unit {0}) × World)
    → row_at id b.content.transmissions ≡ ok r
    → After env svc now r o b out
    → Holds id out.1 (recorded env svc.config now r o r)
unfolding update_row
After-Holds env svc now id r o b (got, w) at (e, t) =
    let same : r.id ≡ id = row_at-id id b.content.transmissions at in
    let found : row_at id w.tables.content.transmissions ≡ (
        if beq id id
        then map_ok (recorded env svc.config now r o) (row_at id b.content.transmissions)
        else row_at id b.content.transmissions) =
      rw (t, same)
        (row_at-update id id (recorded env svc.config now r o) b.content.transmissions
          (recorded-id env svc now r o)) in
    (rw t refl, found ∙ rw (beq_self id, at) refl)

ready-split :
    (svc : VoucherPushService) (r : Row)
    → is_ready svc r ≡ true
    → (svc.has_client ≡ true)
      × (svc.has_store ≡ true)
      × ((r.file_path == "") ≡ false)
      × ((r.destination_url == "") ≡ false)
ready-split svc r h = ground arith

retry_once-Holds :
    (env : Environment) (svc : VoucherPushService) (now n : ℕ) (r : Row) (w : World)
    → Holds (suc n) w r
    → is_ready svc r ≡ true
    → (o : Result (Unit {0})) × Holds
        (suc n)
        (retry_once env svc (suc n) now w).1
        (next env svc now o r)
unfolding retry_once ◌>>=◌ pure
retry_once-Holds env svc now n r w (rel, at) ready =
    rw (fetched n w (rel, at)) (elim (Bool-cases (r.status == transmission_status_pending)) [
      | inr e ↦ (ok tt, rw e (refl, at))
      | inl e ↦
          (let (client, store, path, url) = ready-split svc r ready in
            rw e (
              _,
              After-Holds env svc now (suc n) r _ w.tables
                  (attempt_record env svc now (some r) (quiet w)) at
                  (attempt_record-recorded env svc now r (quiet w) refl client store path url),
            ))
    ])

-- the row is settled, or the looks that are left settle it
abbrev Settling : VoucherPushService → Row → ℕ → Type 0
Settling svc r left =
    ((r.status == transmission_status_pending) ≡ false)
    ⊎ ((0 < left) × (max_attempts svc.config ≤ r.attempts + left))

next-Settling :
    (env : Environment) (svc : VoucherPushService) (now left : ℕ) (r : Row) (o : Result (Unit {0}))
    → Settling svc r (suc left)
    → is_ready svc r ≡ true
    → Settling svc (next env svc now o r) left × (is_ready svc (next env svc now o r) ≡ true)
next-Settling env svc now left r o s ready =
    elim (Bool-cases (r.status == transmission_status_pending)) [
      | inr e ↦ rw e (inl e, ready)
      | inl e ↦ rw e (
        spent e (
            Bool-cases ((recorded env svc.config now r o r).status == transmission_status_pending)),
        recorded-ready env svc now r o ∙ ready,
      )
    ]
  where
    spent :
        ((r.status == transmission_status_pending) ≡ true)
        → (((recorded env svc.config now r o r).status == transmission_status_pending) ≡ true)
          ⊎ (((recorded env svc.config now r o r).status == transmission_status_pending) ≡ false)
        → Settling svc (recorded env svc.config now r o r) left
    spent pending (inr e) = inl e
    spent pending (inl e) = elim s [
      | inl f ↦ absurd (ground arith)
      | inr (some_look, enough) ↦
          (let (a, b) = recorded_pending env svc now r o e in inr (omega arith, rw a (omega arith)))
    ]

retries-Settling :
    (env : Environment) (svc : VoucherPushService) (times : List ℕ) (n : ℕ) (r : Row) (w : World)
    → Holds (suc n) w r
    → is_ready svc r ≡ true
    → Settling svc r (length times)
    → (q : Row) × (row_at (suc n) (retries env svc (suc n) times w).tables.content.transmissions
        ≡ ok q)
      × ((q.status == transmission_status_pending) ≡ false)
unfolding retries
retries-Settling env svc [] n r w (rel, at) ready s =
    (r, at, elim s [ inl e ↦ e | inr (some_look, _) ↦ absurd (omega arith) ])
retries-Settling env svc (now ∷ times) n r w h ready s =
    let (o, h') = retry_once-Holds env svc now n r w h ready in
    let (s', ready') = next-Settling env svc now (length times) r o s ready in
    retries-Settling env svc times n (next env svc now o r) (retry_once env svc (suc n) now w).1 h'
      ready' s'

-- Where the tables do not fail and the row is ready, looks at the row that are at least one, and
-- with its attempts so far at least the attempts allowed, leave a row that is not pending.
pub retries_settle :
    (env : Environment) (svc : VoucherPushService) (times : List ℕ) (n : ℕ) (r : Row) (w : World)
    → IsReliable w.tables
    → row_at (suc n) w.tables.content.transmissions ≡ ok r
    → is_ready svc r ≡ true
    → 0 < length times
    → max_attempts svc.config ≤ r.attempts + length times
    → (q : Row) × (row_at (suc n) (retries env svc (suc n) times w).tables.content.transmissions
        ≡ ok q)
      × ((q.status == transmission_status_pending) ≡ false)
retries_settle env svc times n r w rel at ready some_look enough =
    retries-Settling env svc times n r w (rel, at) ready (inr (some_look, enough))
