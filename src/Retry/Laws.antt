-- ===== src/Retry/Laws.antt =====
-- What a batch of the retry worker (voucher_retry_worker.go) does to the rows.
use go_fdo_voucher_managemen.Prelude.{
  ℕ, ◌≤◌, ◌≡◌, ◌≢◌, refl, sym, ◌∙◌, ap, Bool, true, false, List, [], ◌∷◌, Memᴰ, All, All-at, beq,
  beq→eq, beq_self, Bool-cases, inl, inr, arith,
}
use mathlib.Core.List.Memᴰ
use go_fdo_voucher_managemen.Prelude.Int.{pos, is_nonpos}
use go_fdo_voucher_managemen.Backend.{Result, ok, err, pure, attempt, ◌>>=◌}
use go_fdo_voucher_managemen.Backend.Laws.{content-query, query-ok}
use go_fdo_voucher_managemen.Config.{Config}
use go_fdo_voucher_managemen.Environment.{Environment}
use go_fdo_voucher_managemen.Transmission.{VoucherTransmissionRecord, Tables}
use go_fdo_voucher_managemen.Transmission.Store.{is_retriable, select_retriable, pending_for_retry}
use go_fdo_voucher_managemen.Transmission.Store.Rows.{row_at, row_at-cons}
use go_fdo_voucher_managemen.Transmission.Store.Batch.{batch-All}
use go_fdo_voucher_managemen.Transmission.Store.Identity.{DistinctIds, IsKeyed}
use go_fdo_voucher_managemen.World.{World, on_tables}
use go_fdo_voucher_managemen.World.Frames.{KeepsTables-pure}
use go_fdo_voucher_managemen.Push.{VoucherPushService}
use go_fdo_voucher_managemen.Push.Attempts.{is_ready, attempt_record_refused}
use go_fdo_voucher_managemen.Push.Rows.{
  seen, KeepsRow, KeepsRow-tables, KeepsRow-attempt, KeepsRow-bind, attempt_record-KeepsRow,
}
use go_fdo_voucher_managemen.Retry.{
  VoucherRetryWorker, clamp_batch, new_voucher_retry_worker, attempt_each, attempt_found,
  process_batch,
}

abbrev Row : Type 0
Row = VoucherTransmissionRecord

-- A new worker has a positive interval, and asks for 5 to 50 rows at a time, whatever the config.
pub new_voucher_retry_worker_bounds :
    (cfg : Config) (has_store : Bool) (svc : VoucherPushService)
    → (is_nonpos (new_voucher_retry_worker cfg has_store svc).interval ≡ false)
      × (5 ≤ (new_voucher_retry_worker cfg has_store svc).batch_size)
      × ((new_voucher_retry_worker cfg has_store svc).batch_size ≤ 50)
unfolding new_voucher_retry_worker clamp_batch
new_voucher_retry_worker_bounds cfg has_store svc = (ground arith, ground arith, ground arith)

row_at-mem : (rows : List Row) {q : Row} → DistinctIds rows → Memᴰ q rows → row_at q.id rows ≡ ok q
unfolding row_at
row_at-mem [] d m = absurd (Memᴰ.not-nil m)
row_at-mem (r ∷ rows) {q} d (Memᴰ.head e) =
    (let same : beq r.id q.id ≡ true = rw e (beq_self r.id) in
      rw same (ap (λ (x : Row). ok x) (sym e)))
row_at-mem (r ∷ rows) {q} (low, d) (Memᴰ.tail m) =
    let apart : r.id ≢ q.id = All-at (λ (s : Row). r.id ≢ s.id) rows low m in
    row_at-cons q.id r rows
    ∙ (let other : beq r.id q.id ≡ false = ground arith in rw other (row_at-mem rows d m))

-- rows of the table that are due do not have the id of a row that is not
batch-apart :
    (now j : ℕ) (t : Tables) {r : Row} (records : List Row)
    → DistinctIds t.transmissions
    → row_at j t.transmissions ≡ ok r
    → is_retriable now r ≡ false
    → All (λ (q : Row). Memᴰ q t.transmissions × (is_retriable now q ≡ true)) records
    → All (λ (q : Row). beq q.id j ≡ false) records
batch-apart now j t [] d at idle h = tt
batch-apart now j t {r} (q ∷ records) d at idle ((m, due), hs) = (
  elim (Bool-cases (beq q.id j)) [
    | inr e ↦ e
    | inl e ↦
        (let same : q.id ≡ j = beq→eq q.id j e in
          let there : row_at j t.transmissions ≡ ok q =
            rw (← same) (row_at-mem t.transmissions d m) in
          let one : ok q ≡ ok r = sym there ∙ at in absurd (ground (arith, one)))
  ],
  batch-apart now j t {r = r} records d at idle hs,
)

attempt_each-KeepsRow :
    (env : Environment) (svc : VoucherPushService) (j : ℕ) (times : List ℕ) (records : List Row)
    → All (λ (q : Row). beq q.id j ≡ false) records
    → KeepsRow j (attempt_each env svc times records)
unfolding attempt_each
attempt_each-KeepsRow env svc j times [] h = KeepsRow-tables j _ (KeepsTables-pure tt)
attempt_each-KeepsRow env svc j [] (rec ∷ records) h = KeepsRow-tables j _ (KeepsTables-pure tt)
attempt_each-KeepsRow env svc j (now ∷ times) (rec ∷ records) (p, h) =
    KeepsRow-bind j _ _ (KeepsRow-attempt j _ (attempt_record-KeepsRow env svc now j rec p))
      (λ _. attempt_each-KeepsRow env svc j times records h)

attempt_each_refused :
    (env : Environment) (svc : VoucherPushService) (times : List ℕ) (records : List Row) (w : World)
    → All (λ q. is_ready svc q ≡ false) records
    → (attempt_each env svc times records w).1 ≡ w
unfolding attempt_each ◌>>=◌ attempt pure
attempt_each_refused env svc times [] w h = refl
attempt_each_refused env svc [] (rec ∷ records) w h = refl
attempt_each_refused env svc (now ∷ times) (rec ∷ records) w (p, h) =
    rw (attempt_record_refused env svc now rec w p).1
      (attempt_each_refused env svc times records w h)

looked :
    (now n : ℕ) (w : World)
    → (on_tables (pending_for_retry now (pos n)) w).1.tables.content ≡ w.tables.content
unfolding on_tables pending_for_retry
looked now n w = content-query (select_retriable now (pos n)) w.tables

found :
    (now n : ℕ) (w : World) (records : List Row)
    → (on_tables (pending_for_retry now (pos n)) w).0 ≡ ok records
    → records ≡ select_retriable now (pos n) w.tables.content
unfolding on_tables pending_for_retry
found now n w records h = query-ok (select_retriable now (pos n)) w.tables h

-- In tables with distinct ids, a batch leaves a row that is not pending, or not due when the batch
-- is read, as it is: whatever the outages of the tables, the disk and the receivers, and wherever
-- the batch is cancelled.
pub process_batch_untouched :
    (env : Environment) (worker : VoucherRetryWorker) (now : ℕ) (times : List ℕ) (w : World) (j : ℕ)
    (r : Row)
    → IsKeyed w.tables.content
    → seen j w ≡ ok r
    → is_retriable now r ≡ false
    → seen j (process_batch env worker (now ∷ times) w).1 ≡ ok r
unfolding process_batch ◌>>=◌ attempt pure
process_batch_untouched env worker now times w j r keyed at idle = go _ _ refl
  where
    t : Tables
    t = w.tables.content

    still :
        {o : Result (List Row)} (w' : World)
        → on_tables (pending_for_retry now (pos worker.batch_size)) w ≡ (o, w')
        → seen j w' ≡ ok r
    still w' h =
        ap (λ (p : Result (List Row) × World). seen j p.1) (sym h)
        ∙ ap (λ (u : Tables). row_at j u.transmissions) (looked now worker.batch_size w)
        ∙ at

    go :
        (o : Result (List Row)) (w' : World)
        → on_tables (pending_for_retry now (pos worker.batch_size)) w ≡ (o, w')
        → seen j (attempt_found env worker.push_service times o w').1 ≡ ok r
    go (err e) w' h = still w' h
    go (ok records) w' h =
        let due = found now worker.batch_size w records (ap (λ p. p.0) h) in
        (attempt_each-KeepsRow env worker.push_service j times records (
            batch-apart now j t {r = r} records keyed.distinct_ids at idle
              (rw due (batch-All now worker.batch_size t)))).at
          w'
        ∙ still w' h

-- a batch of rows that are not ready
batch_starved :
    (env : Environment) (worker : VoucherRetryWorker) (now : ℕ) (times : List ℕ) (w : World)
    → All
        (λ q. is_ready worker.push_service q ≡ false)
        (select_retriable now (pos worker.batch_size) w.tables.content)
    → (process_batch env worker (now ∷ times) w).1.tables.content ≡ w.tables.content
unfolding process_batch ◌>>=◌ attempt pure
batch_starved env worker now times w h = go _ _ refl
  where
    still :
        {o : Result (List Row)} (w' : World)
        → on_tables (pending_for_retry now (pos worker.batch_size)) w ≡ (o, w')
        → w'.tables.content ≡ w.tables.content
    still w' k =
        ap (λ (p : Result (List Row) × World). p.1.tables.content) (sym k)
        ∙ looked now worker.batch_size w

    go :
        (o : Result (List Row)) (w' : World)
        → on_tables (pending_for_retry now (pos worker.batch_size)) w ≡ (o, w')
        → (attempt_found env worker.push_service times o w').1.tables.content ≡ w.tables.content
    go (err e) w' k = still w' k
    go (ok records) w' k =
        let due = found now worker.batch_size w records (ap (λ p. p.0) k) in
        ap (λ (v : World). v.tables.content)
          (attempt_each_refused env worker.push_service times records w' (rw due h))
        ∙ still w' k

-- the ticks of the worker, one batch after the other
abbrev pub process_batches : Environment → VoucherRetryWorker → List (ℕ × List ℕ) → World → World
process_batches env worker [] w = w
process_batches env worker ((now, times) ∷ ticks) w =
    process_batches env worker ticks (process_batch env worker (now ∷ times) w).1

-- Where, at each tick, the first rows of the retry queue as it is at the start, as many as a batch
-- holds, have no destination URL or no voucher file, no tick changes a row: no retry time moves, and
-- the rows that come after them are not delivered, marked or given a retry time either.
pub process_batch_starved :
    (env : Environment) (worker : VoucherRetryWorker) (ticks : List (ℕ × List ℕ)) (w : World)
    → All
        (λ tick.
          All
            (λ q. is_ready worker.push_service q ≡ false)
            (select_retriable tick.0 (pos worker.batch_size) w.tables.content))
        ticks
    → (process_batches env worker ticks w).tables.content ≡ w.tables.content
process_batch_starved env worker [] w h = refl
process_batch_starved env worker ((now, times) ∷ ticks) w (h, hs) =
    let same = batch_starved env worker now times w h in
    process_batch_starved env worker ticks (process_batch env worker (now ∷ times) w).1 (rw same hs)
    ∙ same
