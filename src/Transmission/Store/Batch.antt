-- ===== src/Transmission/Store/Batch.antt =====
-- The batch that PendingForRetry of voucher_transmission_store.go reads.
use go_fdo_voucher_managemen.Prelude.{
  ℕ, zero, suc, ◌≤◌, ◌<◌, ◌≡◌, refl, ◌⊎◌, ◌↔◌, inl, inr, true, false, Option, none, some, List, [],
  ◌∷◌, Memᴰ, All, All-imp, All-and, All-mem, All-filter, length, All-take, filter-All,
  length-take-le, mem-filter, filter, take, arith, eq_iff,
}
use go_fdo_voucher_managemen.Prelude.Int.{pos}
use go_fdo_voucher_managemen.Prelude.Order.{
  sort_by, IsSorted, sort_by-IsSorted, All-sort_by, mem-sort_by, mem-take_sorted,
}
use go_fdo_voucher_managemen.Backend.{ok, Backend}
use go_fdo_voucher_managemen.Backend.Laws.{query-ok}
use go_fdo_voucher_managemen.Transmission.{VoucherTransmissionRecord, Tables}
use go_fdo_voucher_managemen.Transmission.Store.{
  is_due, is_retriable, by_retry_after, retry_order, select_retriable, pending_for_retry,
}

abbrev Row : Type 0
Row = VoucherTransmissionRecord

-- a row whose delivery is to be tried: pending, with no retry time or one that has come
abbrev pub IsDue : ℕ → Row → Type 0
IsDue now r =
    (r.status ≡ "pending")
    × ((r.retry_after ≡ none) ⊎ ((t : ℕ) × (r.retry_after ≡ some t) × (t ≤ now)))

-- the place of a retry time: first the rows that have none
abbrev pub rank : Option ℕ → ℕ
rank none = 0
rank (some t) = suc t

-- `a` need not come after `b`: an earlier retry time, or the same and not created later
abbrev pub NotAfter : Row → Row → Type 0
NotAfter a b =
    (rank a.retry_after < rank b.retry_after)
    ⊎ ((rank a.retry_after ≡ rank b.retry_after) × (a.created_at ≤ b.created_at))

abbrev pub InOrder : List Row → Type 0
InOrder [] = Unit
InOrder (r ∷ rows) = All (λ q. NotAfter r q) rows × InOrder rows

-- A batch of the retry queue: rows of the table that are due, in the order of their retry times,
-- at most `n`; a row that is due and not in it comes after a full batch.
pub record IsRetryBatch (now n : ℕ) (t : Tables) (rows : List Row) : Type 0 where
  pub due : All (λ r. Memᴰ r t.transmissions × IsDue now r) rows
  pub ordered : InOrder rows
  pub bounded : length rows ≤ n
  pub complete :
      (r : Row)
      → Memᴰ r t.transmissions
      → IsDue now r
      → Memᴰ r rows ⊎ ((length rows ≡ n) × All (λ q. NotAfter q r) rows)

is_due_iff :
    (now : ℕ) (retry_after : Option ℕ)
    → (is_due now retry_after ≡ true)
      ↔ ((retry_after ≡ none) ⊎ ((t : ℕ) × (retry_after ≡ some t) × (t ≤ now)))
is_due_iff now none = (λ h. inl refl, λ h. refl)
is_due_iff now (some t) = (
  λ h. inr (t, refl, ground arith),
  λ h. elim h [ inl e ↦ absurd (cc) | inr (u, e, le) ↦ ground (arith, e) ],
)

is_retriable_iff : (now : ℕ) (r : Row) → (is_retriable now r ≡ true) ↔ IsDue now r
unfolding is_retriable
is_retriable_iff now r = (
  λ h. (
    (eq_iff r.status "pending").0 (ground arith),
    (is_due_iff now r.retry_after).0 (ground arith),
  ),
  λ (pending, when). rw (pending, (is_due_iff now r.retry_after).1 when) refl,
)

by_retry_after_iff :
    (x : Option ℕ) (c : ℕ) (y : Option ℕ) (d : ℕ)
    → (by_retry_after x c y d ≡ true) ↔ ((rank x < rank y) ⊎ ((rank x ≡ rank y) × (c ≤ d)))
by_retry_after_iff none c none d = (λ h. ground arith, λ h. ground arith)
by_retry_after_iff none c (some u) d = (λ h. ground arith, λ h. refl)
by_retry_after_iff (some t) c none d = (λ h. ground arith, λ h. ground arith)
by_retry_after_iff (some t) c (some u) d = (λ h. ground arith, λ h. ground arith)

retry_order_iff : (a b : Row) → (retry_order a b ≡ true) ↔ NotAfter a b
unfolding retry_order
retry_order_iff a b = by_retry_after_iff a.retry_after a.created_at b.retry_after b.created_at

retry_order_total : (a b : Row) → retry_order a b ≡ false → retry_order b a ≡ true
unfolding retry_order
retry_order_total a b h = ground arith

retry_order_trans :
    (a b c : Row) → retry_order a b ≡ true → retry_order b c ≡ true → retry_order a c ≡ true
unfolding retry_order
retry_order_trans a b c h k = ground arith

IsSorted-take :
    (n : ℕ) (rows : List Row) → IsSorted retry_order rows → IsSorted retry_order (take n rows)
IsSorted-take zero rows h = tt
IsSorted-take (suc n) [] h = tt
IsSorted-take (suc n) (r ∷ rows) (low, h) =
    (All-take (λ y. retry_order r y ≡ true) n rows low, IsSorted-take n rows h)

-- the rows of a batch, as the table has them
pub batch-All :
    (now n : ℕ) (t : Tables)
    → All
        (λ r. Memᴰ r t.transmissions × (is_retriable now r ≡ true))
        (select_retriable now (pos n) t)
unfolding select_retriable
batch-All now n t = All-take _ n _ (
    All-sort_by retry_order _ _ (
      All-and _ _ (filter (is_retriable now) t.transmissions)
        (All-filter (λ r. Memᴰ r t.transmissions) (is_retriable now) t.transmissions
          (All-mem t.transmissions))
        (filter-All (is_retriable now) t.transmissions)))

InOrder-IsSorted : (rows : List Row) → IsSorted retry_order rows → InOrder rows
InOrder-IsSorted [] h = tt
InOrder-IsSorted (r ∷ rows) (low, h) =
    (All-imp _ (λ q. NotAfter r q) rows (λ q. (retry_order_iff r q).0) low, InOrder-IsSorted rows h)

-- Where PendingForRetry with a limit n, not negative, succeeds, it returns a batch of the retry
-- queue of at most n rows: rows of the table that are pending and have no retry time or one that has
-- come, in the order of the retry times with none first and of the times of creation where these are
-- equal; and any such row that is left out comes after a batch of n.
pub pending_for_retry-IsRetryBatch :
    (now n : ℕ) (b : Backend Tables) {rows : List Row}
    → (pending_for_retry now (pos n) b).0 ≡ ok rows
    → IsRetryBatch now n b.content rows
unfolding pending_for_retry select_retriable
pending_for_retry-IsRetryBatch now n b {rows} h =
    rw (query-ok (select_retriable now (pos n)) b h) (record {
      due =
          All-imp _ _ _ (λ r k. (k.0, (is_retriable_iff now r).0 k.1))
            (unfold select_retriable in batch-All now n b.content);
      ordered = InOrder-IsSorted (take n sorted) (IsSorted-take n sorted in_order);
      bounded = length-take-le n sorted;
      complete = λ r m e. elim (left_out r m ((is_retriable_iff now r).1 e)) [
        | inl there ↦ inl there
        | inr (full, before) ↦ inr (full, All-imp _ _ _ (λ q. (retry_order_iff q r).0) before)
      ];
    })
  where
    due_rows : List Row
    due_rows = filter (is_retriable now) b.content.transmissions

    sorted : List Row
    sorted = sort_by retry_order due_rows

    in_order : IsSorted retry_order sorted
    in_order = sort_by-IsSorted retry_order retry_order_total retry_order_trans due_rows

    left_out :
        (r : Row)
        → Memᴰ r b.content.transmissions
        → is_retriable now r ≡ true
        → Memᴰ r (take n sorted)
          ⊎ ((length (take n sorted) ≡ n) × All (λ q. retry_order q r ≡ true) (take n sorted))
    left_out r m e = mem-take_sorted retry_order n sorted in_order (
        mem-sort_by retry_order due_rows
          (mem-filter (is_retriable now) b.content.transmissions e m))
