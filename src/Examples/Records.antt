-- ===== src/Examples/Records.antt =====
-- The theorems on the tables' rows, applied to a table of two vouchers.
use go_fdo_voucher_managemen.Prelude.{◌≡◌, refl, true, some, [], ◌∷◌, arith}
use go_fdo_voucher_managemen.Prelude.Int.{pos}
use go_fdo_voucher_managemen.Prelude.Order.{sort_by}
use go_fdo_voucher_managemen.Backend.{ok, query, statement}
use go_fdo_voucher_managemen.Transmission.Store.{is_retriable, select_retriable, pending_for_retry}
use go_fdo_voucher_managemen.Transmission.Store.Identity.{
  IsKeyed, create, grant, attempt, perform_all,
}
use go_fdo_voucher_managemen.Transmission.Store.Consistency.{IsConsistent, perform_all-IsConsistent}
use go_fdo_voucher_managemen.Transmission.Store.Batch.{IsRetryBatch, pending_for_retry-IsRetryBatch}
use go_fdo_voucher_managemen.Examples.{pending_row, assigned_row, tables, store}
use go_fdo_voucher_managemen.Examples

pub tables-IsKeyed : IsKeyed Examples.tables
tables-IsKeyed = record {
  issued = (omega arith, (omega arith, tt));
  distinct_ids = ((λ e. absurd (ground arith), tt), (tt, tt));
  distinct_keys = (tt, tt);
}

tables-IsConsistent : IsConsistent Examples.tables
tables-IsConsistent = record {
  keyed = tables-IsKeyed;
  grants_issued = (omega arith, tt);
  distinct_grants = (tt, tt);
  attempted_first = (λ e. refl, (λ e. refl, tt));
}

perform_all-IsConsistent_example :
    IsConsistent
      (perform_all
        ((8, create (some pending_row))
          ∷ (9, grant Examples.grant)
          ∷ (10, attempt 3 "succeeded" 1 0 "" true)
          ∷ [])
        store).content
perform_all-IsConsistent_example =
    perform_all-IsConsistent
      ((8, create (some pending_row))
        ∷ (9, grant Examples.grant)
        ∷ (10, attempt 3 "succeeded" 1 0 "" true)
        ∷ [])
      store tables-IsConsistent

batch : (pending_for_retry 9 (pos 5) store).0 ≡ ok (pending_row ∷ [])
unfolding pending_for_retry select_retriable is_retriable sort_by query statement
batch = refl

pending_for_retry-IsRetryBatch_example : IsRetryBatch 9 5 tables (pending_row ∷ [])
pending_for_retry-IsRetryBatch_example =
    pending_for_retry-IsRetryBatch 9 5 store {rows = pending_row ∷ []} batch
