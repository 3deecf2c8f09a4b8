-- ===== src/Listing/Laws.antt =====
-- What a list holds (voucher_list_handler.go), and that it agrees with the status page.
use mathlib.Core.Path.{subst}
use go_fdo_voucher_managemen.Prelude.{
  ℕ, zero, suc, ◌≤◌, ◌≡◌, refl, true, false, Option, List, map, Memᴰ, length, ◌==◌, arith,
}
use mathlib.Core.List.Memᴰ
use go_fdo_voucher_managemen.Prelude.Int.{ℤ, pos}
use go_fdo_voucher_managemen.Backend.{ok, Backend, pure, attempt, ◌>>=◌}
use go_fdo_voucher_managemen.Backend.Laws.{IsReliable}
use go_fdo_voucher_managemen.Environment.{Environment}
use go_fdo_voucher_managemen.Identity.{CallerIdentity, is_global}
use go_fdo_voucher_managemen.Assign.Handler.{authenticate_caller}
use go_fdo_voucher_managemen.Transmission.{VoucherTransmissionRecord, Tables, limit_or}
use go_fdo_voucher_managemen.Transmission.Store.Identity.{IsKeyed}
use go_fdo_voucher_managemen.Transmission.Access.{IsAccessList, list_by_access_grant-IsAccessList}
use go_fdo_voucher_managemen.Status
use go_fdo_voucher_managemen.Status.{StatusAnswer, is_unscoped}
use go_fdo_voucher_managemen.Listing.{
  VoucherListHandler, ListRequest, listed, page_limit, list_item, serve_http,
}

abbrev Row : Type 0
Row = VoucherTransmissionRecord

pub page_limit_bounds : (limit : Option ℤ) → (1 ≤ page_limit limit) × (page_limit limit ≤ 200)
unfolding page_limit
page_limit_bounds limit = ground arith

limit_or_positive : (n : ℕ) → 1 ≤ n → limit_or 50 (pos n) ≡ n
limit_or_positive zero h = absurd (omega arith)
limit_or_positive (suc n) h = refl

-- With no outage and keyed tables, a GET by an identified caller without the global token is
-- answered by the items of a list of its vouchers, newest first and complete, of at most the
-- page's limit, which is at most 200, and their number.
pub serve_http-IsAccessList :
    (env : Environment) (h : VoucherListHandler) (r : ListRequest) (b : Backend Tables)
    (caller : CallerIdentity)
    → IsReliable b
    → IsKeyed b.content
    → (r.method == "GET") ≡ true
    → authenticate_caller h.validate_token r.authorization ≡ ok caller
    → is_global caller.auth_method ≡ false
    → (rows : List VoucherTransmissionRecord) × ((serve_http env h r b).0
        ≡ ok (listed (map (list_item env) rows) (length rows)))
      × IsAccessList caller.fingerprint (page_limit r.limit) b rows
      × (page_limit r.limit ≤ 200)
unfolding serve_http attempt ◌>>=◌ pure
serve_http-IsAccessList env h r b caller rel keyed get known scoped =
    let (rows, got, good) =
      list_by_access_grant-IsAccessList caller.fingerprint (pos (page_limit r.limit)) b rel keyed in
    (
      rows,
      rw (get, known, scoped, got) refl,
      subst (λ n. IsAccessList caller.fingerprint n b rows)
          (limit_or_positive _ (page_limit_bounds r.limit).0) good,
      (page_limit_bounds r.limit).1,
    )
