-- ===== src/Status/Laws.antt =====
-- Whom the status of a voucher is shown to (voucher_status_handler.go).
use mathlib.Core.Path.{subst}
use go_fdo_voucher_managemen.Prelude.{
  ◌≡◌, refl, sym, inl, inr, String, Bool, true, false, Option, none, some, List, Memᴰ, All,
  All-filter, All-mem, ◌==◌, eq_refl, Bool-cases,
}
use go_fdo_voucher_managemen.Prelude.Order.{All-sort_by}
use go_fdo_voucher_managemen.Backend.{
  Result, ok, err, Backend, pure, attempt, continue, ◌>>=◌, query,
}
use go_fdo_voucher_managemen.Backend.Laws.{content-query, query-ok}
use go_fdo_voucher_managemen.Environment.{Environment}
use go_fdo_voucher_managemen.Identity.{CallerIdentity}
use go_fdo_voucher_managemen.Transmission.{VoucherTransmissionRecord, Tables}
use go_fdo_voucher_managemen.Transmission.Store.{
  newest_first, first_row, select_serial, fetch_by_serial,
}
use go_fdo_voucher_managemen.Transmission.Access.{may_see}
use go_fdo_voucher_managemen.Transmission.Access.Latest.{
  first-All, latest, latest-content, owner-may_see, access-may_see,
}
use go_fdo_voucher_managemen.Assign.Handler.{authenticate_caller}
use go_fdo_voucher_managemen.Status.{
  VoucherStatusHandler, StatusRequest, VoucherStatusResponse, StatusAnswer, failure, shown,
  build_status_response, identifier_kind, look_up, is_unscoped, after_access, after_look_up,
  serve_kind, serve_caller, serve_http,
}
use go_fdo_voucher_managemen.Status.Paths.{extract_last_path_segment, strip_hyphens}

abbrev Row : Type 0
Row = VoucherTransmissionRecord

abbrev InTable : Tables → Row → Type 0
InTable t r = Memᴰ r t.transmissions

serial-All : (serial : String) (t : Tables) → All (InTable t) (select_serial serial t)
unfolding select_serial
serial-All serial t = All-sort_by newest_first (InTable t) _ (
    All-filter (InTable t) (λ r. r.serial_number == serial) t.transmissions
      (All-mem t.transmissions))

-- a row that is found is one of the table
pub look_up-InTable :
    (is_guid : Bool) (id : String) (b : Backend Tables) {r : Row}
    → (look_up is_guid id b).0 ≡ ok r
    → InTable b.content r
unfolding look_up ◌>>=◌ fetch_by_serial
look_up-InTable true id b h = (latest (strip_hyphens id) b h).0
look_up-InTable false id b {r} h = go (query (select_serial id) b).0 refl h
  where
    go :
        (o : Result (List Row))
        → (query (select_serial id) b).0 ≡ o
        → (continue o (λ rows c. (first_row rows, c)) (query (select_serial id) b).1).0 ≡ ok r
        → InTable b.content r
    go (err e) same k = absurd (cc)
    go (ok rows) same k =
        first-All (InTable b.content) rows
          (subst (All (InTable b.content)) (sym (query-ok (select_serial id) b same))
            (serial-All id b.content))
          k

look_up-content :
    (is_guid : Bool) (id : String) (b : Backend Tables)
    → (look_up is_guid id b).1.content ≡ b.content
unfolding look_up ◌>>=◌ fetch_by_serial
look_up-content true id b = latest-content (strip_hyphens id) b
look_up-content false id b = go (query (select_serial id) b).0 (content-query (select_serial id) b)
  where
    go :
        (o : Result (List Row))
        → (query (select_serial id) b).1.content ≡ b.content
        → (continue o (λ rows c. (first_row rows, c)) (query (select_serial id) b).1).1.content
          ≡ b.content
    go (err e) same = same
    go (ok rows) same = same

pub own-may_see :
    (fp : String) (t : Tables) (r : Row)
    → InTable t r
    → (r.owner_key_fingerprint == fp) ≡ true
    → may_see r.voucher_guid fp t ≡ true
own-may_see fp t r m own = owner-may_see r.voucher_guid fp t r (m, eq_refl r.voucher_guid) own

module _ (env : Environment) (caller : CallerIdentity) where
  abbrev fp : String
  fp = caller.fingerprint

  Seen : StatusAnswer → Tables → Type 0
  Seen (failure status message) t = Unit
  Seen (shown page) t = may_see page.voucher_id fp t ≡ true

  SeenAt : Result StatusAnswer → Tables → Type 0
  unfolding Seen
  SeenAt (err e) t = Unit
  SeenAt (ok a) t = Seen a t

  after_access-Seen :
      (rec : Row) (o : Result Bool) (b : Backend Tables) (t : Tables)
      → InTable t rec
      → (o ≡ ok true → may_see rec.voucher_guid fp t ≡ true)
      → SeenAt (after_access env caller rec o b).0 t
  unfolding SeenAt pure build_status_response
  after_access-Seen rec (err e) b t m granted = tt
  after_access-Seen rec (ok true) b t m granted = granted refl
  after_access-Seen rec (ok false) b t m granted =
      elim (Bool-cases (rec.owner_key_fingerprint == fp)) [
        | inl own ↦ rw own (own-may_see fp t rec m own)
        | inr e ↦ rw e tt
      ]

  after_look_up-Seen :
      is_unscoped caller ≡ false
      → (o : Result Row) (b : Backend Tables) → ((r : Row) → o ≡ ok r → InTable b.content r)
      → SeenAt (after_look_up env caller o b).0 b.content
  unfolding SeenAt pure ◌>>=◌ attempt
  after_look_up-Seen scoped (err e) b known = tt
  after_look_up-Seen scoped (ok rec) b known = rw scoped (
      after_access-Seen rec _ _ b.content (known rec refl)
        (λ e. access-may_see rec.voucher_guid fp b e))

  serve_caller-Seen :
      is_unscoped caller ≡ false
      → (r : StatusRequest) (b : Backend Tables)
      → SeenAt (serve_caller env (ok caller) r b).0 b.content
  unfolding SeenAt pure ◌>>=◌ attempt
  serve_caller-Seen scoped r b =
      let id = extract_last_path_segment r.path in
      elim (Bool-cases (id == "")) [
        | inl e ↦ rw e tt
        | inr e ↦ rw e (go id (identifier_kind r.identifier_type id))
      ]
    where
      go : (id : String) (k : Option Bool) → SeenAt (serve_kind env caller id k b).0 b.content
      go id none = tt
      go id (some k) =
          subst (SeenAt (after_look_up env caller (look_up k id b).0 (look_up k id b).1).0)
            (look_up-content k id b)
            (after_look_up-Seen scoped (look_up k id b).0 (look_up k id b).1 (λ r e.
              subst (λ t. InTable t r) (sym (look_up-content k id b)) (look_up-InTable k id b e)))

-- Whatever the outages, a caller with a fingerprint that is not the global token's is shown the
-- status only of a voucher that it owns a record of or has a grant to.
pub serve_http-may_see :
    (env : Environment) (h : VoucherStatusHandler) (r : StatusRequest) (b : Backend Tables)
    (caller : CallerIdentity) (page : VoucherStatusResponse)
    → authenticate_caller h.validate_token r.authorization ≡ ok caller
    → is_unscoped caller ≡ false
    → (serve_http env h r b).0 ≡ ok (shown page)
    → may_see page.voucher_id caller.fingerprint b.content ≡ true
unfolding serve_http SeenAt Seen pure
serve_http-may_see env h r b caller page known scoped answer =
    subst (λ a. SeenAt env caller a b.content) answer
      (elim (Bool-cases (r.method == "GET")) [
        | inl e ↦ rw (e, known) (serve_caller-Seen env caller scoped r b)
        | inr e ↦ rw e tt
      ])
