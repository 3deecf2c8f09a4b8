-- ===== src/Pull/Laws.antt =====
-- Whom a voucher is served to, and what a page holds (voucher_pull_store.go).
use go_fdo_voucher_managemen.Prelude.{
  ◌≡◌, refl, String, Bool, true, false, some, ◌==◌, if◌then◌else◌,
}
use go_fdo_voucher_managemen.Backend.{Result, ok, err, pure, raise, attempt, continue, ◌>>=◌}
use go_fdo_voucher_managemen.Environment.{Environment}
use go_fdo_voucher_managemen.FileStore.{VoucherFileStore}
use go_fdo_voucher_managemen.Transmission.{VoucherTransmissionRecord, Tables}
use go_fdo_voucher_managemen.Transmission.Store.{fetch_latest_by_guid}
use go_fdo_voucher_managemen.Transmission.Grants.{has_access_by_guid}
use go_fdo_voucher_managemen.Transmission.Access.{may_see}
use go_fdo_voucher_managemen.World.{World, on_tables}
use go_fdo_voucher_managemen.Pull.{VoucherData, check_access, check_latest, get_voucher, load}
use go_fdo_voucher_managemen.Transmission.Access.Latest.{
  OfGuid, latest, latest-content, owner-may_see, access-may_see,
}

abbrev Row : Type 0
Row = VoucherTransmissionRecord

module _ (env : Environment) (s : VoucherFileStore) where
  granted : (o : Result Bool) (w : World) → (check_access env s o w).0 ≡ ok tt → o ≡ ok true
  unfolding raise
  granted (err e) w k = absurd (cc)
  granted (ok true) w k = refl
  granted (ok false) w k = absurd (cc)

  checked :
      (fp guid : String) (found : Result Row) (w : World) (t : Tables)
      → w.tables.content ≡ t
      → ((r : Row) → found ≡ ok r → OfGuid guid t r)
      → (check_latest env s fp guid found w).0 ≡ ok tt
      → may_see guid fp t ≡ true
  unfolding check_latest raise pure ◌>>=◌ attempt on_tables
  checked fp guid (err e) w t same known h = absurd (cc)
  checked fp guid (ok r) w t same known h = go (r.owner_key_fingerprint == fp) refl h
    where
      go :
          (c : Bool)
          → (r.owner_key_fingerprint == fp) ≡ c
          → ((if c
                then pure tt
                else attempt (on_tables (has_access_by_guid guid fp)) >>= λ access.
                    check_access env s access)
              w).0
            ≡ ok tt
          → may_see guid fp t ≡ true
      go true own k = owner-may_see guid fp t r (known r refl) own
      go false own k = rw (← same) (access-may_see guid fp w.tables (granted _ _ k))

  passed :
      (guid : String) (o : Result (Unit {0})) (w : World) (v : VoucherData env.Voucher)
      → (continue o (λ u. load env s guid) w).0 ≡ ok v
      → o ≡ ok tt
  passed guid (err e) w v k = absurd (cc)
  passed guid (ok u) w v k = refl

-- Whatever the outages, GetVoucher returns a voucher to a key only if the key owns a record of it or
-- has a grant to it.
pub get_voucher-may_see :
    (env : Environment) (s : VoucherFileStore) (fp guid : String) (w : World)
    (served : VoucherData env.Voucher)
    → (get_voucher env s (some fp) guid w).0 ≡ ok served
    → may_see guid fp w.tables.content ≡ true
unfolding get_voucher ◌>>=◌ attempt on_tables
get_voucher-may_see env s fp guid w served h =
    checked env s fp guid (fetch_latest_by_guid guid w.tables).0 _ w.tables.content
      (latest-content guid w.tables) (λ r e. latest guid w.tables {r = r} e)
      (passed env s guid _ _ served h)
