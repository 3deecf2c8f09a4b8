-- ===== src/Transmission/Grants.antt =====
-- voucher_transmission_store.go: the statements on voucher_access_grants, and those that join
-- the two tables.
use go_fdo_voucher_managemen.Prelude.{
  ℕ, suc, String, Bool, true, false, ◌&&◌, ◌||◌, Option, none, some, List, [], ◌∷◌, ◌++◌, map,
  filter, take, any, count_where, not, beq, leb, ltb, ◌==◌, if◌then◌else◌,
}
use go_fdo_voucher_managemen.Prelude.Int.{ℤ}
use go_fdo_voucher_managemen.Prelude.Order.{sort_by}
use go_fdo_voucher_managemen.Backend.{Exec, Backend, query, command}
use go_fdo_voucher_managemen.Transmission.{VoucherTransmissionRecord, AccessGrant, Tables, limit_or}
use go_fdo_voucher_managemen.Transmission.Store.{newest_first}

-- `UNIQUE(voucher_guid, identity_fingerprint, identity_type)`
unfoldable pub same_key : AccessGrant → AccessGrant → Bool
same_key a b =
    a.voucher_guid == b.voucher_guid
    && a.identity_fingerprint == b.identity_fingerprint
    && a.identity_type == b.identity_type

-- INSERT OR IGNORE
unfoldable pub insert_grant : AccessGrant → Tables → Tables
insert_grant g t = if any (same_key g) t.grants then t else record t {
  grants = t.grants ++ record g { id = suc t.last_grant_id } ∷ [];
  last_grant_id = suc t.last_grant_id;
}

-- A zero `GrantedAt` is replaced by the clock.
unfoldable pub insert_access_grant : ℕ → AccessGrant → Exec (Backend Tables) Unit
insert_access_grant now g =
    command
      (insert_grant (record g { granted_at = if beq g.granted_at 0 then now else g.granted_at }))

unfoldable pub grants_to : String → String → AccessGrant → Bool
grants_to guid fingerprint g = g.voucher_guid == guid && g.identity_fingerprint == fingerprint

-- `SELECT COUNT(*) … > 0`
unfoldable pub has_access : String → String → Exec (Backend Tables) Bool
has_access guid fingerprint = query (λ t. ltb 0 (count_where (grants_to guid fingerprint) t.grants))

unfoldable pub oldest_first : AccessGrant → AccessGrant → Bool
oldest_first a b = leb a.granted_at b.granted_at

unfoldable pub latest_grant_first : AccessGrant → AccessGrant → Bool
latest_grant_first a b = leb b.granted_at a.granted_at

unfoldable pub list_access_grants : String → Exec (Backend Tables) (List AccessGrant)
list_access_grants guid =
    query (λ t. sort_by oldest_first (filter (λ g. g.voucher_guid == guid) t.grants))

unfoldable pub remove_grants : String → Tables → Tables
remove_grants guid t = record t { grants = filter (λ g. not (g.voucher_guid == guid)) t.grants }

unfoldable pub remove_access_grants_for_voucher : String → Exec (Backend Tables) Unit
remove_access_grants_for_voucher guid = command (remove_grants guid)

unfoldable pub list_all_access_grants : String → ℤ → Exec (Backend Tables) (List AccessGrant)
list_all_access_grants identity_type limit = query λ t. take (limit_or 100 limit) (
    sort_by latest_grant_first (
      filter (λ g. if identity_type == "" then true else g.identity_type == identity_type)
        t.grants))

-- One row of `t LEFT JOIN g ON t.voucher_guid = g.voucher_guid`: `none` is the row of NULLs.
abbrev pub Joined : Type 0
Joined = VoucherTransmissionRecord × Option AccessGrant

unfoldable pub joined_with : VoucherTransmissionRecord → List AccessGrant → List Joined
joined_with r [] = (r, none) ∷ []
joined_with r (g ∷ gs) = (r, some g) ∷ map (λ h. (r, some h)) gs

unfoldable pub left_join : List VoucherTransmissionRecord → List AccessGrant → List Joined
unfolding joined_with
left_join [] gs = []
left_join (r ∷ rs) gs =
    joined_with r (filter (λ g. r.voucher_guid == g.voucher_guid) gs) ++ left_join rs gs

-- `t.owner_key_fingerprint = ? OR g.identity_fingerprint = ?`; a comparison with NULL does not hold
abbrev pub joined_to : String → Joined → Bool
joined_to fp (r, none) = r.owner_key_fingerprint == fp
joined_to fp (r, some g) = r.owner_key_fingerprint == fp || g.identity_fingerprint == fp

-- `JOIN … WHERE g.identity_fingerprint = ? AND g.identity_type = 'custodian'`: the row of NULLs,
-- which an inner join does not have, fails the test
abbrev pub joined_custodian : String → Joined → Bool
joined_custodian fp (r, none) = false
joined_custodian fp (r, some g) = g.identity_fingerprint == fp && g.identity_type == "custodian"

-- SELECT DISTINCT: rows with one primary key are one row, and the first is kept
unfoldable pub distinct : List VoucherTransmissionRecord → List VoucherTransmissionRecord
distinct [] = []
distinct (r ∷ rs) = r ∷ filter (λ q. not (beq q.id r.id)) (distinct rs)

unfoldable pub select_joined : (Joined → Bool) → Tables → List VoucherTransmissionRecord
select_joined test t = distinct (map (λ j. j.0) (filter test (left_join t.transmissions t.grants)))

unfoldable pub list_by_access_grant :
    String → ℤ → Exec (Backend Tables) (List VoucherTransmissionRecord)
list_by_access_grant fp limit =
    query λ t. take (limit_or 50 limit) (sort_by newest_first (select_joined (joined_to fp) t))

unfoldable pub list_by_custodian :
    String → ℤ → Exec (Backend Tables) (List VoucherTransmissionRecord)
list_by_custodian fp limit =
    query
      λ t. take (limit_or 50 limit) (sort_by newest_first (select_joined (joined_custodian fp) t))

unfoldable pub owns : String → String → VoucherTransmissionRecord → Bool
owns guid fp r = r.voucher_guid == guid && r.owner_key_fingerprint == fp

-- `SELECT COUNT(*) FROM (SELECT 1 … UNION SELECT 1 …)`: UNION leaves one row of the 1s, if any
unfoldable pub count_union : String → String → Tables → ℕ
count_union guid fp t =
    if any (owns guid fp) t.transmissions || any (grants_to guid fp) t.grants then 1 else 0

unfoldable pub has_access_by_guid : String → String → Exec (Backend Tables) Bool
has_access_by_guid guid fp = query (λ t. ltb 0 (count_union guid fp t))
