-- ===== src/Partner/Trust.antt =====
-- Whom partner_store.go trusts to supply vouchers.
use go_fdo_voucher_managemen.Prelude.{
  ◌≡◌, refl, ◌≢◌, ◌∙◌, ap, String, Bool, true, not, Option, none, some, List, [], ◌∷◌, filter, beq,
  ◌==◌, eq_iff, Bool-cases, inl, inr, ◌⊎◌, arith, Memᴰ,
}
use go_fdo_voucher_managemen.Backend.{Result, ok, err, Backend, Error, ◌>>=◌}
use go_fdo_voucher_managemen.Backend.Laws.{statement-Ran}
use go_fdo_voucher_managemen.Environment.{Environment}
use go_fdo_voucher_managemen.Partner.{
  Partner, PartnerRow, PartnerTable, scan_partner, select_partner, scan_first, column_is,
  matches_fingerprint, get_by_fingerprint, get_by_key_fingerprint, trusted_id, is_trusted_supplier,
}

Result-cases : {A : Type 0} (r : Result A) → ((a : A) × (r ≡ ok a)) ⊎ ((e : Error) × (r ≡ err e))
Result-cases (ok a) = inl (a, refl)
Result-cases (err e) = inr (e, refl)

-- a scanned row is a row of the table that passes the test
scan_first-ok :
    (test : PartnerRow → Bool) (rows : List PartnerRow) {p : Partner}
    → scan_first (filter test rows) ≡ ok p
    → (r : PartnerRow) × Memᴰ r rows × (test r ≡ true) × (scan_partner r ≡ p)
scan_first-ok test [] h = absurd (cc)
scan_first-ok test (r ∷ rows) {p} h = elim (Bool-cases (test r)) [
  | inl e ↦ (r, Memᴰ.head refl, e, ground arith)
  | inr e ↦
      let (q, m, f, s) = scan_first-ok test rows {p = p} (ground arith) in (q, Memᴰ.tail m, f, s)
]

pub get_by_fingerprint-ok :
    (fp : String) (b : Backend PartnerTable) {p : Partner}
    → (get_by_fingerprint fp b).0 ≡ ok p
    → (r : PartnerRow) × Memᴰ r b.content × (matches_fingerprint fp r ≡ true) × (scan_partner r ≡ p)
unfolding get_by_fingerprint select_partner
get_by_fingerprint-ok fp b {p} h = scan_first-ok (matches_fingerprint fp) b.content (
    ground (
      arith,
      statement-Ran
          (λ (rows : PartnerTable). (scan_first (filter (matches_fingerprint fp) rows), rows)) b,
    ))

-- A row that makes its partner a trusted supplier by a fingerprint.
pub record IsSupplierRow (id fp : String) (rows : PartnerTable) (r : PartnerRow) : Type 0 where
  pub listed : Memᴰ r rows
  pub same_id : r.id ≡ id
  pub enabled : r.enabled ≡ 1
  pub supplies : r.can_supply_vouchers ≢ 0
  pub same_key : r.public_key_fingerprint ≡ some fp
  pub has_key : fp ≢ ""

trusted_id-true :
    (o : Result (Option Partner)) {id : String}
    → trusted_id o ≡ (id, true)
    → (p : Partner) × (o ≡ ok (some p)) × (p.can_supply_vouchers ≡ true) × (p.id ≡ id)
trusted_id-true (ok (some p)) {id} h = (p, refl, ground arith, ground arith)
trusted_id-true (ok none) h = absurd (ground arith)
trusted_id-true (err e) h = absurd (ground arith)

lookup_key-ok :
    (env : Environment) (key : env.PublicKey) (b : Backend PartnerTable) {p : Partner}
    → (get_by_key_fingerprint env key b).0 ≡ ok (some p)
    → (env.fingerprint_fdo_hex key ≢ "")
      × ((get_by_fingerprint (env.fingerprint_fdo_hex key) b).0 ≡ ok p)
unfolding get_by_key_fingerprint ◌>>=◌
lookup_key-ok env key b {p} h = elim (Bool-cases (env.fingerprint_fdo_hex key == "")) [
  | inl e ↦ absurd (ground arith)
  | inr e ↦ (ground (arith, eq_iff (env.fingerprint_fdo_hex key) ""), ground arith)
]

column_is-true : (c : Option String) (fp : String) → column_is c fp ≡ true → c ≡ some fp
column_is-true none fp h = absurd (cc)
column_is-true (some t) fp h = ap some ((eq_iff t fp).0 h)

supplier_row :
    (env : Environment) (key : env.PublicKey) (id : String) (b : Backend PartnerTable) (p : Partner)
    (r : PartnerRow)
    → p.can_supply_vouchers ≡ true
    → p.id ≡ id
    → env.fingerprint_fdo_hex key ≢ ""
    → Memᴰ r b.content
    → matches_fingerprint (env.fingerprint_fdo_hex key) r ≡ true
    → scan_partner r ≡ p
    → IsSupplierRow id (env.fingerprint_fdo_hex key) b.content r
unfolding matches_fingerprint scan_partner
supplier_row env key id b p r can same has listed matches scanned = record {
  listed = listed;
  same_id = ap (λ (q : Partner). q.id) scanned ∙ same;
  enabled = ground arith;
  supplies =
      let flag : not (beq r.can_supply_vouchers 0) ≡ true =
        ap (λ (q : Partner). q.can_supply_vouchers) scanned ∙ can in
      ground arith;
  same_key = column_is-true r.public_key_fingerprint (env.fingerprint_fdo_hex key) (ground arith);
  has_key = has;
}

-- Whatever the outages, IsTrustedSupplier names a partner as trusted only if an enabled row of the
-- table with that id may supply vouchers and holds the key's fingerprint, which is not empty.
pub is_trusted_supplier-IsSupplierRow :
    (env : Environment) (key : env.PublicKey) (id : String) (b : Backend PartnerTable)
    → (is_trusted_supplier env key b).0 ≡ ok (id, true)
    → (r : PartnerRow) × IsSupplierRow id (env.fingerprint_fdo_hex key) b.content r
unfolding is_trusted_supplier ◌>>=◌
is_trusted_supplier-IsSupplierRow env key id b h =
    let (p, looked, can, same) =
      trusted_id-true (get_by_key_fingerprint env key b).0 {id = id} (ground arith) in
    let (has, found) = lookup_key-ok env key b {p = p} looked in
    let (r, listed, matches, scanned) =
      get_by_fingerprint-ok (env.fingerprint_fdo_hex key) b {p = p} found in
    (r, supplier_row env key id b p r can same has listed matches scanned)
