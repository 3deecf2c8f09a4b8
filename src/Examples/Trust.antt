-- ===== src/Examples/Trust.antt =====
-- The theorems on tokens and partners, applied to one of each.
use go_fdo_voucher_managemen.Prelude.{◌≡◌, refl, true, [], ◌∷◌, ◌==◌, if◌then◌else◌}
use go_fdo_voucher_managemen.Backend.{ok, ◌>>=◌, statement, Backend}
use go_fdo_voucher_managemen.Partner.{
  PartnerTable, PartnerRow, to_row, scan_partner, get, add, fingerprint_or, fingerprint_pem,
  is_trusted_supplier, get_by_key_fingerprint, get_by_fingerprint, select_partner,
  matches_fingerprint, null_str, null_int, bool_to_int,
}
use go_fdo_voucher_managemen.Partner.Columns.{get-add}
use go_fdo_voucher_managemen.Partner.Trust.{IsSupplierRow, is_trusted_supplier-IsSupplierRow}
use go_fdo_voucher_managemen.Tokens.{ReceiverTables}
use go_fdo_voucher_managemen.Examples.{env, world, partner}

abbrev no_tokens : Backend ReceiverTables
no_tokens = record { content = record { tokens = []; audit = []; last_audit_id = 0 }; outages = [] }

get-add_example :
    ((add env 9 partner world.partners).0 ≡ ok tt)
    × ((get "acme" (add env 9 partner world.partners).1).0 ≡ (
        if "acme" == "acme"
        then ok
            (record partner { created_at = 9; updated_at = 9; public_key_fingerprint = "key-acme" })
        else (get "acme" world.partners).0))
unfolding fingerprint_or fingerprint_pem
get-add_example = get-add env 9 partner "acme" "key-acme" world.partners refl refl refl

abbrev partners : Backend PartnerTable
partners = record {
  content = to_row (record partner { public_key_fingerprint = "key-acme" }) ∷ [];
  outages = [];
}

trusted : (is_trusted_supplier env "key-acme" partners).0 ≡ ok ("acme", true)
unfolding is_trusted_supplier get_by_key_fingerprint get_by_fingerprint select_partner
    matches_fingerprint to_row scan_partner null_str null_int bool_to_int statement ◌>>=◌
trusted = refl

is_trusted_supplier-IsSupplierRow_example :
    (r : PartnerRow) × IsSupplierRow "acme" "key-acme" partners.content r
is_trusted_supplier-IsSupplierRow_example =
    is_trusted_supplier-IsSupplierRow env "key-acme" "acme" partners trusted
