-- ===== src/Partner/Columns.antt =====
-- Partners written to the columns of partner_store.go and read back.
use go_fdo_voucher_managemen.Prelude.{
  ℕ, ◌≡◌, refl, ap, ◌∙◌, String, Bool, true, false, not, List, [], ◌∷◌, ◌++◌, any, filter, beq,
  ◌==◌, eq_iff, if◌then◌else◌, arith,
}
use go_fdo_voucher_managemen.Backend.{ok, Backend, statement}
use go_fdo_voucher_managemen.Backend.Laws.{IsReliable, statement_reliable}
use go_fdo_voucher_managemen.Environment.{Environment}
use go_fdo_voucher_managemen.Partner.{
  Partner, PartnerRow, PartnerTable, null_str, null_int, bool_to_int, to_row, null_string,
  null_number, scan_partner, select_partner, scan_first, get, stamped, fingerprint_or,
  insert_partner, add,
}

null_string-null_str : (s : String) → null_string (null_str s) ≡ s
unfolding null_str
null_string-null_str s = ground (arith, eq_iff s "")

null_number-null_int : (n : ℕ) → null_number (null_int n) ≡ n
unfolding null_int
null_number-null_int n = ground arith

bool_to_int-flag : (b : Bool) → not (beq (bool_to_int b) 0) ≡ b
unfolding bool_to_int
bool_to_int-flag true = refl
bool_to_int-flag false = refl

-- Scanning the columns that a partner is written to gives the partner back.
pub scan_partner-to_row : (p : Partner) → scan_partner (to_row p) ≡ p
unfolding scan_partner to_row
scan_partner-to_row p = λ i. record {
  id = p.id;
  can_supply_vouchers = bool_to_int-flag p.can_supply_vouchers i;
  can_receive_vouchers = bool_to_int-flag p.can_receive_vouchers i;
  did_uri = null_string-null_str p.did_uri i;
  public_key = null_string-null_str p.public_key i;
  push_url = null_string-null_str p.push_url i;
  pull_url = null_string-null_str p.pull_url i;
  auth_token = null_string-null_str p.auth_token i;
  did_document = null_string-null_str p.did_document i;
  did_document_fetched_at = null_number-null_int p.did_document_fetched_at i;
  did_document_etag = null_string-null_str p.did_document_etag i;
  public_key_fingerprint = null_string-null_str p.public_key_fingerprint i;
  enabled = bool_to_int-flag p.enabled i;
  created_at = p.created_at;
  updated_at = p.updated_at;
}

first-append :
    (id : String) (r : PartnerRow) (rows : List PartnerRow)
    → any (λ q. q.id == r.id) rows ≡ false
    → scan_first (filter (λ q. q.id == id) (rows ++ r ∷ []))
      ≡ (if r.id == id then ok (scan_partner r) else scan_first (filter (λ q. q.id == id) rows))
first-append id r [] h = ground arith
first-append id r (q ∷ rows) h =
    ground (arith, first-append id r rows, eq_iff q.id id, eq_iff q.id r.id, eq_iff r.id id)

get_reliable :
    (id : String) (b : Backend PartnerTable)
    → IsReliable b
    → (get id b).0 ≡ scan_first (filter (λ q. q.id == id) b.content)
unfolding get select_partner
get_reliable id b rel = ap (λ p. p.0) (statement_reliable _ b rel)

insert_reliable :
    (r : PartnerRow) (b : Backend PartnerTable)
    → IsReliable b
    → any (λ q. q.id == r.id) b.content ≡ false
    → statement (insert_partner r) b
      ≡ (ok tt, record { content = b.content ++ r ∷ []; outages = [] })
unfolding insert_partner
insert_reliable r b rel free = statement_reliable _ b rel ∙ rw free

-- With no outage, Add of a partner whose key, if any, has a fingerprint and whose id is not taken
-- succeeds; Get then returns it for its id, stamped with the clock and the fingerprint, and as
-- before for every other id.
pub get-add :
    (env : Environment) (now : ℕ) (p : Partner) (id fp : String) (b : Backend PartnerTable)
    → IsReliable b
    → fingerprint_or env p.public_key_fingerprint p.public_key ≡ ok fp
    → any (λ q. q.id == p.id) b.content ≡ false
    → ((add env now p b).0 ≡ ok tt)
      × ((get id (add env now p b).1).0 ≡ (
          if p.id == id
          then ok (record p { created_at = now; updated_at = now; public_key_fingerprint = fp })
          else (get id b).0))
unfolding add
get-add env now p id fp b rel print free = rw (print, add) (rw added (refl, found))
  where
    whole : Partner
    whole = stamped env now p fp

    added :
        statement (insert_partner (to_row whole)) b
        ≡ (ok tt, record { content = b.content ++ to_row whole ∷ []; outages = [] })
    added = insert_reliable (to_row whole) b rel (unfold to_row stamped in free)

    found : (get id (record { content = b.content ++ to_row whole ∷ []; outages = [] })).0 ≡ (
        if p.id == id
        then ok (record p { created_at = now; updated_at = now; public_key_fingerprint = fp })
        else (get id b).0)
    found =
        get_reliable id (record { content = b.content ++ to_row whole ∷ []; outages = [] }) refl
        ∙ (first-append id (to_row whole) b.content (unfold to_row stamped in free)
            ∙ rw (get_reliable id b rel, scan_partner-to_row whole) (unfold to_row stamped in refl))
