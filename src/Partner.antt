-- ===== src/Partner.antt =====
-- partner_store.go: the partners table and the trust decisions that are read from it.
pub mod Columns
pub mod Trust
use go_fdo_voucher_managemen.Prelude.{
  ℕ, zero, suc, String, Bool, true, false, ◌&&◌, not, Option, none, some, List, [], ◌∷◌, ◌++◌, map,
  filter, any, count_where, ltb, beq, ◌==◌, if◌then◌else◌,
}
use go_fdo_voucher_managemen.Prelude.Order.{sort_by}
use go_fdo_voucher_managemen.Prelude.Text.{to_lower}
use go_fdo_voucher_managemen.Backend.{
  Error, rejected, constraint, Result, ok, err, Exec, pure, raise, attempt, ◌>>=◌, Backend,
  statement, query, command,
}
use go_fdo_voucher_managemen.Environment.{Environment}
use go_fdo_voucher_managemen.Transmission.Store.{first_row}
use text.Mathlib.Text.{starts_with}
use Prim.Native.Nat.{Ordering}
use Prim.Native.String.{compare}

pub record Partner : Type 0 where
  pub id : String
  pub can_supply_vouchers : Bool
  pub can_receive_vouchers : Bool
  pub did_uri : String
  pub public_key : String
  pub push_url : String
  pub pull_url : String
  pub auth_token : String
  pub did_document : String
  pub did_document_fetched_at : ℕ
  pub did_document_etag : String
  pub public_key_fingerprint : String
  pub enabled : Bool
  pub created_at : ℕ
  pub updated_at : ℕ

-- a row of the table: `none` is NULL, and a flag is an INTEGER
pub record PartnerRow : Type 0 where
  pub id : String
  pub did_uri : Option String
  pub public_key : Option String
  pub public_key_fingerprint : Option String
  pub push_url : Option String
  pub pull_url : Option String
  pub auth_token : Option String
  pub did_document : Option String
  pub did_document_fetched_at : Option ℕ
  pub did_document_etag : Option String
  pub can_supply_vouchers : ℕ
  pub can_receive_vouchers : ℕ
  pub enabled : ℕ
  pub created_at : ℕ
  pub updated_at : ℕ

unfoldable pub null_str : String → Option String
null_str s = if s == "" then none else some s

unfoldable pub null_int : ℕ → Option ℕ
null_int n = if beq n 0 then none else some n

unfoldable pub bool_to_int : Bool → ℕ
bool_to_int b = if b then 1 else 0

-- the parameters of the INSERT, in the order of the columns
unfoldable pub to_row : Partner → PartnerRow
to_row p = record {
  id = p.id;
  did_uri = null_str p.did_uri;
  public_key = null_str p.public_key;
  public_key_fingerprint = null_str p.public_key_fingerprint;
  push_url = null_str p.push_url;
  pull_url = null_str p.pull_url;
  auth_token = null_str p.auth_token;
  did_document = null_str p.did_document;
  did_document_fetched_at = null_int p.did_document_fetched_at;
  did_document_etag = null_str p.did_document_etag;
  can_supply_vouchers = bool_to_int p.can_supply_vouchers;
  can_receive_vouchers = bool_to_int p.can_receive_vouchers;
  enabled = bool_to_int p.enabled;
  created_at = p.created_at;
  updated_at = p.updated_at;
}

-- `sql.NullString.String` and `sql.NullInt64.Int64` of a NULL are the zero values
abbrev pub null_string : Option String → String
null_string none = ""
null_string (some s) = s

abbrev pub null_number : Option ℕ → ℕ
null_number none = 0
null_number (some n) = n

-- `scanPartner` and `scanPartnerRow`
unfoldable pub scan_partner : PartnerRow → Partner
scan_partner r = record {
  id = r.id;
  can_supply_vouchers = not (beq r.can_supply_vouchers 0);
  can_receive_vouchers = not (beq r.can_receive_vouchers 0);
  did_uri = null_string r.did_uri;
  public_key = null_string r.public_key;
  push_url = null_string r.push_url;
  pull_url = null_string r.pull_url;
  auth_token = null_string r.auth_token;
  did_document = null_string r.did_document;
  did_document_fetched_at = null_number r.did_document_fetched_at;
  did_document_etag = null_string r.did_document_etag;
  public_key_fingerprint = null_string r.public_key_fingerprint;
  enabled = not (beq r.enabled 0);
  created_at = r.created_at;
  updated_at = r.updated_at;
}

abbrev pub PartnerTable : Type 0
PartnerTable = List PartnerRow

-- `column = ?`, which does not hold of NULL
abbrev pub column_is : Option String → String → Bool
column_is none s = false
column_is (some t) s = t == s

abbrev pub scan_first : List PartnerRow → Result Partner
scan_first rows = elim (first_row rows) [ ok r ↦ ok (scan_partner r) | err e ↦ err e ]

-- `SELECT … FROM partners WHERE …`, of which one row is scanned
unfoldable pub select_partner : (PartnerRow → Bool) → Exec (Backend PartnerTable) Partner
select_partner test = statement (λ rows. (scan_first (filter test rows), rows))

unfoldable pub get : String → Exec (Backend PartnerTable) Partner
unfolding select_partner
get id = select_partner (λ r. r.id == id)

unfoldable pub get_by_did : String → Exec (Backend PartnerTable) Partner
unfolding select_partner
get_by_did did_uri = select_partner (λ r. column_is r.did_uri did_uri)

unfoldable pub matches_fingerprint : String → PartnerRow → Bool
matches_fingerprint fp r = column_is r.public_key_fingerprint fp && beq r.enabled 1

unfoldable pub get_by_fingerprint : String → Exec (Backend PartnerTable) Partner
unfolding select_partner
get_by_fingerprint fp = select_partner (matches_fingerprint fp)

-- a text's order in `ORDER BY id`
abbrev by_id : PartnerRow → PartnerRow → Bool
by_id a b = elim (compare a.id b.id) [ Ordering.gt ↦ false | _ ↦ true ]

abbrev pub list_filter : String → Option (PartnerRow → Bool)
list_filter filter_name =
    if filter_name == "supply"
    then some (λ r. beq r.can_supply_vouchers 1)
    else if filter_name == "receive"
    then some (λ r. beq r.can_receive_vouchers 1)
    else if filter_name == ""
    then some (λ r. true)
    else none

unfoldable pub list : String → Exec (Backend PartnerTable) (List Partner)
list filter_name = elim (list_filter filter_name) [
  | none ↦ raise (rejected "partner store: unknown filter")
  | some test ↦ query (λ rows. map scan_partner (sort_by by_id (filter test rows)))
]

-- `did_uri LIKE 'did:web:%'`; LIKE does not tell the case of ASCII letters
abbrev pub starts_did_web : Option String → Bool
starts_did_web none = false
starts_did_web (some s) = starts_with (to_lower s) "did:web:"

unfoldable pub list_did_web_partners : Exec (Backend PartnerTable) (List Partner)
list_did_web_partners =
    query
      (λ rows. map scan_partner (filter (λ r. starts_did_web r.did_uri && beq r.enabled 1) rows))

unfoldable pub update_partner : String → (PartnerRow → PartnerRow) → PartnerTable → PartnerTable
update_partner id f rows = map (λ r. if r.id == id then f r else r) rows

-- `RowsAffected` of a DELETE by id
unfoldable pub delete : String → Exec (Backend PartnerTable) Unit
delete id = statement λ rows. (
  if any (λ r. r.id == id) rows then ok tt else err (rejected "partner store: partner not found"),
  filter (λ r. not (r.id == id)) rows,
)

unfoldable pub is_supplier : PartnerRow → Bool
is_supplier r = beq r.enabled 1 && beq r.can_supply_vouchers 1

-- an error of the query reads as no suppliers
abbrev pub or_false : Result Bool → Bool
or_false (ok b) = b
or_false (err e) = false

unfoldable pub has_suppliers : Exec (Backend PartnerTable) Bool
has_suppliers = do
  r ← attempt (query (λ (rows : PartnerTable). ltb 0 (count_where is_supplier rows)))
  pure (or_false r)

-- INSERT under `id TEXT PRIMARY KEY`
unfoldable pub insert_partner : PartnerRow → PartnerTable → Result (Unit {0}) × PartnerTable
insert_partner r rows =
    if any (λ q. q.id == r.id) rows then (err constraint, rows) else (ok tt, rows ++ r ∷ [])

abbrev pub ok_or_none {ℓ} : {A : Type ℓ} → Result A → Option A
ok_or_none (ok a) = some a
ok_or_none (err e) = none

abbrev pub trusted_id : Result (Option Partner) → String × Bool
trusted_id (ok (some p)) = if p.can_supply_vouchers then (p.id, true) else ("", false)
trusted_id _ = ("", false)

module _ (env : Environment) where
  open env use {PublicKey, load_public_key_pem, fingerprint_fdo_hex}

  unfoldable pub fingerprint_pem : String → Result String
  fingerprint_pem pem = elim (load_public_key_pem pem) [
    | err e ↦ err e
    | ok key ↦
        let fp = fingerprint_fdo_hex key in
        if fp == "" then err (rejected "failed to compute fingerprint") else ok fp
  ]

  -- the fingerprint that is computed if there is a key, else the one given
  unfoldable pub fingerprint_or : String → String → Result String
  unfolding fingerprint_pem
  fingerprint_or given pem = if pem == "" then ok given else fingerprint_pem pem

  unfoldable pub stamped : ℕ → Partner → String → Partner
  stamped now p fp = record p { created_at = now; updated_at = now; public_key_fingerprint = fp }

  abbrev pub insert_stamped : ℕ → Partner → Result String → Exec (Backend PartnerTable) Unit
  insert_stamped now p (err e) = raise e
  insert_stamped now p (ok fp) = statement (insert_partner (to_row (stamped now p fp)))

  unfoldable pub add : ℕ → Partner → Exec (Backend PartnerTable) Unit
  add now p = insert_stamped now p (fingerprint_or p.public_key_fingerprint p.public_key)

  -- UPDATE … WHERE id = ?: every column but the id and `created_at`
  unfoldable pub update : ℕ → Partner → Exec (Backend PartnerTable) Unit
  update now p = elim (fingerprint_or "" p.public_key) [
    | err e ↦ raise e
    | ok fp ↦ command (
        update_partner p.id λ r.
          record (to_row (record p { public_key_fingerprint = fp; updated_at = now })) {
            id = r.id;
            created_at = r.created_at;
          })
  ]

  -- the columns of a DID document, where the key has a fingerprint or there is none
  abbrev pub store_did_columns :
      ℕ
      → String
      → String
      → String
      → String
      → String
      → String
      → Result String
      → Exec (Backend PartnerTable) Unit
  store_did_columns now id doc_json public_key_pem push_url pull_url etag (err e) = raise e
  store_did_columns now id doc_json public_key_pem push_url pull_url etag (ok fp) = command (
      update_partner id λ r. record r {
        did_document = null_str doc_json;
        did_document_fetched_at = some now;
        did_document_etag = null_str etag;
        public_key = null_str public_key_pem;
        public_key_fingerprint = null_str fp;
        push_url = null_str push_url;
        pull_url = null_str pull_url;
        updated_at = now;
      })

  unfoldable pub update_did_document :
      ℕ → String → String → String → String → String → String → Exec (Backend PartnerTable) Unit
  update_did_document now id doc_json public_key_pem push_url pull_url etag =
      store_did_columns now id doc_json public_key_pem push_url pull_url etag
        (fingerprint_or "" public_key_pem)

  -- a failed lookup reads as "not found"
  unfoldable pub get_by_key_fingerprint : PublicKey → Exec (Backend PartnerTable) (Option Partner)
  get_by_key_fingerprint key =
      let fp = fingerprint_fdo_hex key in
      if fp == ""
      then raise (rejected "partner store: failed to compute key fingerprint")
      else (do r ← attempt (get_by_fingerprint fp); pure (ok_or_none r))

  unfoldable pub is_trusted_supplier : PublicKey → Exec (Backend PartnerTable) (String × Bool)
  unfolding get_by_key_fingerprint
  is_trusted_supplier key = do r ← attempt (get_by_key_fingerprint key); pure (trusted_id r)
