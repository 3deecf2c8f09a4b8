-- ===== src/Refresh.antt =====
-- partner_refresh_worker.go: the DID documents of did:web partners are fetched again when stale.
pub mod Laws
use go_fdo_voucher_managemen.Prelude.{
  ℕ, ◌*◌, ◌/◌, String, Bool, true, false, ◌&&◌, not, Option, none, some, List, [], ◌∷◌, beq, ltb,
  ◌==◌, if◌then◌else◌,
}
use go_fdo_voucher_managemen.Prelude.Int.{ℤ, pos, pos_part, is_nonpos, sub_ℕ, ltb_ℤ}
use go_fdo_voucher_managemen.Prelude.Text.{replace_once}
use go_fdo_voucher_managemen.Backend.{
  Error, Result, ok, err, Exec, Backend, pure, raise, attempt, ◌>>=◌, ◌>>◌,
}
use go_fdo_voucher_managemen.Config.{second, hour}
use go_fdo_voucher_managemen.Environment.{Environment}
use go_fdo_voucher_managemen.Partner.{
  Partner, PartnerTable, list_did_web_partners, update_did_document,
}
use go_fdo_voucher_managemen.Services.{resolve_did_key}

-- The resolver by its two flags: enabled, and whether it fetches documents over plain HTTP.
pub record PartnerRefreshWorker : Type 0 where
  pub resolver_enabled : Bool
  pub insecure_http : Bool
  pub interval : ℤ
  pub max_age : ℤ

unfoldable pub new_partner_refresh_worker : Bool → Bool → ℤ → ℤ → PartnerRefreshWorker
new_partner_refresh_worker enabled insecure interval max_age = record {
  resolver_enabled = enabled;
  insecure_http = insecure;
  interval = if is_nonpos interval then pos hour else interval;
  max_age = if is_nonpos max_age then pos (24 * hour) else max_age;
}

-- `int64(maxAge.Seconds())`; the age is positive
abbrev pub max_age_seconds : PartnerRefreshWorker → ℕ
max_age_seconds w = pos_part w.max_age / second

-- a time is in seconds since 1970, and 0 is "never"
unfoldable pub is_fresh : PartnerRefreshWorker → ℕ → Partner → Bool
is_fresh w now p =
    ltb 0 p.did_document_fetched_at
    && ltb_ℤ (sub_ℕ now p.did_document_fetched_at) (pos (max_age_seconds w))

module _ (env : Environment) (w : PartnerRefreshWorker) where
  abbrev pub document_url : Result String → Result String
  document_url (err e) = err e
  document_url (ok url) =
      ok (if w.insecure_http then replace_once "https://" "http://" url else url)

  -- `WebDIDToURL`
  unfoldable pub web_did_to_url : String → Result String
  web_did_to_url did = document_url (env.web_did_to_url did)

  abbrev pub text_or_empty : Result String → String
  text_or_empty (err e) = ""
  text_or_empty (ok text) = text

  abbrev pub fetch_at : ℕ → Result String → String
  fetch_at now (err e) = ""
  fetch_at now (ok url) = text_or_empty (env.fetch_document now url)

  -- the first endpoint of the holder service
  abbrev pub first_holder : List (String × String) → String
  first_holder [] = ""
  first_holder ((kind, endpoint) ∷ rest) =
      let later = first_holder rest in if kind == env.holder_service_type then endpoint else later

  abbrev pub holder_or_empty : Result (List (String × String)) → String
  holder_or_empty (err e) = ""
  holder_or_empty (ok services) = first_holder services

  abbrev pub pull_url_of : String → String
  pull_url_of doc = if doc == "" then "" else holder_or_empty (env.decode_services doc)

  abbrev pub store_document :
      ℕ → Partner → String → Result String → Exec (Backend PartnerTable) Unit
  store_document now p url (err e) = raise e
  store_document now p url (ok pem) =
      let doc = fetch_at now (web_did_to_url p.did_uri) in
      update_did_document env now p.id doc pem url (pull_url_of doc) ""

  abbrev pub store_resolved :
      ℕ → Partner → Result (env.PublicKey × String) → Exec (Backend PartnerTable) Unit
  store_resolved now p (err e) = raise e
  store_resolved now p (ok (key, url)) = store_document now p url (env.export_public_key_pem key)

  unfoldable pub refresh_partner : ℕ → Partner → Exec (Backend PartnerTable) Unit
  unfolding web_did_to_url
  refresh_partner now p =
      store_resolved now p (resolve_did_key env w.resolver_enabled now p.did_uri)

  -- a partner that cannot be refreshed is logged
  unfoldable pub refresh_each : ℕ → List Partner → Exec (Backend PartnerTable) Unit
  unfolding refresh_partner is_fresh
  refresh_each now [] = pure tt
  refresh_each now (p ∷ rest) =
      if is_fresh w now p
      then refresh_each now rest
      else attempt (refresh_partner now p) >> refresh_each now rest

  abbrev pub refresh_listed : ℕ → Result (List Partner) → Exec (Backend PartnerTable) Unit
  refresh_listed now (err e) = pure tt
  refresh_listed now (ok partners) = refresh_each now partners

  unfoldable pub refresh_all : ℕ → Exec (Backend PartnerTable) Unit
  unfolding refresh_each
  refresh_all now = attempt list_did_web_partners >>= λ partners. refresh_listed now partners
