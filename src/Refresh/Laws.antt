-- ===== src/Refresh/Laws.antt =====
-- What a refresh of partner_refresh_worker.go may change.
use mathlib.Core.List.Memᴰ
use mathlib.Core.Path.{subst}
use go_fdo_voucher_managemen.Prelude.{
  ℕ, ◌≡◌, refl, sym, ◌∙◌, ap, inl, inr, String, Bool, true, false, ◌&&◌, none, List, [], ◌∷◌, map,
  Memᴰ, filter, any, any-at, All, All-map, All-mem, All-filter, All-both, filter-All, beq, ◌==◌,
  eq_iff, Bool-cases, if◌then◌else◌,
}
use go_fdo_voucher_managemen.Backend.{Result, ok, err, Backend, pure, raise, attempt, ◌>>=◌}
use go_fdo_voucher_managemen.Backend.Laws.{content-query, query-ok, command-keeps}
use go_fdo_voucher_managemen.Environment.{Environment}
use go_fdo_voucher_managemen.Partner.{
  Partner, PartnerRow, PartnerTable, scan_partner, starts_did_web, list_did_web_partners,
  update_partner, store_did_columns, update_did_document, fingerprint_or,
}
use go_fdo_voucher_managemen.Services.{resolve_did_key}
use go_fdo_voucher_managemen.Refresh.{
  PartnerRefreshWorker, is_fresh, store_document, store_resolved, refresh_partner, refresh_each,
  refresh_listed, refresh_all,
}

-- an enabled partner with a did:web DID
unfoldable pub is_refreshed : PartnerRow → Bool
is_refreshed r = starts_did_web r.did_uri && beq r.enabled 1

abbrev without_document : PartnerRow → PartnerRow
without_document r = record r {
  did_document = none;
  did_document_fetched_at = none;
  did_document_etag = none;
  public_key = none;
  public_key_fingerprint = none;
  push_url = none;
  pull_url = none;
  updated_at = 0;
}

-- what a refresh leaves of a row: the columns that are not of a DID document, where the partner
-- is one to refresh, and the whole row where it is not
unfoldable pub lasting : PartnerRow → PartnerRow
lasting r = if is_refreshed r then without_document r else r

abbrev pub DistinctPartners : PartnerTable → Type 0
DistinctPartners [] = Unit
DistinctPartners (r ∷ rows) = (any (λ q. q.id == r.id) rows ≡ false) × DistinctPartners rows

-- every row with this id is one to refresh
abbrev Refreshed : String → PartnerRow → Type 0
Refreshed id r = (r.id == id) ≡ true → is_refreshed r ≡ true

lasting-is_refreshed : (r : PartnerRow) → is_refreshed (lasting r) ≡ is_refreshed r
unfolding lasting is_refreshed
lasting-is_refreshed r = go (is_refreshed r)
  where
    go : (c : Bool) → is_refreshed (if c then without_document r else r) ≡ is_refreshed r
    go true = refl
    go false = refl

lasting-id : (r : PartnerRow) → (lasting r).id ≡ r.id
unfolding lasting
lasting-id r = go (is_refreshed r)
  where
    go : (c : Bool) → (if c then without_document r else r).id ≡ r.id
    go true = refl
    go false = refl

-- an update of the DID columns of rows that are all to be refreshed
update-lasting :
    (id : String) (f : PartnerRow → PartnerRow) (rows : PartnerTable)
    → ((r : PartnerRow) → without_document (f r) ≡ without_document r)
    → All (Refreshed id) (map lasting rows)
    → map lasting (update_partner id f rows) ≡ map lasting rows
unfolding update_partner lasting is_refreshed
update-lasting id f [] same h = refl
update-lasting id f (r ∷ rows) same (p, h) = elim (Bool-cases (r.id == id)) [
  | inr e ↦ rw e (ap (λ l. lasting r ∷ l) (update-lasting id f rows same h))
  | inl e ↦
      (let refreshed : is_refreshed r ≡ true =
          sym (lasting-is_refreshed r) ∙ p (rw (lasting-id r) e) in
        let still : is_refreshed (f r) ≡ true = ap (λ q. is_refreshed q) (same r) ∙ refreshed in
        rw (e, update-lasting id f rows same h, refreshed, still, same r) refl)
]

-- each of two rows with one id is the other
same_row :
    (rows : PartnerTable) {a b : PartnerRow}
    → DistinctPartners rows
    → Memᴰ a rows
    → Memᴰ b rows
    → (b.id == a.id) ≡ true
    → b ≡ a
same_row [] d m k e = absurd (Memᴰ.not-nil m)
same_row (r ∷ rows) d (Memᴰ.head p) (Memᴰ.head q) e = q ∙ sym p
same_row (r ∷ rows) {a} {b} (d, ds) (Memᴰ.head p) (Memᴰ.tail k) e =
    let taken = any-at (λ q. q.id == r.id) rows k (rw (← p) e) in absurd (cc)
same_row (r ∷ rows) {a} {b} (d, ds) (Memᴰ.tail m) (Memᴰ.head q) e =
    let same : r.id ≡ a.id = (eq_iff r.id a.id).0 (rw (← q) e) in
    let taken = any-at (λ q. q.id == r.id) rows m ((eq_iff a.id r.id).1 (sym same)) in absurd (cc)
same_row (r ∷ rows) (d, ds) (Memᴰ.tail m) (Memᴰ.tail k) e = same_row rows ds m k e

-- the rows with the id of one that is to be refreshed
all-Refreshed :
    (rows : PartnerTable) (a : PartnerRow)
    → DistinctPartners rows
    → Memᴰ a rows
    → is_refreshed a ≡ true
    → All (Refreshed a.id) (map lasting rows)
all-Refreshed rows a d m k = All-map (Refreshed a.id) lasting rows (
    All-both (λ b. Memᴰ b rows) (λ b. Memᴰ b rows) (λ b. Refreshed a.id (lasting b))
      (λ b n _ e.
        lasting-is_refreshed b ∙ ap is_refreshed (same_row rows d m n (rw (← lasting-id b) e)) ∙ k)
      rows (All-mem rows) (All-mem rows))

-- the listed partners are to be refreshed
listed-Refreshed :
    (rows : PartnerTable)
    → DistinctPartners rows
    → All
        (λ (p : Partner). All (Refreshed p.id) (map lasting rows))
        (map scan_partner (filter is_refreshed rows))
unfolding scan_partner
listed-Refreshed rows d =
    All-map (λ (p : Partner). All (Refreshed p.id) (map lasting rows)) scan_partner
      (filter is_refreshed rows)
      (All-both (λ a. Memᴰ a rows) (λ a. is_refreshed a ≡ true)
        (λ a. All (Refreshed a.id) (map lasting rows)) (λ a m k. all-Refreshed rows a d m k)
        (filter is_refreshed rows) (All-filter (λ a. Memᴰ a rows) is_refreshed rows (All-mem rows))
        (filter-All is_refreshed rows))

module _ (env : Environment) (w : PartnerRefreshWorker) (now : ℕ) (before : PartnerTable) where
  abbrev Lasts : PartnerTable → Type 0
  Lasts rows = map lasting rows ≡ before

  update-Lasts :
      (p : Partner) (doc pem push_url pull_url : String) (b : Backend PartnerTable)
      → All (Refreshed p.id) before
      → Lasts b.content
      → Lasts (update_did_document env now p.id doc pem push_url pull_url "" b).1.content
  unfolding update_did_document raise
  update-Lasts p doc pem push_url pull_url b h k = go (fingerprint_or env "" pem)
    where
      go :
          (o : Result String)
          → Lasts (store_did_columns env now p.id doc pem push_url pull_url "" o b).1.content
      go (err e) = k
      go (ok fp) =
          command-keeps Lasts _ b k (
            update-lasting p.id _ b.content (λ r. refl) (subst (All (Refreshed p.id)) (sym k) h)
            ∙ k)

  refresh_partner-Lasts :
      (p : Partner) (b : Backend PartnerTable)
      → All (Refreshed p.id) before
      → Lasts b.content
      → Lasts (refresh_partner env w now p b).1.content
  unfolding refresh_partner raise
  refresh_partner-Lasts p b h k = go (resolve_did_key env w.resolver_enabled now p.did_uri)
    where
      exported :
          (url : String) (o : Result String) → Lasts (store_document env w now p url o b).1.content
      exported url (err e) = k
      exported url (ok pem) = update-Lasts p _ pem url _ b h k

      go : (o : Result (env.PublicKey × String)) → Lasts (store_resolved env w now p o b).1.content
      go (err e) = k
      go (ok (key, url)) = exported url (env.export_public_key_pem key)

  refresh_each-Lasts :
      (partners : List Partner) (b : Backend PartnerTable)
      → All (λ (p : Partner). All (Refreshed p.id) before) partners
      → Lasts b.content
      → Lasts (refresh_each env w now partners b).1.content
  unfolding refresh_each ◌>>=◌ attempt pure
  refresh_each-Lasts [] b h k = k
  refresh_each-Lasts (p ∷ rest) b (h, hs) k = elim (Bool-cases (is_fresh w now p)) [
    | inl e ↦ rw e (refresh_each-Lasts rest b hs k)
    | inr e ↦ rw e (
        refresh_each-Lasts rest (refresh_partner env w now p b).1 hs
          (refresh_partner-Lasts p b h k))
  ]

-- Whatever fails, and whatever the resolved documents say, a refresh changes no row of a partner that
-- is disabled or has no did:web DID, and of the others only the columns of the DID document, the
-- key, its fingerprint and the two URLs, and the time of the update.
pub refresh_all-lasting :
    (env : Environment) (w : PartnerRefreshWorker) (now : ℕ) (b : Backend PartnerTable)
    → DistinctPartners b.content
    → map lasting (refresh_all env w now b).1.content ≡ map lasting b.content
unfolding refresh_all list_did_web_partners is_refreshed ◌>>=◌ attempt pure
refresh_all-lasting env w now b d = go (list_did_web_partners b).0 refl
  where
    listing : PartnerTable → List Partner
    listing rows = map scan_partner (filter is_refreshed rows)

    go :
        (o : Result (List Partner))
        → (list_did_web_partners b).0 ≡ o
        → map lasting (refresh_listed env w now o (list_did_web_partners b).1).1.content
          ≡ map lasting b.content
    go (err e) same = ap (map lasting) (content-query listing b)
    go (ok partners) same =
        refresh_each-Lasts env w now (map lasting b.content) partners (list_did_web_partners b).1
          (subst (All (λ (p : Partner). All (Refreshed p.id) (map lasting b.content)))
            (sym (query-ok listing b same)) (listed-Refreshed b.content d))
          (ap (map lasting) (content-query listing b))
