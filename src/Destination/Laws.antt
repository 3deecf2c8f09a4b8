-- ===== src/Destination/Laws.antt =====
-- What ResolveDestination of voucher_destination.go may answer.
use go_fdo_voucher_managemen.Prelude.{
  ℕ, ◌≡◌, refl, ◌≢◌, ◌∙◌, ap, inl, inr, String, Bool, true, ◌&&◌, not, Option, none, some, Memᴰ,
  ◌==◌, eq_iff, Bool-cases, arith,
}
use go_fdo_voucher_managemen.Backend.{Result, ok, err, Backend, continue, ◌>>=◌}
use go_fdo_voucher_managemen.Config.{Config}
use go_fdo_voucher_managemen.Environment.{Environment}
use go_fdo_voucher_managemen.Partner.{
  Partner, PartnerRow, PartnerTable, get_by_fingerprint, matches_fingerprint, scan_partner,
}
use go_fdo_voucher_managemen.Partner.Trust.{get_by_fingerprint-ok}
use go_fdo_voucher_managemen.Destination.{
  VoucherDestination, VoucherDestinationResolver, partner_destination, partner_or_none,
  resolve_via_partner, by_callback, resolve_via_callback, by_partner, resolve_configured,
  or_configured, after_callback, resolve_destination,
}

-- A destination that came from the callback, from an enabled row of the partners table that holds
-- the next owner's fingerprint and may receive vouchers, from the DID, or from the configuration.
pub data Routed (env : Environment) (cfg : Config) (now : ℕ) (serial model guid did_url fp : String)
    (rows : PartnerTable) : VoucherDestination → Type 0 where
  by_command :
      {d : VoucherDestination}
      → cfg.destination_callback.enabled ≡ true
      → env.destination_command now serial model guid ≡ ok d.url
      → Routed env cfg now serial model guid did_url fp rows d
  to_partner :
      {d : VoucherDestination} (r : PartnerRow)
      → Memᴰ r rows
      → matches_fingerprint fp r ≡ true
      → (scan_partner r).can_receive_vouchers ≡ true
      → (scan_partner r).push_url ≡ d.url
      → Routed env cfg now serial model guid did_url fp rows d
  to_did :
      {d : VoucherDestination}
      → cfg.did_push_enabled ≡ true
      → did_url ≡ d.url
      → Routed env cfg now serial model guid did_url fp rows d
  to_static :
      {d : VoucherDestination}
      → cfg.push_service.enabled ≡ true
      → cfg.push_service.url ≡ d.url
      → Routed env cfg now serial model guid did_url fp rows d

-- what a successful resolution promises of its destination
abbrev pub Promise :
    (env : Environment) (cfg : Config) (now : ℕ) (serial model guid did_url fp : String)
    → PartnerTable
    → VoucherDestination
    → Type 0
Promise env cfg now serial model guid did_url fp rows d =
    (d.url ≢ "")
    × (d.mode ≡ cfg.push_service.mode)
    × Routed env cfg now serial model guid did_url fp rows d

module _ (env : Environment) (cfg : Config) (now : ℕ) (serial model guid did_url fp : String) where
  by_callback-some :
      (has : Bool) (rows : PartnerTable) {d : VoucherDestination}
      → by_callback env cfg has now serial model guid ≡ some d
      → Promise env cfg now serial model guid did_url fp rows d
  unfolding by_callback resolve_via_callback
  by_callback-some has rows {d} h = go (env.destination_command now serial model guid) refl
    where
      go :
          (o : Result String)
          → env.destination_command now serial model guid ≡ o
          → Promise env cfg now serial model guid did_url fp rows d
      go (err e) q = absurd (ground arith)
      go (ok output) q = (
        ground (arith, eq_iff output ""),
        ground arith,
        by_command (ground arith) (q ∙ ap ok (ground arith)),
      )

  partner_destination-some :
      (rows : PartnerTable) (p : Partner) (r : PartnerRow) {d : VoucherDestination}
      → Memᴰ r rows
      → matches_fingerprint fp r ≡ true
      → scan_partner r ≡ p
      → partner_destination cfg p ≡ some d
      → Promise env cfg now serial model guid did_url fp rows d
  unfolding partner_destination
  partner_destination-some rows p r {d} listed matches scanned h = (
    ground (arith, eq_iff p.push_url ""),
    ground arith,
    to_partner r listed matches
        (ap (λ (q : Partner). q.can_receive_vouchers) scanned ∙ ground arith)
        (ap (λ (q : Partner). q.push_url) scanned ∙ ground arith),
  )

  resolve_configured-ok :
      (rows : PartnerTable) {d : VoucherDestination}
      → resolve_configured cfg did_url ≡ ok d
      → Promise env cfg now serial model guid did_url fp rows d
  unfolding resolve_configured
  resolve_configured-ok rows {d} h =
      elim (Bool-cases (cfg.did_push_enabled && not (did_url == ""))) [
        | inl did ↦
            (ground (arith, eq_iff did_url ""), ground arith, to_did (ground arith) (ground arith))
        | inr other ↦ (
          ground (arith, eq_iff cfg.push_service.url ""),
          ground arith,
          to_static (ground arith) (ground arith),
        )
      ]

  partner_or_none-some :
      (o : Result Partner) {d : VoucherDestination}
      → partner_or_none cfg o ≡ some d
      → (p : Partner) × (o ≡ ok p) × (partner_destination cfg p ≡ some d)
  partner_or_none-some (ok p) h = (p, refl, h)
  partner_or_none-some (err e) h = absurd (cc)

  by_partner-some :
      (has : Bool) (b : Backend PartnerTable) {d : VoucherDestination}
      → (by_partner cfg has fp b).0 ≡ ok (some d)
      → Promise env cfg now serial model guid did_url fp b.content d
  unfolding by_partner resolve_via_partner ◌>>=◌
  by_partner-some has b {d} h =
      let (p, looked, made) =
        partner_or_none-some (get_by_fingerprint fp b).0 {d = d} (ground arith) in
      let (r, listed, matches, scanned) = get_by_fingerprint-ok fp b {p = p} looked in
      partner_destination-some b.content p r listed matches scanned made

  or_configured-ok :
      (rows : PartnerTable) (o : Option VoucherDestination) {d : VoucherDestination}
      → ((c : VoucherDestination)
          → o ≡ some c
          → Promise env cfg now serial model guid did_url fp rows c)
      → or_configured cfg did_url o ≡ ok d
      → Promise env cfg now serial model guid did_url fp rows d
  or_configured-ok rows (some c) {d} f h = f d (ap some (ground arith))
  or_configured-ok rows none f h = resolve_configured-ok rows h

  after_partner-ok :
      (has : Bool) (b t : Backend PartnerTable) (o : Result (Option VoucherDestination))
      {d : VoucherDestination}
      → (by_partner cfg has fp b).0 ≡ o
      → (continue o (λ c u. (or_configured cfg did_url c, u)) t).0 ≡ ok d
      → Promise env cfg now serial model guid did_url fp b.content d
  after_partner-ok has b t (err e) q h = absurd (cc)
  after_partner-ok has b t (ok c) {d} q h =
      or_configured-ok b.content c {d = d} (λ d' e. by_partner-some has b {d = d'} (q ∙ ap ok e)) h

  after_callback-ok :
      (has has_store : Bool) (b : Backend PartnerTable) (o : Option VoucherDestination)
      {d : VoucherDestination}
      → by_callback env cfg has now serial model guid ≡ o
      → (after_callback cfg has_store did_url fp o b).0 ≡ ok d
      → Promise env cfg now serial model guid did_url fp b.content d
  unfolding after_callback ◌>>=◌
  after_callback-ok has has_store b (some c) {d} q h =
      by_callback-some has b.content {d = d} (q ∙ ap some (ground arith))
  after_callback-ok has has_store b none {d} q h =
      after_partner-ok has_store b (by_partner cfg has_store fp b).1
        (by_partner cfg has_store fp b).0 {d = d} refl h

-- Whatever the outages, a destination that ResolveDestination returns has a URL that is not empty
-- and the configured mode, and its URL is that of the enabled callback, of an enabled partner row
-- that holds the fingerprint and may receive vouchers, of the DID, or of the static configuration.
pub resolve_destination-Routed :
    (env : Environment) (cfg : Config) (r : VoucherDestinationResolver) (now : ℕ)
    (serial model guid did_url fp : String) (b : Backend PartnerTable) {d : VoucherDestination}
    → r.config ≡ some cfg
    → (resolve_destination env r now serial model guid did_url fp b).0 ≡ ok d
    → (d.url ≢ "")
      × (d.mode ≡ cfg.push_service.mode)
      × Routed env cfg now serial model guid did_url fp b.content d
unfolding resolve_destination
resolve_destination-Routed env cfg r now serial model guid did_url fp b {d} set h =
    after_callback-ok env cfg now serial model guid did_url fp r.has_callback_executor
      r.has_partner_store b (by_callback env cfg r.has_callback_executor now serial model guid)
      {d = d} refl (rw set at h)
