-- ===== src/Startup/Bootstrap.antt =====
-- The partners of the configuration, enrolled at a start (bootstrapPartners of partner_command.go),
-- as a function of the table and the key files.
pub mod Again
use go_fdo_voucher_managemen.Prelude.{
  ℕ, ◌≡◌, refl, sym, ◌∙◌, ap, inl, inr, String, Bool, true, false, ◌||◌, Option, none, some, List,
  [], ◌∷◌, ◌++◌, filter, any, All, ◌==◌, eq_refl, Bool-cases, if◌then◌else◌, arith,
}
use go_fdo_voucher_managemen.Backend.{
  Error, rejected, Result, ok, err, Exec, Backend, pure, raise, attempt, continue, ◌>>=◌, statement,
}
use go_fdo_voucher_managemen.Backend.Laws.{IsReliable, statement_reliable}
use go_fdo_voucher_managemen.Config.{PartnerConfig}
use go_fdo_voucher_managemen.Disk.{Files, lookup, or_missing, read_file}
use go_fdo_voucher_managemen.Environment.{Environment}
use go_fdo_voucher_managemen.Partner.{
  Partner, PartnerRow, PartnerTable, to_row, scan_first, stamped, insert_partner, fingerprint_or,
  insert_stamped, get, add,
}
use go_fdo_voucher_managemen.World.{World, on_disk, on_partners}
use go_fdo_voucher_managemen.Startup.{
  key_or_empty, read_key, configured_partner, enrol_missing, enrol, bootstrap_partners,
}

module _ (env : Environment) where
  -- the key text that an entry's file gives
  abbrev pub key_text : Files → String → String
  key_text files key_file =
      if key_file == "" then "" else key_or_empty env 0 (or_missing (lookup key_file files))

  abbrev pub is_enrolled : String → PartnerTable → Bool
  is_enrolled id rows = any (λ r. r.id == id) rows

  abbrev pub add_row : ℕ → Partner → Result String → PartnerTable → PartnerTable
  add_row now p (err e) rows = rows
  add_row now p (ok fp) rows = rows ++ to_row (stamped env now p fp) ∷ []

  -- one entry: nothing where its id is empty or taken, and else a row, if its key has a fingerprint
  unfoldable pub enrolled : ℕ → Files → PartnerConfig → PartnerTable → PartnerTable
  enrolled now files pc rows =
      if pc.id == "" || is_enrolled pc.id rows
      then rows
      else add_row now (configured_partner env now pc (key_text files pc.key_file))
          (fingerprint_or env "" (key_text files pc.key_file)) rows

  unfoldable pub enrolled_all : ℕ → Files → List PartnerConfig → PartnerTable → PartnerTable
  unfolding enrolled
  enrolled_all now files [] rows = rows
  enrolled_all now files (pc ∷ rest) rows = enrolled_all now files rest (enrolled now files pc rows)

  abbrev pub with_partners : World → PartnerTable → World
  with_partners w rows = record w {
    partners = record { content = rows; outages = [] };
    disk = record { content = w.disk.content; outages = [] };
  }

  read_key_reliable :
      (now : ℕ) (key_file : String) (w : World)
      → IsReliable w.disk
      → read_key env now key_file w ≡ (
        ok (key_text w.disk.content key_file),
        record w { disk = record { content = w.disk.content; outages = [] } },
      )
  unfolding read_key read_file on_disk pure attempt ◌>>=◌
  read_key_reliable now key_file w rel = elim (Bool-cases (key_file == "")) [
    | inl e ↦ rw (e, ← rel) refl
    | inr e ↦ rw (e, statement_reliable _ w.disk rel) refl
  ]

  get_reliable :
      (id : String) (b : Backend PartnerTable)
      → IsReliable b
      → get id b ≡ (
        scan_first (filter (λ r. r.id == id) b.content),
        record { content = b.content; outages = [] },
      )
  unfolding get
  get_reliable id b rel = statement_reliable _ b rel

  found :
      (id : String) (rows : PartnerTable)
      → is_enrolled id rows ≡ true
      → (p : Partner) × (scan_first (filter (λ r. r.id == id) rows) ≡ ok p)
  found id [] e = absurd (cc)
  found id (r ∷ rows) e = elim (Bool-cases (r.id == id)) [
    | inl k ↦ rw k (_, refl)
    | inr k ↦ rw k (found id rows (ground (arith, e, k)))
  ]

  missing :
      (id : String) (rows : PartnerTable)
      → is_enrolled id rows ≡ false
      → (e : Error) × (scan_first (filter (λ r. r.id == id) rows) ≡ err e)
  missing id [] e = (_, refl)
  missing id (r ∷ rows) e = elim (Bool-cases (r.id == id)) [
    | inl k ↦ absurd (ground (arith, e, k))
    | inr k ↦ rw k (missing id rows (ground (arith, e, k)))
  ]

  add_reliable :
      (now : ℕ) (p : Partner) (o : Result String) (b : Backend PartnerTable)
      → IsReliable b
      → is_enrolled p.id b.content ≡ false
      → (insert_stamped env now p o b).1
        ≡ record { content = add_row now p o b.content; outages = [] }
  unfolding raise to_row stamped insert_partner
  add_reliable now p (err e) b rel free = rw (← rel) refl
  add_reliable now p (ok fp) b rel free =
      rw (statement_reliable (insert_partner (to_row (stamped env now p fp))) b rel) (rw free refl)

  enrol_reliable :
      (now : ℕ) (pc : PartnerConfig) (w : World)
      → IsReliable w.partners
      → IsReliable w.disk
      → enrol env now pc w
        ≡ (ok tt, with_partners w (enrolled now w.disk.content pc w.partners.content))
  unfolding enrol enrolled pure attempt on_partners ◌>>=◌ add configured_partner
  enrol_reliable now pc w rel calm = elim (Bool-cases (pc.id == "")) [
    | inl e ↦ rw e (quiet rel ∙ ap (λ o. done (with_disk o)) calm)
    | inr e ↦ elim (Bool-cases (is_enrolled pc.id w.partners.content)) [
      | inl k ↦
          (let (p, is) = found pc.id w.partners.content k in
            rw (e, k, get_reliable pc.id w.partners rel)
              (rw is (ap (λ o. done (with_disk o)) calm)))
      | inr k ↦
          (let (x, is) = missing pc.id w.partners.content k in
            rw (e, k, get_reliable pc.id w.partners rel)
              (rw is (
                rw (read_key_reliable now pc.key_file (with_calm w) calm) (
                  rw
                    (add_reliable now
                      (configured_partner env now pc (key_text w.disk.content pc.key_file))
                      (fingerprint_or env "" (key_text w.disk.content pc.key_file))
                      (record { content = w.partners.content; outages = [] }) refl k)
                    refl))))
    ]
  ]
    where
      done : World → Result (Unit {0}) × World
      done v = (ok tt, v)

      with_calm : World → World
      with_calm v = record v { partners = record { content = v.partners.content; outages = [] } }

      with_disk : List Bool → World
      with_disk o = record (with_calm w) { disk = record { content = w.disk.content; outages = o } }

      quiet : w.partners.outages ≡ [] → done w ≡ done (with_disk w.disk.outages)
      quiet h =
          ap
            (λ o.
              done (record w { partners = record { content = w.partners.content; outages = o } }))
            h

  same_world :
      (w : World)
      → IsReliable w.partners
      → IsReliable w.disk
      → w ≡ with_partners w w.partners.content
  same_world w rel calm =
      ap (λ o. record w { partners = record { content = w.partners.content; outages = o } }) rel
      ∙ ap
          (λ o. record w {
            partners = record { content = w.partners.content; outages = [] };
            disk = record { content = w.disk.content; outages = o };
          })
          calm

  pub bootstrap_reliable :
      (now : ℕ) (pcs : List PartnerConfig) (w : World)
      → IsReliable w.partners
      → IsReliable w.disk
      → bootstrap_partners env now pcs w
        ≡ (ok tt, with_partners w (enrolled_all now w.disk.content pcs w.partners.content))
  unfolding bootstrap_partners enrolled_all pure ◌>>=◌
  bootstrap_reliable now [] w rel calm =
      ap {B = Result (Unit {0}) × World} (λ v. (ok tt, v)) (same_world w rel calm)
  bootstrap_reliable now (pc ∷ rest) w rel calm = rw (enrol_reliable now pc w rel calm) (
      bootstrap_reliable now rest
        (with_partners w (enrolled now w.disk.content pc w.partners.content)) refl refl)
