-- ===== src/Startup/Bootstrap/Again.antt =====
-- What a second start does to the partners of the configuration (partner_command.go).
use go_fdo_voucher_managemen.Prelude.{
  ℕ, ◌≡◌, refl, sym, ◌∙◌, ap, String, Bool, true, false, ◌||◌, List, [], ◌∷◌, ◌++◌, All, ◌==◌,
  eq_refl, if◌then◌else◌, arith,
}
use go_fdo_voucher_managemen.Backend.{Result, ok, err}
use go_fdo_voucher_managemen.Backend.Laws.{IsReliable}
use go_fdo_voucher_managemen.Config.{PartnerConfig}
use go_fdo_voucher_managemen.Disk.{Files}
use go_fdo_voucher_managemen.Environment.{Environment}
use go_fdo_voucher_managemen.Partner.{PartnerTable, to_row, stamped, fingerprint_or}
use go_fdo_voucher_managemen.World.{World}
use go_fdo_voucher_managemen.Startup.{configured_partner, bootstrap_partners}
use go_fdo_voucher_managemen.Startup.Bootstrap.{
  key_text, add_row, is_enrolled, enrolled, enrolled_all, with_partners, bootstrap_reliable,
}

module _ (env : Environment) where
  -- an entry that another start leaves alone
  abbrev is_keyless : Result String → Bool
  is_keyless (err e) = true
  is_keyless (ok fp) = false

  abbrev IsSettled : Files → PartnerTable → PartnerConfig → Type 0
  IsSettled files rows pc =
      (pc.id == ""
        || is_enrolled env pc.id rows
        || is_keyless (fingerprint_or env "" (key_text env files pc.key_file)))
      ≡ true

  is_enrolled-append :
      (id : String) (rows more : PartnerTable)
      → is_enrolled env id (rows ++ more) ≡ (is_enrolled env id rows || is_enrolled env id more)
  is_enrolled-append id [] more = refl
  is_enrolled-append id (r ∷ rows) more = ground (arith, is_enrolled-append id rows more)

  append_nil : (rows : PartnerTable) → rows ++ [] ≡ rows
  append_nil [] = refl
  append_nil (r ∷ rows) = ap (λ l. r ∷ l) (append_nil rows)

  -- what one entry adds
  enrolled-append :
      (now : ℕ) (files : Files) (pc : PartnerConfig) (rows : PartnerTable)
      → (added : PartnerTable) × (enrolled env now files pc rows ≡ rows ++ added)
  unfolding enrolled
  enrolled-append now files pc rows =
      go (pc.id == "" || is_enrolled env pc.id rows)
        (fingerprint_or env "" (key_text env files pc.key_file))
    where
      go :
          (c : Bool) (o : Result String)
          → (added : PartnerTable) × ((if c
                then rows
                else add_row env now
                    (configured_partner env now pc (key_text env files pc.key_file))
                    o
                    rows)
              ≡ rows ++ added)
      go true o = ([], sym (append_nil rows))
      go false (err e) = ([], sym (append_nil rows))
      go false (ok fp) = (_, refl)

  enrolled-IsSettled :
      (now : ℕ) (files : Files) (pc : PartnerConfig) (rows : PartnerTable)
      → IsSettled files (enrolled env now files pc rows) pc
  unfolding enrolled to_row stamped configured_partner
  enrolled-IsSettled now files pc rows =
      go (pc.id == "" || is_enrolled env pc.id rows) refl
        (fingerprint_or env "" (key_text env files pc.key_file))
    where
      go :
          (c : Bool)
          → (pc.id == "" || is_enrolled env pc.id rows) ≡ c
          → (o : Result String)
          → (pc.id == ""
              || is_enrolled env pc.id (
                  if c
                  then rows
                  else add_row env now
                      (configured_partner env now pc (key_text env files pc.key_file))
                      o
                      rows)
              || is_keyless o)
            ≡ true
      go true e o = ground (arith, e)
      go false e (err x) = ground arith
      go false e (ok fp) = ground (
        arith,
        is_enrolled-append pc.id rows (
            to_row
              (stamped env now (configured_partner env now pc (key_text env files pc.key_file)) fp)
            ∷ []),
        eq_refl pc.id,
      )

  enrolled_settled :
      (now : ℕ) (files : Files) (pc : PartnerConfig) (rows : PartnerTable)
      → IsSettled files rows pc
      → enrolled env now files pc rows ≡ rows
  unfolding enrolled
  enrolled_settled now files pc rows h =
      go (pc.id == "" || is_enrolled env pc.id rows) refl
        (fingerprint_or env "" (key_text env files pc.key_file)) h
    where
      go :
          (c : Bool)
          → (pc.id == "" || is_enrolled env pc.id rows) ≡ c
          → (o : Result String) → (pc.id == "" || is_enrolled env pc.id rows || is_keyless o) ≡ true
          → (if c
              then rows
              else add_row env now
                  (configured_partner env now pc (key_text env files pc.key_file))
                  o
                  rows)
            ≡ rows
      go true e o k = refl
      go false e (err x) k = refl
      go false e (ok fp) k = absurd (ground (arith, e, k))

  -- rows that are added unsettle no entry
  IsSettled-append :
      (files : Files) (rows added : PartnerTable) (pc : PartnerConfig)
      → IsSettled files rows pc
      → IsSettled files (rows ++ added) pc
  IsSettled-append files rows added pc h = ground (arith, is_enrolled-append pc.id rows added, h)

  append_assoc : (a b c : PartnerTable) → (a ++ b) ++ c ≡ a ++ (b ++ c)
  append_assoc [] b c = refl
  append_assoc (r ∷ a) b c = ap (λ l. r ∷ l) (append_assoc a b c)

  enrolled_all-append :
      (now : ℕ) (files : Files) (pcs : List PartnerConfig) (rows : PartnerTable)
      → (added : PartnerTable) × (enrolled_all env now files pcs rows ≡ rows ++ added)
  unfolding enrolled_all
  enrolled_all-append now files [] rows = ([], sym (append_nil rows))
  enrolled_all-append now files (pc ∷ rest) rows =
      let (one, e) = enrolled-append now files pc rows in
      let (more, f) = enrolled_all-append now files rest (enrolled env now files pc rows) in
      (one ++ more, f ∙ ap (λ l. l ++ more) e ∙ append_assoc rows one more)

  enrolled_all-IsSettled :
      (now : ℕ) (files : Files) (pcs : List PartnerConfig) (rows : PartnerTable)
      → All (IsSettled files (enrolled_all env now files pcs rows)) pcs
  unfolding enrolled_all
  enrolled_all-IsSettled now files [] rows = tt
  enrolled_all-IsSettled now files (pc ∷ rest) rows =
      let (more, f) = enrolled_all-append now files rest (enrolled env now files pc rows) in
      (
        rw f (
            IsSettled-append files (enrolled env now files pc rows) more pc
              (enrolled-IsSettled now files pc rows)),
        enrolled_all-IsSettled now files rest (enrolled env now files pc rows),
      )

  enrolled_all_settled :
      (now : ℕ) (files : Files) (pcs : List PartnerConfig) (rows : PartnerTable)
      → All (IsSettled files rows) pcs
      → enrolled_all env now files pcs rows ≡ rows
  unfolding enrolled_all
  enrolled_all_settled now files [] rows h = refl
  enrolled_all_settled now files (pc ∷ rest) rows (h, hs) =
      rw (enrolled_settled now files pc rows h) (enrolled_all_settled now files rest rows hs)

  -- With a disk and a partner table that do not fail, a start keeps every partner's row as it is, and adds
  -- rows after them; a second start with the same entries and key files, at any later time, changes
  -- no row.
  pub bootstrap_partners_idempotent :
      (now later : ℕ) (pcs : List PartnerConfig) (w : World)
      → IsReliable w.partners
      → IsReliable w.disk
      → (added : PartnerTable) × ((bootstrap_partners env now pcs w).1.partners.content
          ≡ w.partners.content ++ added)
        × ((bootstrap_partners env later pcs
              (bootstrap_partners env now pcs w).1).1.partners.content
            ≡ (bootstrap_partners env now pcs w).1.partners.content)
  bootstrap_partners_idempotent now later pcs w rel calm =
      let rows = enrolled_all env now w.disk.content pcs w.partners.content in
      let (added, e) = enrolled_all-append now w.disk.content pcs w.partners.content in
      (
        added,
        rw (bootstrap_reliable env now pcs w rel calm) e,
        rw (bootstrap_reliable env now pcs w rel calm) (
            rw (bootstrap_reliable env later pcs (with_partners env w rows) refl refl) (
              enrolled_all_settled later w.disk.content pcs rows
                (enrolled_all-IsSettled now w.disk.content pcs w.partners.content))),
      )
