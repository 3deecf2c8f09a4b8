-- ===== src/Assign/Laws.antt =====
-- What an assignment (voucher_assign_handler.go) does, and what it refuses.
use go_fdo_voucher_managemen.Prelude.{
  ℕ, ◌≡◌, refl, sym, ap, false≢true, ◌∙◌, ◌⊎◌, inl, inr, String, true, false, ◌&&◌, List, [], ◌∷◌,
  ◌==◌, eq_refl, All, All-filter, All-mem, any-at, Memᴰ, Bool-cases, arith,
}
use go_fdo_voucher_managemen.Prelude.Order.{All-sort_by}
use mathlib.Core.Path.{subst}
use go_fdo_voucher_managemen.Backend.{Result, ok, err, pure, attempt, ◌>>=◌}
use go_fdo_voucher_managemen.Backend.Laws.{IsReliable, query_reliable}
use go_fdo_voucher_managemen.Environment.{Environment}
use go_fdo_voucher_managemen.Identity.{is_global}
use go_fdo_voucher_managemen.Transmission.{VoucherTransmissionRecord, Tables}
use go_fdo_voucher_managemen.Transmission.Store.{newest_first, select_serial, fetch_by_serial}
use go_fdo_voucher_managemen.Transmission.Grants.{owns}
use go_fdo_voucher_managemen.Transmission.Access.{may_see, has_access_by_guid_reliable}
use go_fdo_voucher_managemen.World.{World, on_tables}
use go_fdo_voucher_managemen.Assign.Answers.{
  KeepsContent, KeepsContent-query, Answers-assign_record, handed_over,
}
use go_fdo_voucher_managemen.Assign.{
  VoucherAssignHandler, AssignResult, Assignment, not_found, assign_record, assign_first,
  assign_voucher,
}

abbrev Row : Type 0
Row = VoucherTransmissionRecord

-- A result comes back whatever fails, and the rows and grants are as before unless it says "ok".
abbrev pub Answered : Result AssignResult × World → World → Type 0
Answered (got, after) w =
    (r : AssignResult) × (got ≡ ok r)
    × (((r.status == "ok") ≡ true) ⊎ (after.tables.content ≡ w.tables.content))

looked : (serial : String) → KeepsContent (on_tables (fetch_by_serial serial))
unfolding fetch_by_serial
looked serial = KeepsContent-query _

-- An assignment of a serial always comes to a result, under any outages of the tables and the disk,
-- and a result that does not say "ok" has left every row and every access grant as it was.
pub assign_voucher-Answered :
    (env : Environment) (h : VoucherAssignHandler) (now : ℕ) (a : Assignment) (key : env.PublicKey)
    (w : World)
    → Answered (assign_voucher env h now a key w) w
unfolding assign_voucher ◌>>=◌ attempt pure
assign_voucher-Answered env h now a key w =
    go (on_tables (fetch_by_serial a.serial) w).0 (on_tables (fetch_by_serial a.serial) w).1
      ((looked a.serial).at w)
  where
    go :
        (found : Result (List Row)) (w' : World)
        → w'.tables.content ≡ w.tables.content
        → Answered (assign_first env h now a key found w') w
    go (err e) w' same = unfold assign_first in (_, refl, inr same)
    go (ok []) w' same = unfold assign_first in (_, refl, inr same)
    go (ok (rec ∷ older)) w' same =
        unfold assign_first in
        (let (r, got, how) = (Answers-assign_record env h now a rec key).at w' in
          (r, got, elim how [ inl (p, _) ↦ inl p | inr (_, q) ↦ inr (q ∙ same) ]))

abbrev status_of : Result AssignResult → String
status_of (ok r) = r.status
status_of (err e) = ""

-- the result that came back is the one that is spoken of
not_fine :
    (o : Result AssignResult) (s : String) (r : AssignResult)
    → status_of o ≡ s
    → (s == "ok") ≡ false
    → o ≡ ok r
    → (r.status == "ok") ≡ true
    → ⊥
not_fine o s r at other got fine =
    false≢true (sym other ∙ ap (λ t. t == "ok") (sym at ∙ ap status_of got) ∙ fine)

abbrev calmed : World → World
calmed w = record w { tables = record { content = w.tables.content; outages = [] } }

read_first :
    (env : Environment) (h : VoucherAssignHandler) (now : ℕ) (a : Assignment) (key : env.PublicKey)
    (w : World)
    → IsReliable w.tables
    → assign_voucher env h now a key w
      ≡ assign_first env h now a key (ok (select_serial a.serial w.tables.content)) (calmed w)
unfolding assign_voucher fetch_by_serial on_tables ◌>>=◌ attempt
read_first env h now a key w rel = rw (query_reliable (select_serial a.serial) w.tables rel) refl

-- With tables that do not fail, an assignment whose result says "ok" has marked the newest voucher
-- of the serial as assigned to the new owner, and has given the caller, where it has a fingerprint,
-- and the new owner an access grant to it; no other row and no other grant has changed.
pub assign_voucher-handed_over :
    (env : Environment) (h : VoucherAssignHandler) (now : ℕ) (a : Assignment) (key : env.PublicKey)
    (w : World) (r : AssignResult)
    → IsReliable w.tables
    → (assign_voucher env h now a key w).0 ≡ ok r
    → (r.status == "ok") ≡ true
    → (rec : Row) × (older : List Row) × (select_serial a.serial w.tables.content ≡ rec ∷ older)
      × ((assign_voucher env h now a key w).1.tables.content
          ≡ handed_over now a rec w.tables.content)
assign_voucher-handed_over env h now a key w r rel got fine =
    rw (read_first env h now a key w rel) (
      go (select_serial a.serial w.tables.content) refl (
        sym (ap (λ (p : Result AssignResult × World). p.0) (read_first env h now a key w rel))
        ∙ got))
  where
    go :
        (rows : List Row)
        → select_serial a.serial w.tables.content ≡ rows
        → (assign_first env h now a key (ok rows) (calmed w)).0 ≡ ok r
        → (rec : Row) × (older : List Row) × (select_serial a.serial w.tables.content ≡ rec ∷ older)
          × ((assign_first env h now a key (ok rows) (calmed w)).1.tables.content
              ≡ handed_over now a rec w.tables.content)
    go [] e q =
        let at : status_of (assign_first env h now a key (ok []) (calmed w)).0 ≡ "error" =
          unfold assign_first pure in refl in
        absurd
          (not_fine (assign_first env h now a key (ok []) (calmed w)).0 "error" r at refl q fine)
    go (rec ∷ older) e q =
        unfold assign_first in
        (let (s, came, how) = (Answers-assign_record env h now a rec key).at (calmed w) in
          elim how [
            | inl (p, effect) ↦ (rec, older, e, effect refl)
            | inr (p, same) ↦ absurd (not_fine _ s.status r (ap status_of came) p q fine)
          ])

-- rows of a serial are rows of the table
serial-All :
    (serial : String) (t : Tables) → All (λ r. Memᴰ r t.transmissions) (select_serial serial t)
unfolding select_serial
serial-All serial t =
    All-sort_by newest_first (λ r. Memᴰ r t.transmissions) _
      (All-filter (λ r. Memᴰ r t.transmissions) _ t.transmissions (All-mem t.transmissions))

-- an owner of a row may see it
stranger :
    (fp : String) (r : Row) (t : Tables)
    → Memᴰ r t.transmissions
    → may_see r.voucher_guid fp t ≡ false
    → (r.owner_key_fingerprint == fp) ≡ false
unfolding may_see owns
stranger fp r t m h = elim (Bool-cases (r.owner_key_fingerprint == fp)) [
  | inr e ↦ e
  | inl e ↦
      (let own : (r.voucher_guid == r.voucher_guid && r.owner_key_fingerprint == fp) ≡ true =
          rw (e, eq_refl r.voucher_guid) refl in
        absurd (
          ground (
            arith,
            h,
            any-at (λ (q : Row). q.voucher_guid == r.voucher_guid && q.owner_key_fingerprint == fp)
                t.transmissions m own,
          )))
]

-- With no outage, a caller that is not the global one, has a fingerprint and may not see the newest
-- voucher of a serial gets the answer that a serial without vouchers gets, and nothing changes.
pub assign_voucher_stranger :
    (env : Environment) (h : VoucherAssignHandler) (now : ℕ) (a : Assignment) (key : env.PublicKey)
    (w : World) (rec : Row) (older : List Row)
    → IsReliable w.tables
    → is_global a.caller.auth_method ≡ false
    → (a.caller.fingerprint == "") ≡ false
    → select_serial a.serial w.tables.content ≡ rec ∷ older
    → may_see rec.voucher_guid a.caller.fingerprint w.tables.content ≡ false
    → assign_voucher env h now a key w ≡ (
      ok (not_found a.serial),
      record w { tables = record { content = w.tables.content; outages = [] } },
    )
unfolding assign_voucher fetch_by_serial on_tables ◌>>=◌ attempt assign_first assign_record pure
assign_voucher_stranger env h now a key w rec older rel local named newest unseen =
    let there : All (λ (r : Row). Memᴰ r w.tables.content.transmissions) (rec ∷ older) =
      subst (λ l. All (λ (r : Row). Memᴰ r w.tables.content.transmissions) l) newest
        (serial-All a.serial w.tables.content) in
    let mine : (rec.owner_key_fingerprint == a.caller.fingerprint) ≡ false =
      stranger a.caller.fingerprint rec w.tables.content there.0 unseen in
    rw (query_reliable (select_serial a.serial) w.tables rel, newest, local, named)
      (rw
        (
          has_access_by_guid_reliable rec.voucher_guid a.caller.fingerprint
              (record { content = w.tables.content; outages = [] }) refl,
          unseen,
          mine,
        )
        refl)
