-- ===== src/Assign/Answers.antt =====
-- What each step of an assignment (voucher_assign_handler.go) may come to, by the way it is built.
use go_fdo_voucher_managemen.Prelude.{
  ℕ, ◌≡◌, refl, ◌∙◌, ap, ◌⊎◌, inl, inr, String, Bool, true, false, [], ◌==◌, Bool-cases,
  if◌then◌else◌, arith,
}
use go_fdo_voucher_managemen.Backend.{Result, ok, err, Exec, Backend, pure, attempt, ◌>>=◌, query}
use go_fdo_voucher_managemen.Backend.Laws.{
  IsReliable, content-query, query_reliable, command_reliable,
}
use go_fdo_voucher_managemen.Disk.{Files}
use go_fdo_voucher_managemen.Environment.{Environment, KeyKind, ecdsa, rsa, certificates, other_key}
use go_fdo_voucher_managemen.Transmission.{VoucherTransmissionRecord, AccessGrant, Tables}
use go_fdo_voucher_managemen.Transmission.Store.{update_row, assigned, mark_assigned}
use go_fdo_voucher_managemen.Transmission.Grants.{
  insert_grant, insert_access_grant, has_access_by_guid,
}
use go_fdo_voucher_managemen.World.{World, on_tables, on_disk, answer}
use go_fdo_voucher_managemen.Assign.{
  VoucherAssignHandler, AssignResult, Assignment, refusal, grant_for, record_assignment, after_save,
  after_backup, after_extend, extend_for, after_parse, parse_voucher_file, assign_permitted,
  assign_record,
}

abbrev Row : Type 0
Row = VoucherTransmissionRecord

-- the rows and grants are as before, and still reliable if they were
pub record KeepsContent {A : Type 0} (m : Exec World A) : Type 0 where
  pub at : (w : World) → (m w).1.tables.content ≡ w.tables.content
  pub calm : (w : World) → IsReliable w.tables → IsReliable (m w).1.tables

module _ {A : Type 0} where
  pub KeepsContent-query : (f : Tables → A) → KeepsContent (on_tables (query f))
  unfolding on_tables
  KeepsContent-query f = record {
    at = λ w. content-query f w.tables;
    calm = λ w h. ap (λ p. p.1.outages) (query_reliable f w.tables h);
  }

  pub KeepsContent-on_disk : (m : Exec (Backend Files) A) → KeepsContent (on_disk m)
  unfolding on_disk
  KeepsContent-on_disk m = record { at = λ w. refl; calm = λ w h. h }

-- The grant to the caller, where it has a fingerprint, and that to the new owner.
abbrev pub grant_at : ℕ → AccessGrant → AccessGrant
grant_at now g = record g { granted_at = now }

abbrev pub to_caller : ℕ → Assignment → Row → Tables → Tables
to_caller now a rec t =
    if a.caller.fingerprint == ""
    then t
    else insert_grant (grant_at now (grant_for rec a.serial a.caller.fingerprint "custodian")) t

-- the world with these tables, and no outage of them
abbrev with_tables : World → Tables → World
with_tables w t = record w { tables = record { content = t; outages = [] } }

-- the tables after the row is marked and both parties have their grants
abbrev pub handed_over : ℕ → Assignment → Row → Tables → Tables
handed_over now a rec t =
    insert_grant (grant_at now (grant_for rec a.serial a.new_owner_fingerprint "owner_key")) (
      to_caller now a rec (
        update_row rec.id
          (assigned now a.new_owner_fingerprint a.new_owner_did a.caller.fingerprint) t))

module _ (now : ℕ) (a : Assignment) (rec : Row) where
  -- "ok", and with reliable tables the voucher is handed over; or not, and nothing changed
  abbrev pub Outcome : Result AssignResult × World → World → Type 0
  Outcome (got, after) w =
      (r : AssignResult) × (got ≡ ok r)
      × ((((r.status == "ok") ≡ true)
            × (IsReliable w.tables → after.tables.content ≡ handed_over now a rec w.tables.content))
          ⊎ (((r.status == "ok") ≡ false) × (after.tables.content ≡ w.tables.content)))

  pub record Answers (m : Exec World AssignResult) : Type 0 where
    pub at : (w : World) → Outcome (m w) w

  pub Answers-refusal :
      (serial guid code message : String) → Answers (pure (refusal serial guid code message))
  unfolding pure
  Answers-refusal serial guid code message = record { at = λ w. (_, refl, inr (refl, refl)) }

  Answers-if :
      (b : Bool) (m n : Exec World AssignResult)
      → Answers m
      → Answers n
      → Answers (if b then m else n)
  Answers-if true m n h k = h
  Answers-if false m n h k = k

  Answers-attempt :
      {A : Type 0} (m : Exec World A) (f : Result A → Exec World AssignResult)
      → KeepsContent m
      → ((r : Result A) → Answers (f r))
      → Answers (attempt m >>= f)
  unfolding ◌>>=◌ attempt
  Answers-attempt m f h k = record { at = λ w. moved (m w).0 (m w).1 w (h.at w) (h.calm w) }
    where
      moved :
          (r : Result _) (w' w : World)
          → w'.tables.content ≡ w.tables.content
          → (IsReliable w.tables → IsReliable w'.tables)
          → Outcome (f r w') w
      moved r w' w e calm =
          let (s, got, how) = (k r).at w' in
          (
            s,
            got,
            elim how [
              | inl (p, q) ↦ inl (p, λ rel. q (calm rel) ∙ ap (handed_over now a rec) e)
              | inr (p, q) ↦ inr (p, q ∙ e)
            ],
          )

  marked :
      (w : World)
      → IsReliable w.tables
      → on_tables
          (mark_assigned now rec.id a.new_owner_fingerprint a.new_owner_did a.caller.fingerprint)
          w
        ≡ (
          ok tt,
          with_tables w (
              update_row rec.id
                (assigned now a.new_owner_fingerprint a.new_owner_did a.caller.fingerprint)
                w.tables.content),
        )
  unfolding on_tables mark_assigned
  marked w rel =
      rw
        (command_reliable
          (update_row rec.id
            (assigned now a.new_owner_fingerprint a.new_owner_did a.caller.fingerprint))
          w.tables rel)
        refl

  granted :
      (fp kind : String) (w : World)
      → IsReliable w.tables
      → on_tables (insert_access_grant now (grant_for rec a.serial fp kind)) w ≡ (
        ok tt,
        with_tables w
            (insert_grant (grant_at now (grant_for rec a.serial fp kind)) w.tables.content),
      )
  unfolding on_tables insert_access_grant
  granted fp kind w rel =
      rw
        (command_reliable (insert_grant (grant_at now (grant_for rec a.serial fp kind))) w.tables
          rel)
        refl

  Answers-record_assignment : Answers (record_assignment now a rec)
  unfolding record_assignment ◌>>=◌ pure attempt
  Answers-record_assignment = record {
    at = λ w. elim (Bool-cases (a.caller.fingerprint == "")) [
      | inl e ↦ rw e (
        _,
        refl,
        inl (
          refl,
          λ rel.
              rw (marked w rel)
                (rw (granted a.new_owner_fingerprint "owner_key" (first w) refl) refl),
        ),
      )
      | inr e ↦ rw e (
        _,
        refl,
        inl (
          refl,
          λ rel. rw (marked w rel) (
              rw (granted a.caller.fingerprint "custodian" (first w) refl)
                (rw (granted a.new_owner_fingerprint "owner_key" (second w) refl) refl)),
        ),
      )
    ];
  }
    where
      first : World → World
      first w = with_tables w (
          update_row rec.id
            (assigned now a.new_owner_fingerprint a.new_owner_did a.caller.fingerprint)
            w.tables.content)

      second : World → World
      second w = with_tables w (
          insert_grant (grant_at now (grant_for rec a.serial a.caller.fingerprint "custodian"))
            (first w).tables.content)

module _ (env : Environment) (h : VoucherAssignHandler) (now : ℕ) (a : Assignment) (rec : Row) where
  Answers-after_save : (r : Result String) → Answers now a rec (after_save env h now a rec r)
  unfolding after_save
  Answers-after_save (err e) = Answers-refusal now a rec _ _ _ _
  Answers-after_save (ok path) = Answers-record_assignment now a rec

  Answers-after_backup :
      (v : env.Voucher) (r : Result (Unit {0}))
      → Answers now a rec (after_backup env h now a rec v r)
  unfolding after_backup
  Answers-after_backup v (err e) = Answers-refusal now a rec _ _ _ _
  Answers-after_backup v (ok u) =
      Answers-attempt now a rec _ _ (KeepsContent-on_disk _) (λ r. Answers-after_save r)

  Answers-after_extend :
      (r : Result env.Voucher) → Answers now a rec (after_extend env h now a rec r)
  unfolding after_extend
  Answers-after_extend (err e) = Answers-refusal now a rec _ _ _ _
  Answers-after_extend (ok v) =
      Answers-attempt now a rec _ _ (KeepsContent-on_disk _) (λ r. Answers-after_backup v r)

  Answers-extend_for :
      (v : env.Voucher) (key : env.PublicKey) (k : KeyKind)
      → Answers now a rec (extend_for env h now a rec v key k)
  unfolding extend_for
  Answers-extend_for v key ecdsa = Answers-after_extend _
  Answers-extend_for v key rsa = Answers-after_extend _
  Answers-extend_for v key certificates = Answers-after_extend _
  Answers-extend_for v key other_key = Answers-refusal now a rec _ _ _ _

  Answers-after_parse :
      (key : env.PublicKey) (r : Result env.Voucher)
      → Answers now a rec (after_parse env h now a rec key r)
  unfolding after_parse
  Answers-after_parse key (err e) = Answers-refusal now a rec _ _ _ _
  Answers-after_parse key (ok v) =
      Answers-if now a rec _ _ _ (Answers-refusal now a rec _ _ _ _) (Answers-extend_for v key _)

  KeepsContent-parse : (path : String) → KeepsContent (parse_voucher_file env h now a rec path)
  unfolding parse_voucher_file ◌>>=◌ answer on_disk
  KeepsContent-parse path = record { at = λ w. ground arith; calm = λ w rel. ground arith }

  Answers-assign_permitted :
      (key : env.PublicKey) → Answers now a rec (assign_permitted env h now a rec key)
  unfolding assign_permitted
  Answers-assign_permitted key =
      search (Answers-if, Answers-refusal, Answers-attempt, KeepsContent-parse, Answers-after_parse)
        depth 12

  pub Answers-assign_record :
      (key : env.PublicKey) → Answers now a rec (assign_record env h now a rec key)
  unfolding assign_record has_access_by_guid
  Answers-assign_record key =
      search
        (Answers-if, Answers-refusal, Answers-attempt, KeepsContent-query, Answers-assign_permitted)
        depth 12
