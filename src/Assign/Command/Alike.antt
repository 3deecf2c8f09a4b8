-- ===== src/Assign/Command/Alike.antt =====
-- The `assign` command (voucher_assign_cli.go) against the handler (voucher_assign_handler.go).
use go_fdo_voucher_managemen.Prelude.{
  ℕ, suc, ltb, ◌≤◌, arith, ◌≡◌, refl, ◌∙◌, sym, ap, String, Bool, true, false, ◌||◌, List, [], ◌∷◌,
  map, any, ◌==◌, Bool-cases, inl, inr, if◌then◌else◌,
}
use mathlib.Core.List.{map-append}
use go_fdo_voucher_managemen.Prelude.Text.{byte_length}
use go_fdo_voucher_managemen.Backend.{Result, ok, err, Exec, pure, attempt, ◌>>=◌}
use go_fdo_voucher_managemen.Backend.Laws.{view, command-view}
use go_fdo_voucher_managemen.Environment.{Environment, KeyKind, ecdsa, rsa, certificates, other_key}
use go_fdo_voucher_managemen.Identity.{is_global}
use go_fdo_voucher_managemen.Transmission.{VoucherTransmissionRecord, AccessGrant, Tables}
use go_fdo_voucher_managemen.Transmission.Grants.{same_key, insert_grant, insert_access_grant}
use go_fdo_voucher_managemen.World.{World, on_tables}
use go_fdo_voucher_managemen.Assign.{
  VoucherAssignHandler, AssignResult, Assignment, refusal, record_assignment, after_save,
  after_backup, after_extend, extend_for, after_parse, parse_voucher_file, assign_permitted,
  assign_record, assign_first, assign_voucher,
}
use go_fdo_voucher_managemen.Assign.Command.{
  CommandResult, cli_record_assignment, cli_assigned_message, cli_after_save, cli_after_backup,
  cli_after_extend, cli_extend_for, cli_after_parse, cli_parse_voucher_file, cli_assign_record,
  cli_assign_first, assign_voucher_cli,
}

abbrev unsigned : AccessGrant → AccessGrant
unsigned g = record g { granted_by = "" }

abbrev unsigned_tables : Tables → Tables
unsigned_tables t = record t { grants = map unsigned t.grants }

-- the world, without who is noted as the one that made each grant
abbrev pub but_granted_by : World → World
but_granted_by w = record w { tables = view unsigned_tables w.tables }

-- what the command would print of the handler's answer
abbrev pub printed : Result AssignResult → Result CommandResult
printed (ok r) = ok (record { serial = r.serial; voucher_id = r.voucher_id; status = r.status })
printed (err e) = err e

any-unsigned :
    (g : AccessGrant) (gs : List AccessGrant)
    → any (same_key (unsigned g)) (map unsigned gs) ≡ any (same_key g) gs
unfolding same_key
any-unsigned g [] = refl
any-unsigned g (x ∷ gs) = ap (λ b. same_key g x || b) (any-unsigned g gs)

unsigned-insert_grant :
    (g : AccessGrant) (t : Tables)
    → unsigned_tables (insert_grant g t) ≡ insert_grant (unsigned g) (unsigned_tables t)
unfolding insert_grant
unsigned-insert_grant g t = elim (Bool-cases (any (same_key g) t.grants)) [
  | inl e ↦ rw e (rw (any-unsigned g t.grants ∙ e) refl)
  | inr e ↦ rw e (
      rw (any-unsigned g t.grants ∙ e) (
        ap (λ gs. record (unsigned_tables t) { grants = gs; last_grant_id = suc t.last_grant_id })
          (map-append unsigned t.grants (record g { id = suc t.last_grant_id } ∷ []))))
]

but_granted_by-insert :
    (now : ℕ) (g : AccessGrant) (w : World)
    → but_granted_by (on_tables (insert_access_grant now g) w).1
      ≡ (on_tables (insert_access_grant now (unsigned g)) (but_granted_by w)).1
unfolding on_tables insert_access_grant
but_granted_by-insert now g w =
    ap (λ b. record w { tables = b })
      (command-view unsigned_tables _ _ w.tables (unsigned-insert_grant _ w.tables.content))

-- grants that differ in who made them
but_granted_by-inserts :
    (now : ℕ) (g g' : AccessGrant) (w w' : World)
    → unsigned g ≡ unsigned g'
    → but_granted_by w ≡ but_granted_by w'
    → but_granted_by (on_tables (insert_access_grant now g) w).1
      ≡ but_granted_by (on_tables (insert_access_grant now g') w').1
but_granted_by-inserts now g g' w w' e d =
    but_granted_by-insert now g w
    ∙ ap (λ k. (on_tables (insert_access_grant now k) (but_granted_by w)).1) e
    ∙ ap (λ v. (on_tables (insert_access_grant now (unsigned g')) v).1) d
    ∙ sym (but_granted_by-insert now g' w')

abbrev pub Alike : Result CommandResult × World → Result AssignResult × World → Type 0
Alike (got, after) (got', after') =
    (got ≡ printed got') × (but_granted_by after ≡ but_granted_by after')

record AlikeIn (m : Exec World CommandResult) (n : Exec World AssignResult) : Type 0 where
  pub at : (w : World) → Alike (m w) (n w)

AlikeIn-refusal :
    (serial guid code message : String)
    → AlikeIn
        (pure (record { serial = serial; voucher_id = guid; status = "error" }))
        (pure (refusal serial guid code message))
unfolding pure
AlikeIn-refusal serial guid code message = record { at = λ w. (refl, refl) }

AlikeIn-attempt :
    {A : Type 0} (m : Exec World A) (f : Result A → Exec World CommandResult)
    (g : Result A → Exec World AssignResult)
    → ((r : Result A) → AlikeIn (f r) (g r))
    → AlikeIn (attempt m >>= f) (attempt m >>= g)
unfolding ◌>>=◌ attempt
AlikeIn-attempt m f g k = record { at = λ w. (k (m w).0).at (m w).1 }

AlikeIn-if :
    (b : Bool) {m m' : Exec World CommandResult} {n n' : Exec World AssignResult}
    → AlikeIn m n
    → AlikeIn m' n'
    → AlikeIn (if b then m else m') (if b then n else n')
AlikeIn-if true h k = h
AlikeIn-if false h k = k

module _ (env : Environment) (h : VoucherAssignHandler) (now : ℕ) (a : Assignment)
    (named : (a.caller.fingerprint == "") ≡ false)
    (sliced : ltb (byte_length a.new_owner_fingerprint) 16 ≡ false) where
  module _ (rec : VoucherTransmissionRecord) where
    AlikeIn-record :
        AlikeIn
          (cli_record_assignment env h.file_store now a.new_owner_fingerprint a.new_owner_did
            a.caller.fingerprint a.serial rec)
          (record_assignment now a rec)
    unfolding cli_record_assignment cli_assigned_message record_assignment ◌>>=◌ attempt pure
    AlikeIn-record = record {
      at = λ w.
          rw (named, sliced)
            (
              refl,
              but_granted_by-inserts now _ _ _ _ refl
                  (but_granted_by-inserts now _ _ _ _ refl refl),
            );
    }

    AlikeIn-save :
        (r : Result String)
        → AlikeIn
            (cli_after_save env h.file_store now a.new_owner_fingerprint a.new_owner_did
              a.caller.fingerprint a.serial rec r)
            (after_save env h now a rec r)
    unfolding cli_after_save after_save
    AlikeIn-save (err e) = AlikeIn-refusal _ _ _ _
    AlikeIn-save (ok path) = AlikeIn-record

    AlikeIn-backup :
        (v : env.Voucher) (r : Result (Unit {0}))
        → AlikeIn
            (cli_after_backup env h.file_store now a.new_owner_fingerprint a.new_owner_did
              a.caller.fingerprint a.serial rec v r)
            (after_backup env h now a rec v r)
    unfolding cli_after_backup after_backup
    AlikeIn-backup v (err e) = AlikeIn-refusal _ _ _ _
    AlikeIn-backup v (ok _) = AlikeIn-attempt _ _ _ AlikeIn-save

    AlikeIn-extend :
        (r : Result env.Voucher)
        → AlikeIn
            (cli_after_extend env h.file_store now a.new_owner_fingerprint a.new_owner_did
              a.caller.fingerprint a.serial rec r)
            (after_extend env h now a rec r)
    unfolding cli_after_extend after_extend
    AlikeIn-extend (err e) = AlikeIn-refusal _ _ _ _
    AlikeIn-extend (ok v) = AlikeIn-attempt _ _ _ (AlikeIn-backup v)

    AlikeIn-key :
        (v : env.Voucher) (key : env.PublicKey) (kind : KeyKind)
        → AlikeIn
            (cli_extend_for env h.file_store now a.new_owner_fingerprint a.new_owner_did
              a.caller.fingerprint a.serial rec v key kind)
            (extend_for env h now a rec v key kind)
    unfolding cli_extend_for extend_for
    AlikeIn-key v key ecdsa = AlikeIn-extend _
    AlikeIn-key v key rsa = AlikeIn-extend _
    AlikeIn-key v key certificates = AlikeIn-extend _
    AlikeIn-key v key other_key = AlikeIn-refusal _ _ _ _

    AlikeIn-parse :
        h.has_owner_signer ≡ true
        → (key : env.PublicKey) (r : Result env.Voucher)
        → AlikeIn
            (cli_after_parse env h.file_store now a.new_owner_fingerprint a.new_owner_did
              a.caller.fingerprint a.serial rec key r)
            (after_parse env h now a rec key r)
    unfolding cli_after_parse after_parse
    AlikeIn-parse signs key (err e) = AlikeIn-refusal _ _ _ _
    AlikeIn-parse signs key (ok v) = rw signs (AlikeIn-key v key (env.key_kind key))

    AlikeIn-permitted :
        h.has_owner_signer ≡ true
        → (key : env.PublicKey)
        → AlikeIn
            (cli_assign_record env h.file_store now a.new_owner_fingerprint a.new_owner_did
              a.caller.fingerprint a.serial rec key)
            (assign_permitted env h now a rec key)
    unfolding cli_assign_record assign_permitted cli_parse_voucher_file parse_voucher_file
    AlikeIn-permitted signs key =
        search (AlikeIn-if, AlikeIn-refusal, AlikeIn-attempt, AlikeIn-parse signs key)

  AlikeIn-first :
      h.has_owner_signer ≡ true
      → is_global a.caller.auth_method ≡ true
      → (key : env.PublicKey) (r : Result (List VoucherTransmissionRecord))
      → AlikeIn
          (cli_assign_first env h.file_store now a.new_owner_fingerprint a.new_owner_did
            a.caller.fingerprint a.serial key r)
          (assign_first env h now a key r)
  unfolding cli_assign_first assign_first assign_record
  AlikeIn-first signs global key (err e) = AlikeIn-refusal _ _ _ _
  AlikeIn-first signs global key (ok []) = AlikeIn-refusal _ _ _ _
  AlikeIn-first signs global key (ok (rec ∷ older)) = rw global (AlikeIn-permitted rec signs key)

-- The command does to a serial what the handler, with a signing key, does to it for a caller with
-- the global token and the same fingerprint, one that is not empty, where the new owner's fingerprint
-- has 16 bytes at least: the same serial, GUID and status are printed as answered, and the tables, the disk and the rest are left the same, but for
-- who is noted as the maker of the grants.
pub assign_voucher_cli-assign_voucher :
    (env : Environment) (h : VoucherAssignHandler) (now : ℕ) (a : Assignment) (key : env.PublicKey)
    (w : World)
    → h.has_owner_signer ≡ true
    → is_global a.caller.auth_method ≡ true
    → (a.caller.fingerprint == "") ≡ false
    → 16 ≤ byte_length a.new_owner_fingerprint
    → Alike
        (assign_voucher_cli env h.file_store now a.new_owner_fingerprint a.new_owner_did
          a.caller.fingerprint a.serial key w)
        (assign_voucher env h now a key w)
unfolding assign_voucher_cli assign_voucher
assign_voucher_cli-assign_voucher env h now a key w signs global named long =
    (AlikeIn-attempt _ _ _
        (AlikeIn-first env h now a named (ground (arith, long)) signs global key)).at
      w
