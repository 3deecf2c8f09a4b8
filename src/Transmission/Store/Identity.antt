-- ===== src/Transmission/Store/Identity.antt =====
-- Primary keys of the two tables under every statement of voucher_transmission_store.go that writes.
use go_fdo_voucher_managemen.Prelude.{
  ℕ, zero, suc, ◌≤◌, ◌≡◌, refl, ◌≢◌, String, Bool, false, Option, none, some, List, [], ◌∷◌, ◌++◌,
  map, filter, any, All, All-append, All-filter, Bool-cases, inl, inr, arith, eq_iff,
}
use go_fdo_voucher_managemen.Prelude.Int.{ℤ, pos, negsuc}
use go_fdo_voucher_managemen.Backend.{raise, Backend, Result, statement}
use go_fdo_voucher_managemen.Backend.Laws.{command-keeps, statement-Ran}
use go_fdo_voucher_managemen.Transmission.{VoucherTransmissionRecord, AccessGrant, Tables}
use go_fdo_voucher_managemen.Transmission.Store.{
  insert_row, with_defaults, create_pending, update_row, attempted, mark_attempt, assigned,
  mark_assigned, unassigned, mark_unassigned, drop_row, delete_by_id,
}
use go_fdo_voucher_managemen.Transmission.Store.Rows.{update_if}
use go_fdo_voucher_managemen.Transmission.Grants.{
  same_key, insert_grant, insert_access_grant, remove_grants, remove_access_grants_for_voucher,
}

abbrev Row : Type 0
Row = VoucherTransmissionRecord

-- no two elements are related
abbrev pub Apart {ℓ} : {A : Type ℓ} → (A → A → Type 0) → List A → Type 0
Apart R [] = Unit
Apart R (x ∷ xs) = All (λ y. R x y) xs × Apart R xs

abbrev pub DistinctIds : List Row → Type 0
DistinctIds rows = Apart (λ (r q : Row). r.id ≢ q.id) rows

abbrev pub DistinctKeys : List AccessGrant → Type 0
DistinctKeys grants = Apart (λ (g h : AccessGrant). same_key g h ≡ false) grants

-- Ids are taken in order from the counter, and each primary key and each UNIQUE key stands once.
pub record IsKeyed (t : Tables) : Type 0 where
  pub issued : All (λ r. r.id ≤ t.last_transmission_id) t.transmissions
  pub distinct_ids : DistinctIds t.transmissions
  pub distinct_keys : DistinctKeys t.grants

module _ {ℓ} {A : Type ℓ} (R : A → A → Type 0) where
  pub Apart-append :
      (xs : List A) (y : A) → Apart R xs → All (λ x. R x y) xs → Apart R (xs ++ y ∷ [])
  Apart-append [] y h k = (tt, tt)
  Apart-append (x ∷ xs) y (h, hs) (k, ks) =
      (All-append (λ z. R x z) xs (y ∷ []) h (k, tt), Apart-append xs y hs ks)

  pub Apart-filter : (test : A → Bool) (xs : List A) → Apart R xs → Apart R (filter test xs)
  Apart-filter test [] h = tt
  Apart-filter test (x ∷ xs) (h, hs) = elim (Bool-cases (test x)) [
    | inl e ↦ rw e (All-filter (λ y. R x y) test xs h, Apart-filter test xs hs)
    | inr e ↦ rw e (Apart-filter test xs hs)
  ]

-- an UPDATE keeps every id
module _ (id : ℕ) (f : Row → Row) (same : (r : Row) → (f r).id ≡ r.id) where
  update_if_id : (r : Row) → (update_if id f r).id ≡ r.id
  update_if_id r = ground (arith, same r)

  All-update :
      (P : ℕ → Type 0) (rows : List Row)
      → All (λ r. P r.id) rows
      → All (λ r. P r.id) (map (update_if id f) rows)
  All-update P [] h = tt
  All-update P (r ∷ rows) (h, hs) = (rw (update_if_id r) h, All-update P rows hs)

  DistinctIds-update :
      (rows : List Row) → DistinctIds rows → DistinctIds (map (update_if id f) rows)
  DistinctIds-update [] h = tt
  DistinctIds-update (r ∷ rows) (h, hs) =
      (rw (update_if_id r) (All-update (λ n. r.id ≢ n) rows h), DistinctIds-update rows hs)

  pub update_row-IsKeyed : (t : Tables) → IsKeyed t → IsKeyed (update_row id f t)
  unfolding update_row
  update_row-IsKeyed t k = record {
    issued = All-update (λ n. n ≤ t.last_transmission_id) t.transmissions k.issued;
    distinct_ids = DistinctIds-update t.transmissions k.distinct_ids;
    distinct_keys = k.distinct_keys;
  }

All-below : (n : ℕ) (rows : List Row) → All (λ r. r.id ≤ n) rows → All (λ r. r.id ≤ suc n) rows
All-below n [] h = tt
All-below n (r ∷ rows) (h, hs) = (omega arith, All-below n rows hs)

pub All-ne_next :
    (n : ℕ) (rows : List Row) → All (λ r. r.id ≤ n) rows → All (λ r. r.id ≢ suc n) rows
All-ne_next n [] h = tt
All-ne_next n (r ∷ rows) (h, hs) = (omega arith, All-ne_next n rows hs)

insert_row-IsKeyed : (r : Row) (t : Tables) → IsKeyed t → IsKeyed (insert_row r t)
unfolding insert_row
insert_row-IsKeyed r t k = record {
  issued =
      All-append (λ q. q.id ≤ suc t.last_transmission_id) t.transmissions _
        (All-below t.last_transmission_id t.transmissions k.issued) (omega arith, tt);
  distinct_ids =
      Apart-append (λ q p. q.id ≢ p.id) t.transmissions _ k.distinct_ids
        (All-ne_next t.last_transmission_id t.transmissions k.issued);
  distinct_keys = k.distinct_keys;
}

drop_row-IsKeyed : (id : ℤ) (t : Tables) → IsKeyed t → IsKeyed (drop_row id t)
drop_row-IsKeyed (negsuc n) t k = k
drop_row-IsKeyed (pos n) t k = record {
  issued = All-filter (λ r. r.id ≤ t.last_transmission_id) _ t.transmissions k.issued;
  distinct_ids = Apart-filter (λ r q. r.id ≢ q.id) _ t.transmissions k.distinct_ids;
  distinct_keys = k.distinct_keys;
}

remove_grants-IsKeyed : (guid : String) (t : Tables) → IsKeyed t → IsKeyed (remove_grants guid t)
unfolding remove_grants
remove_grants-IsKeyed guid t k = record {
  issued = k.issued;
  distinct_ids = k.distinct_ids;
  distinct_keys = Apart-filter (λ g h. same_key g h ≡ false) _ t.grants k.distinct_keys;
}

same_key_sym :
    (g h : AccessGrant) (n : ℕ) → same_key g h ≡ false → same_key h (record g { id = n }) ≡ false
unfolding same_key
same_key_sym g h n e = ground (
  arith,
  eq_iff g.voucher_guid h.voucher_guid,
  eq_iff h.voucher_guid g.voucher_guid,
  eq_iff g.identity_fingerprint h.identity_fingerprint,
  eq_iff h.identity_fingerprint g.identity_fingerprint,
  eq_iff g.identity_type h.identity_type,
  eq_iff h.identity_type g.identity_type,
)

All-new_key :
    (g : AccessGrant) (n : ℕ) (gs : List AccessGrant)
    → any (same_key g) gs ≡ false
    → All (λ h. same_key h (record g { id = n }) ≡ false) gs
All-new_key g n [] e = tt
All-new_key g n (h ∷ gs) e = (same_key_sym g h n (ground arith), All-new_key g n gs (ground arith))

insert_grant-IsKeyed : (g : AccessGrant) (t : Tables) → IsKeyed t → IsKeyed (insert_grant g t)
unfolding insert_grant
insert_grant-IsKeyed g t k = elim (Bool-cases (any (same_key g) t.grants)) [
  | inl taken ↦ rw taken k
  | inr free ↦ rw free (record {
    issued = k.issued;
    distinct_ids = k.distinct_ids;
    distinct_keys =
        Apart-append (λ x y. same_key x y ≡ false) t.grants _ k.distinct_keys
          (All-new_key g (suc t.last_grant_id) t.grants free);
  })
]

-- The calls of the store that write, with the clock that they read.
pub data Write : Type 0 where
  create : Option VoucherTransmissionRecord → Write
  attempt : ℕ → String → ℕ → ℕ → String → Bool → Write
  assign : ℕ → String → String → String → Write
  unassign : ℕ → String → Write
  delete : ℤ → Write
  grant : AccessGrant → Write
  revoke : String → Write

unfoldable pub perform : ℕ → Write → Backend Tables → Backend Tables
unfolding create_pending mark_attempt mark_assigned mark_unassigned delete_by_id insert_access_grant
    remove_access_grants_for_voucher
perform now (create r) b = (create_pending now r b).1
perform now (attempt id status n retry e d) b = (mark_attempt now id status n retry e d b).1
perform now (assign id fp did by) b = (mark_assigned now id fp did by b).1
perform now (unassign id status) b = (mark_unassigned now id status b).1
perform now (delete id) b = (delete_by_id id b).1
perform now (grant g) b = (insert_access_grant now g b).1
perform now (revoke guid) b = (remove_access_grants_for_voucher guid b).1

pub statement-keeps :
    {A : Type 0} (P : Tables → Type 0) (f : Tables → Result A × Tables) (b : Backend Tables)
    → P b.content
    → P (f b.content).1
    → P (statement f b).1.content
statement-keeps P f b h k = elim (statement-Ran f b) [ inl (_, e) ↦ rw e h | inr (_, e) ↦ rw e k ]

pub perform-IsKeyed :
    (now : ℕ) (w : Write) (b : Backend Tables)
    → IsKeyed b.content
    → IsKeyed (perform now w b).content
unfolding perform raise
perform-IsKeyed now (create none) b k = k
perform-IsKeyed now (create (some r)) b k =
    statement-keeps IsKeyed _ b k (insert_row-IsKeyed (with_defaults now r) b.content k)
perform-IsKeyed now (attempt id status n retry e d) b k = command-keeps IsKeyed _ b k (
    update_row-IsKeyed id (attempted now status n retry e d) (unfold attempted in λ r. refl)
      b.content k)
perform-IsKeyed now (assign id fp did by) b k =
    command-keeps IsKeyed _ b k
      (update_row-IsKeyed id (assigned now fp did by) (unfold assigned in λ r. refl) b.content k)
perform-IsKeyed now (unassign id status) b k =
    command-keeps IsKeyed _ b k
      (update_row-IsKeyed id (unassigned now status) (unfold unassigned in λ r. refl) b.content k)
perform-IsKeyed now (delete (pos zero)) b k = k
perform-IsKeyed now (delete (pos (suc n))) b k =
    command-keeps IsKeyed (drop_row (pos (suc n))) b k (drop_row-IsKeyed (pos (suc n)) b.content k)
perform-IsKeyed now (delete (negsuc n)) b k =
    command-keeps IsKeyed (drop_row (negsuc n)) b k (drop_row-IsKeyed (negsuc n) b.content k)
perform-IsKeyed now (grant g) b k = command-keeps IsKeyed _ b k (insert_grant-IsKeyed _ b.content k)
perform-IsKeyed now (revoke guid) b k =
    command-keeps IsKeyed _ b k (remove_grants-IsKeyed guid b.content k)

-- calls one after another, each with its clock
unfoldable pub perform_all : List (ℕ × Write) → Backend Tables → Backend Tables
unfolding perform
perform_all [] b = b
perform_all ((now, w) ∷ ws) b = perform_all ws (perform now w b)
