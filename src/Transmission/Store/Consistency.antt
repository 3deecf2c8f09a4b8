-- ===== src/Transmission/Store/Consistency.antt =====
-- What holds of the two tables under every statement of voucher_transmission_store.go that writes.
use go_fdo_voucher_managemen.Prelude.{
  ℕ, zero, suc, ◌≤◌, ◌≡◌, refl, ◌≢◌, none, some, List, [], ◌∷◌, String, beq, map, any, All,
  All-append, All-filter, Bool-cases, inl, inr, arith,
}
use go_fdo_voucher_managemen.Prelude.Int.{ℤ, pos, negsuc}
use go_fdo_voucher_managemen.Backend.{raise, Backend}
use go_fdo_voucher_managemen.Backend.Laws.{command-keeps}
use go_fdo_voucher_managemen.Transmission.{VoucherTransmissionRecord, AccessGrant, Tables}
use go_fdo_voucher_managemen.Transmission.Store.{
  insert_row, with_defaults, update_row, attempted, assigned, unassigned, drop_row,
}
use go_fdo_voucher_managemen.Transmission.Store.Rows.{update_if}
use go_fdo_voucher_managemen.Transmission.Store.Identity.{
  IsKeyed, Apart, Apart-append, Apart-filter, Write, create, attempt, assign, unassign, delete,
  grant, revoke, statement-keeps, perform, perform-IsKeyed, perform_all,
}
use go_fdo_voucher_managemen.Transmission.Grants.{same_key, insert_grant, remove_grants}

abbrev Row : Type 0
Row = VoucherTransmissionRecord

abbrev pub DistinctGrantIds : List AccessGrant → Type 0
DistinctGrantIds = Apart (λ (g h : AccessGrant). g.id ≢ h.id)

-- no delivery without an attempt
abbrev pub IsAttemptedFirst : Row → Type 0
IsAttemptedFirst r = r.last_attempt_at ≡ none → r.delivered_at ≡ none

-- Both tables have ids in order from their counters, each once, and each UNIQUE key once; and a row
-- that was delivered has the time of an attempt.
pub record IsConsistent (t : Tables) : Type 0 where
  pub keyed : IsKeyed t
  pub grants_issued : All (λ g. g.id ≤ t.last_grant_id) t.grants
  pub distinct_grants : DistinctGrantIds t.grants
  pub attempted_first : All IsAttemptedFirst t.transmissions

-- the part that is about grants
abbrev Grants : Tables → Type 0
Grants t = All (λ g. g.id ≤ t.last_grant_id) t.grants × DistinctGrantIds t.grants

abbrev Attempts : Tables → Type 0
Attempts t = All IsAttemptedFirst t.transmissions

All-below : (n : ℕ) (gs : List AccessGrant) → All (λ g. g.id ≤ n) gs → All (λ g. g.id ≤ suc n) gs
All-below n [] h = tt
All-below n (g ∷ gs) (h, hs) = (omega arith, All-below n gs hs)

All-ne : (n : ℕ) (gs : List AccessGrant) → All (λ g. g.id ≤ n) gs → All (λ g. g.id ≢ suc n) gs
All-ne n [] h = tt
All-ne n (g ∷ gs) (h, hs) = (omega arith, All-ne n gs hs)

Grants-insert : (g : AccessGrant) (t : Tables) → Grants t → Grants (insert_grant g t)
unfolding insert_grant
Grants-insert g t (issued, distinct) = elim (Bool-cases (any (same_key g) t.grants)) [
  | inl e ↦ rw e (issued, distinct)
  | inr e ↦ rw e (
    All-append (λ h. h.id ≤ suc t.last_grant_id) t.grants _
        (All-below t.last_grant_id t.grants issued) (omega arith, tt),
    Apart-append (λ g h. g.id ≢ h.id) t.grants _ distinct (All-ne t.last_grant_id t.grants issued),
  )
]

IsAttemptedFirst-if :
    (id : ℕ) (f : Row → Row) (r : Row)
    → ((q : Row) → IsAttemptedFirst q → IsAttemptedFirst (f q))
    → IsAttemptedFirst r
    → IsAttemptedFirst (update_if id f r)
IsAttemptedFirst-if id f r k h = elim (Bool-cases (beq r.id id)) [
  | inl e ↦ rw e (k r h)
  | inr e ↦ rw e h
]

Attempts-update :
    (id : ℕ) (f : Row → Row) (rows : List Row)
    → ((r : Row) → IsAttemptedFirst r → IsAttemptedFirst (f r))
    → All IsAttemptedFirst rows
    → All IsAttemptedFirst (map (update_if id f) rows)
Attempts-update id f [] k h = tt
Attempts-update id f (r ∷ rows) k (h, hs) =
    (IsAttemptedFirst-if id f r k h, Attempts-update id f rows k hs)

abbrev Both : Tables → Type 0
Both t = Grants t × Attempts t

Both-update :
    (id : ℕ) (f : Row → Row) (t : Tables)
    → ((r : Row) → IsAttemptedFirst r → IsAttemptedFirst (f r))
    → Both t
    → Both (update_row id f t)
unfolding update_row
Both-update id f t k (g, a) = (g, Attempts-update id f t.transmissions k a)

Both-insert : (r : Row) (t : Tables) → Both t → Both (insert_row r t)
unfolding insert_row
Both-insert r t (g, a) = (g, All-append IsAttemptedFirst t.transmissions _ a (λ e. refl, tt))

Attempts-insert_grant : (g : AccessGrant) (t : Tables) → Attempts t → Attempts (insert_grant g t)
unfolding insert_grant
Attempts-insert_grant g t a = elim (Bool-cases (any (same_key g) t.grants)) [
  | inl e ↦ rw e a
  | inr e ↦ rw e a
]

Both-grant : (g : AccessGrant) (t : Tables) → Both t → Both (insert_grant g t)
Both-grant g t (h, a) = (Grants-insert g t h, Attempts-insert_grant g t a)

Both-drop : (id : ℤ) (t : Tables) → Both t → Both (drop_row id t)
Both-drop (negsuc n) t h = h
Both-drop (pos n) t (g, a) = (g, All-filter IsAttemptedFirst _ t.transmissions a)

Both-remove : (guid : String) (t : Tables) → Both t → Both (remove_grants guid t)
unfolding remove_grants
Both-remove guid t ((issued, distinct), a) = (
  (
    All-filter (λ g. g.id ≤ t.last_grant_id) _ t.grants issued,
    Apart-filter (λ g h. g.id ≢ h.id) _ t.grants distinct,
  ),
  a,
)

perform-Both :
    (now : ℕ) (w : Write) (b : Backend Tables) → Both b.content → Both (perform now w b).content
unfolding perform raise
perform-Both now (create none) b k = k
perform-Both now (create (some r)) b k =
    statement-keeps Both _ b k (Both-insert (with_defaults now r) b.content k)
perform-Both now (attempt id status n retry e d) b k = command-keeps Both _ b k (
    Both-update id (attempted now status n retry e d) b.content
      (unfold attempted in λ r h none_there. absurd (cc)) k)
perform-Both now (assign id fp did by) b k =
    command-keeps Both _ b k
      (Both-update id (assigned now fp did by) b.content (unfold assigned in λ r h. h) k)
perform-Both now (unassign id status) b k =
    command-keeps Both _ b k
      (Both-update id (unassigned now status) b.content (unfold unassigned in λ r h. h) k)
perform-Both now (delete (pos zero)) b k = k
perform-Both now (delete (pos (suc n))) b k =
    command-keeps Both (drop_row (pos (suc n))) b k (Both-drop (pos (suc n)) b.content k)
perform-Both now (delete (negsuc n)) b k =
    command-keeps Both (drop_row (negsuc n)) b k (Both-drop (negsuc n) b.content k)
perform-Both now (grant g) b k = command-keeps Both _ b k (Both-grant _ b.content k)
perform-Both now (revoke guid) b k = command-keeps Both _ b k (Both-remove guid b.content k)

perform-IsConsistent :
    (now : ℕ) (w : Write) (b : Backend Tables)
    → IsConsistent b.content
    → IsConsistent (perform now w b).content
perform-IsConsistent now w b k =
    let ((issued, distinct), first) =
      perform-Both now w b ((k.grants_issued, k.distinct_grants), k.attempted_first) in
    record {
      keyed = perform-IsKeyed now w b k.keyed;
      grants_issued = issued;
      distinct_grants = distinct;
      attempted_first = first;
    }

-- Any sequence of the store's writing calls, under any outages, keeps this: in both tables the ids are
-- at most the counter and stand once, each UNIQUE key stands once, and a row that is noted as
-- delivered has the time of an attempt.
pub perform_all-IsConsistent :
    (ws : List (ℕ × Write)) (b : Backend Tables)
    → IsConsistent b.content
    → IsConsistent (perform_all ws b).content
unfolding perform_all
perform_all-IsConsistent [] b k = k
perform_all-IsConsistent ((now, w) ∷ ws) b k =
    perform_all-IsConsistent ws (perform now w b) (perform-IsConsistent now w b k)
