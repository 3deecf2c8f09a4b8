-- ===== src/Transmission/Store/Queries.antt =====
-- What the statements of voucher_transmission_store.go return, read after they write.
use go_fdo_voucher_managemen.Prelude.{
  ℕ, zero, suc, ◌≡◌, refl, ap, String, Bool, none, some, List, [], ◌∷◌, beq, if◌then◌else◌, arith,
  map,
}
use go_fdo_voucher_managemen.Prelude.Int.{pos}
use go_fdo_voucher_managemen.Backend.{raise, ok, Backend, command}
use go_fdo_voucher_managemen.Backend.Laws.{IsReliable, statement_reliable, command_reliable}
use go_fdo_voucher_managemen.Transmission.{VoucherTransmissionRecord, Tables}
use go_fdo_voucher_managemen.Transmission.Store.{
  with_defaults, insert_row, create_pending, update_row, attempted, mark_attempt, assigned,
  mark_assigned, unassigned, mark_unassigned, fetch_by_id,
}
use go_fdo_voucher_managemen.Transmission.Store.Rows.{
  update_if, row_at, map_ok, row_at-update, row_at-append,
}
use go_fdo_voucher_managemen.Transmission.Store.Identity.{IsKeyed, All-ne_next}

abbrev Row : Type 0
Row = VoucherTransmissionRecord

pub fetch_by_id-row_at :
    (n : ℕ) (b : Backend Tables)
    → IsReliable b
    → (fetch_by_id (pos (suc n)) b).0 ≡ row_at (suc n) b.content.transmissions
unfolding fetch_by_id row_at
fetch_by_id-row_at n b h = ap (λ p. p.0) (statement_reliable _ b h)

-- the row that `CreatePending` stores
abbrev pub stored : ℕ → ℕ → Row → Row
stored now id r = record (with_defaults now r) {
  id = id;
  last_attempt_at = none;
  delivered_at = none;
}

-- With no outage and keyed tables, CreatePending of a record returns the next id; then FetchByID of
-- that id returns the record with its defaults filled in, and any other fetch is as before.
pub fetch_by_id-create_pending :
    (now : ℕ) (r : Row) (b : Backend Tables) (j : ℕ)
    → IsReliable b
    → IsKeyed b.content
    → ((create_pending now (some r) b).0 ≡ ok (suc b.content.last_transmission_id))
      × ((fetch_by_id (pos j) (create_pending now (some r) b).1).0 ≡ (
          if beq (suc b.content.last_transmission_id) j
          then ok (stored now (suc b.content.last_transmission_id) r)
          else (fetch_by_id (pos j) b).0))
unfolding create_pending
fetch_by_id-create_pending now r b j rel k = rw (statement_reliable _ b rel) (refl, go j)
  where
    t : Tables
    t = b.content

    next : Tables
    next = insert_row (with_defaults now r) t

    go :
        (j : ℕ)
        → (fetch_by_id (pos j) (record { content = next; outages = [] })).0 ≡ (
            if beq (suc t.last_transmission_id) j
            then ok (stored now (suc t.last_transmission_id) r)
            else (fetch_by_id (pos j) b).0)
    go zero = unfold fetch_by_id raise in ground arith
    go (suc j) =
        rw
          (
            fetch_by_id-row_at j b rel,
            fetch_by_id-row_at j (record { content = next; outages = [] }) refl,
          )
          (unfold insert_row in
            row_at-append (suc j) (stored now (suc t.last_transmission_id) r) t.transmissions
              (All-ne_next t.last_transmission_id t.transmissions k.issued))

fetch_by_id-update :
    (id : ℕ) (f : Row → Row) (b : Backend Tables) (j : ℕ)
    → ((r : Row) → (f r).id ≡ r.id)
    → IsReliable b
    → (fetch_by_id (pos j) (command (update_row id f) b).1).0
      ≡ (if beq id j then map_ok f (fetch_by_id (pos j) b).0 else (fetch_by_id (pos j) b).0)
fetch_by_id-update id f b j same rel = rw (command_reliable (update_row id f) b rel) (go j)
  where
    go :
        (j : ℕ)
        → (fetch_by_id (pos j) (record { content = update_row id f b.content; outages = [] })).0
          ≡ (if beq id j then map_ok f (fetch_by_id (pos j) b).0 else (fetch_by_id (pos j) b).0)
    go zero = unfold fetch_by_id raise in ground arith
    go (suc j) =
        rw
          (
            fetch_by_id-row_at j b rel,
            fetch_by_id-row_at j (record { content = update_row id f b.content; outages = [] })
                refl,
          )
          (unfold update_row in row_at-update id (suc j) f b.content.transmissions same)

-- With no outage, MarkAttempt rewrites the row with its id as stated by `attempted`, and no other.
pub fetch_by_id-mark_attempt :
    (now id : ℕ) (status : String) (attempts retry_after : ℕ) (last_error : String)
    (delivered : Bool) (b : Backend Tables) (j : ℕ)
    → IsReliable b
    → (fetch_by_id
        (pos j)
        (mark_attempt now id status attempts retry_after last_error delivered b).1).0
      ≡ (if beq id j
          then map_ok
              (attempted now status attempts retry_after last_error delivered)
              (fetch_by_id (pos j) b).0
          else (fetch_by_id (pos j) b).0)
unfolding mark_attempt attempted
fetch_by_id-mark_attempt now id status n retry e d b j rel =
    fetch_by_id-update id (attempted now status n retry e d) b j (λ r. refl) rel

update_update :
    (id : ℕ) (f g h : Row → Row) (rows : List Row)
    → ((r : Row) → (f r).id ≡ r.id)
    → ((r : Row) → g (f r) ≡ h r)
    → map (update_if id g) (map (update_if id f) rows) ≡ map (update_if id h) rows
update_update id f g h [] same e = refl
update_update id f g h (r ∷ rows) same e =
    ground (arith, update_update id f g h rows same e, same r, e r)

-- With no outage, MarkUnassigned after MarkAssigned of the same row leaves the tables that
-- MarkUnassigned alone would leave: nothing of the assignment stays in the row.
pub mark_unassigned-mark_assigned :
    (now later id : ℕ) (fingerprint did assigner status : String) (b : Backend Tables)
    → IsReliable b
    → (mark_unassigned later id status
        (mark_assigned now id fingerprint did assigner b).1).1.content
      ≡ (mark_unassigned later id status b).1.content
unfolding mark_unassigned mark_assigned unassigned assigned update_row
mark_unassigned-mark_assigned now later id fp did by status b rel = rw (command_reliable _ b rel) (
    rw (command_reliable _ b rel) (
      rw
        (command_reliable _
          (record { content = update_row id (assigned now fp did by) b.content; outages = [] })
          refl)
        (ap (λ rows. record b.content { transmissions = rows })
          (update_update id (assigned now fp did by) (unassigned later status)
            (unassigned later status) b.content.transmissions (λ r. refl) (λ r. refl)))))
