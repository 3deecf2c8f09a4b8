-- ===== src/Transmission/Store/Rows.antt =====
-- The row with a given id, and what the statements do to it (voucher_transmission_store.go).
use go_fdo_voucher_managemen.Prelude.{
  ℕ, ◌≡◌, ◌≢◌, List, [], ◌∷◌, ◌++◌, map, filter, not, All, beq, Bool-cases, inl, inr, if◌then◌else◌,
  arith,
}
use go_fdo_voucher_managemen.Backend.{Result, ok, err, no_rows}
use go_fdo_voucher_managemen.Transmission.{VoucherTransmissionRecord}
use go_fdo_voucher_managemen.Transmission.Store.{first_row}

abbrev Row : Type 0
Row = VoucherTransmissionRecord

-- what `FetchByID` reads
unfoldable pub row_at : ℕ → List Row → Result Row
row_at id rows = first_row (filter (λ r. beq r.id id) rows)

abbrev pub map_ok : (Row → Row) → Result Row → Result Row
map_ok f (ok r) = ok (f r)
map_ok f (err e) = err e

pub row_at-cons :
    (id : ℕ) (r : Row) (rows : List Row)
    → row_at id (r ∷ rows) ≡ (if beq r.id id then ok r else row_at id rows)
unfolding row_at
row_at-cons id r rows = ground arith

-- the rewrite that an UPDATE by id makes
abbrev pub update_if : ℕ → (Row → Row) → Row → Row
update_if id f r = if beq r.id id then f r else r

pub row_at-update :
    (id j : ℕ) (f : Row → Row) (rows : List Row)
    → ((r : Row) → (f r).id ≡ r.id)
    → row_at j (map (update_if id f) rows)
      ≡ (if beq id j then map_ok f (row_at j rows) else row_at j rows)
unfolding row_at
row_at-update id j f [] same = ground arith
row_at-update id j f (r ∷ rows) same = ground (arith, row_at-update id j f rows same, same r)

-- appending a row whose id is new
pub row_at-append :
    (j : ℕ) (r : Row) (rows : List Row)
    → All (λ q. q.id ≢ r.id) rows
    → row_at j (rows ++ r ∷ []) ≡ (if beq r.id j then ok r else row_at j rows)
unfolding row_at
row_at-append j r [] h = ground arith
row_at-append j r (q ∷ rows) (h, hs) = ground (arith, row_at-append j r rows hs)

pub row_at-drop :
    (id j : ℕ) (rows : List Row)
    → row_at j (filter (λ r. not (beq r.id id)) rows)
      ≡ (if beq id j then err no_rows else row_at j rows)
unfolding row_at
row_at-drop id j [] = ground arith
row_at-drop id j (r ∷ rows) = ground (arith, row_at-drop id j rows)

-- a fetch by id returns a row with that id
pub row_at-id : (id : ℕ) (rows : List Row) {r : Row} → row_at id rows ≡ ok r → r.id ≡ id
unfolding row_at
row_at-id id [] h = ground arith
row_at-id id (q ∷ rows) {r} h = elim (Bool-cases (beq q.id id)) [
  | inl e ↦ ground arith
  | inr e ↦ row_at-id id rows {r = r} (ground arith)
]
