-- ===== src/Transmission/Access/Join.antt =====
-- The LEFT JOIN with SELECT DISTINCT of voucher_transmission_store.go, as one filter of the rows.
use go_fdo_voucher_managemen.Prelude.{
  ℕ, ◌≡◌, refl, sym, ◌∙◌, ap, ◌≢◌, String, Bool, true, false, ◌||◌, not, some, List, [], ◌∷◌, ◌++◌,
  map, All, filter, any, beq, ◌==◌, eq_iff, All-append, All-filter, Bool-cases, inl, inr,
  if◌then◌else◌, arith,
}
use go_fdo_voucher_managemen.Transmission.{VoucherTransmissionRecord, AccessGrant, Tables}
use go_fdo_voucher_managemen.Transmission.Grants.{
  grants_to, Joined, joined_with, left_join, joined_to, distinct, select_joined,
}
use go_fdo_voucher_managemen.Transmission.Store.Identity.{IsKeyed, DistinctIds}

abbrev Row : Type 0
Row = VoucherTransmissionRecord

abbrev OtherId : ℕ → Row → Type 0
OtherId n q = q.id ≢ n

distinct-OtherId :
    (n : ℕ) (rows : List Row) → All (OtherId n) rows → All (OtherId n) (distinct rows)
unfolding distinct
distinct-OtherId n [] h = tt
distinct-OtherId n (r ∷ rows) (h, hs) =
    (h, All-filter (OtherId n) _ (distinct rows) (distinct-OtherId n rows hs))

filter-OtherId :
    (n : ℕ) (rows : List Row) → All (OtherId n) rows → filter (λ q. not (beq q.id n)) rows ≡ rows
filter-OtherId n [] h = refl
filter-OtherId n (r ∷ rows) (h, hs) = ground (arith, filter-OtherId n rows hs)

abbrev is_cons {ℓ} : {A : Type ℓ} → List A → Bool
is_cons [] = false
is_cons (x ∷ xs) = true

-- copies of one row before rows with other ids
distinct-copies :
    (r : Row) (xs rest : List Row)
    → All (λ q. q ≡ r) xs
    → All (OtherId r.id) rest
    → distinct (xs ++ rest) ≡ (if is_cons xs then r ∷ distinct rest else distinct rest)
unfolding distinct
distinct-copies r [] rest c o = refl
distinct-copies r (x ∷ xs) rest (e, c) o =
    rw (e, distinct-copies r xs rest c o) (ap (λ l. r ∷ l) (drops (is_cons xs)))
  where
    kept : filter (λ q. not (beq q.id r.id)) (distinct rest) ≡ distinct rest
    kept = filter-OtherId r.id (distinct rest) (distinct-OtherId r.id rest o)

    drops :
        (b : Bool)
        → filter (λ q. not (beq q.id r.id)) (if b then r ∷ distinct rest else distinct rest)
          ≡ distinct rest
    drops true = ground (arith, kept)
    drops false = kept

module _ (test : Joined → Bool) where
  abbrev rows_of : List Joined → List Row
  rows_of js = map (λ j. j.0) (filter test js)

  rows_of-append : (js ks : List Joined) → rows_of (js ++ ks) ≡ rows_of js ++ rows_of ks
  rows_of-append [] ks = refl
  rows_of-append (j ∷ js) ks = ground (arith, rows_of-append js ks)

  rows_of-All : (P : Row → Type 0) (js : List Joined) → All (λ j. P j.0) js → All P (rows_of js)
  rows_of-All P [] h = tt
  rows_of-All P (j ∷ js) (p, h) = elim (Bool-cases (test j)) [
    | inl e ↦ rw e (p, rows_of-All P js h)
    | inr e ↦ rw e (rows_of-All P js h)
  ]

  is_cons-rows_of : (js : List Joined) → is_cons (rows_of js) ≡ any test js
  is_cons-rows_of [] = refl
  is_cons-rows_of (j ∷ js) = ground (arith, is_cons-rows_of js)

joined_with-All :
    (P : Row → Type 0) (r : Row) (gs : List AccessGrant) → P r → All (λ j. P j.0) (joined_with r gs)
unfolding joined_with
joined_with-All P r [] p = (p, tt)
joined_with-All P r (g ∷ gs) p = (p, go gs)
  where
    go : (hs : List AccessGrant) → All (λ (j : Joined). P j.0) (map (λ h. (r, some h)) hs)
    go [] = tt
    go (h ∷ hs) = (p, go hs)

left_join-All :
    (P : Row → Type 0) (rows : List Row) (gs : List AccessGrant)
    → All P rows
    → All (λ j. P j.0) (left_join rows gs)
unfolding left_join
left_join-All P [] gs h = tt
left_join-All P (r ∷ rows) gs (p, h) =
    All-append (λ (j : Joined). P j.0)
      (joined_with r (filter (λ g. r.voucher_guid == g.voucher_guid) gs)) (left_join rows gs)
      (joined_with-All P r (filter (λ g. r.voucher_guid == g.voucher_guid) gs) p)
      (left_join-All P rows gs h)

-- whether some joined row of `r` passes
unfoldable pub joins : (Joined → Bool) → List AccessGrant → Row → Bool
joins test gs r = any test (joined_with r (filter (λ g. r.voucher_guid == g.voucher_guid) gs))

distinct-left_join :
    (test : Joined → Bool) (gs : List AccessGrant) (rows : List Row)
    → DistinctIds rows
    → distinct (rows_of test (left_join rows gs)) ≡ filter (joins test gs) rows
unfolding left_join distinct joins
distinct-left_join test gs [] h = refl
distinct-left_join test gs (r ∷ rows) (h, hs) =
    ap distinct (rows_of-append test own later)
    ∙ (distinct-copies r (rows_of test own) (rows_of test later)
          (rows_of-All test (λ q. q ≡ r) own (joined_with-All (λ q. q ≡ r) r matching refl))
          (rows_of-All test (OtherId r.id) later
            (left_join-All (OtherId r.id) rows gs (others rows h)))
        ∙ rw (is_cons-rows_of test own, distinct-left_join test gs rows hs) refl)
  where
    matching : List AccessGrant
    matching = filter (λ g. r.voucher_guid == g.voucher_guid) gs

    own : List Joined
    own = joined_with r matching

    later : List Joined
    later = left_join rows gs

    others : (qs : List Row) → All (λ q. r.id ≢ q.id) qs → All (OtherId r.id) qs
    others [] k = tt
    others (q ∷ qs) (k, ks) = (λ e. k (sym e), others qs ks)

-- the row is owned, or its voucher has a grant
unfoldable pub shown_to : String → List AccessGrant → Row → Bool
shown_to fp gs r = r.owner_key_fingerprint == fp || any (grants_to r.voucher_guid fp) gs

any-granted :
    (fp guid : String) (gs : List AccessGrant)
    → any (λ g. g.identity_fingerprint == fp) (filter (λ g. guid == g.voucher_guid) gs)
      ≡ any (grants_to guid fp) gs
unfolding grants_to
any-granted fp guid [] = refl
any-granted fp guid (g ∷ gs) =
    ground (arith, any-granted fp guid gs, eq_iff guid g.voucher_guid, eq_iff g.voucher_guid guid)

any-joined_with :
    (fp : String) (r : Row) (ms : List AccessGrant)
    → any (joined_to fp) (joined_with r ms)
      ≡ (r.owner_key_fingerprint == fp || any (λ g. g.identity_fingerprint == fp) ms)
unfolding joined_with
any-joined_with fp r [] = ground arith
any-joined_with fp r (g ∷ gs) = go gs
  where
    later :
        (hs : List AccessGrant)
        → (r.owner_key_fingerprint == fp || any (joined_to fp) (map (λ h. (r, some h)) hs))
          ≡ (r.owner_key_fingerprint == fp || any (λ h. h.identity_fingerprint == fp) hs)
    later [] = refl
    later (h ∷ hs) = ground (arith, later hs)

    go :
        (hs : List AccessGrant)
        → any (joined_to fp) ((r, some g) ∷ map (λ h. (r, some h)) hs)
          ≡ (r.owner_key_fingerprint == fp || any (λ h. h.identity_fingerprint == fp) (g ∷ hs))
    go hs = ground (arith, later hs)

joins-joined_to :
    (fp : String) (gs : List AccessGrant) (r : Row) → joins (joined_to fp) gs r ≡ shown_to fp gs r
unfolding joins shown_to
joins-joined_to fp gs r =
    any-joined_with fp r _
    ∙ ap (λ b. r.owner_key_fingerprint == fp || b) (any-granted fp r.voucher_guid gs)

filter_same :
    (p q : Row → Bool) (rows : List Row) → ((r : Row) → p r ≡ q r) → filter p rows ≡ filter q rows
filter_same p q [] e = refl
filter_same p q (r ∷ rows) e = ground (arith, e r, filter_same p q rows e)

-- With keyed tables, the join with the grants, cut to distinct rows, lists exactly the rows that
-- the identity owns or whose voucher it has a grant for, each once and in table order.
pub select_joined-joined_to :
    (fp : String) (t : Tables)
    → IsKeyed t
    → select_joined (joined_to fp) t ≡ filter (shown_to fp t.grants) t.transmissions
unfolding select_joined
select_joined-joined_to fp t k =
    distinct-left_join (joined_to fp) t.grants t.transmissions k.distinct_ids
    ∙ filter_same _ _ t.transmissions (joins-joined_to fp t.grants)
