-- ===== src/Transmission/Access.antt =====
-- Who may see which voucher, by voucher_transmission_store.go: the access check, the grants
-- and the list of vouchers agree.
pub mod Join
pub mod Latest
use go_fdo_voucher_managemen.Prelude.{
  ℕ, zero, suc, ◌≤◌, any-at, ◌≡◌, refl, sym, ◌∙◌, ap, ◌⊎◌, inl, inr, String, Bool, true, false,
  ◌&&◌, ◌||◌, not, Option, none, some, List, [], ◌∷◌, ◌++◌, map, All, Memᴰ, filter, any, ltb, beq,
  ◌==◌, eq_iff, eq_refl, length, take, length-take-le, All-take, All-mem, All-at, All-filter,
  filter-All, mem-filter, Bool-cases, if◌then◌else◌, arith,
}
use go_fdo_voucher_managemen.Transmission.Access.Join.{shown_to, select_joined-joined_to}
use go_fdo_voucher_managemen.Prelude.Int.{ℤ}
use go_fdo_voucher_managemen.Prelude.Order.{
  sort_by, IsSorted, sort_by-IsSorted, All-sort_by, mem-sort_by, mem-take_sorted,
}
use go_fdo_voucher_managemen.Backend.{Result, ok, err, Backend, query, command}
use go_fdo_voucher_managemen.Backend.Laws.{IsReliable, command_reliable, query_reliable, query-ok}
use go_fdo_voucher_managemen.Transmission.{VoucherTransmissionRecord, AccessGrant, Tables, limit_or}
use go_fdo_voucher_managemen.Transmission.Store.{newest_first}
use go_fdo_voucher_managemen.Transmission.Store.Identity.{IsKeyed}
use go_fdo_voucher_managemen.Transmission.Grants.{
  same_key, insert_grant, insert_access_grant, grants_to, remove_grants,
  remove_access_grants_for_voucher, owns, count_union, has_access_by_guid, joined_to, select_joined,
  list_by_access_grant,
}

abbrev Row : Type 0
Row = VoucherTransmissionRecord

-- what `HasAccessByGUID` answers when the statement runs
unfoldable pub may_see : String → String → Tables → Bool
may_see guid fp t = any (owns guid fp) t.transmissions || any (grants_to guid fp) t.grants

pub count_union-may_see :
    (guid fp : String) (t : Tables) → ltb 0 (count_union guid fp t) ≡ may_see guid fp t
unfolding count_union may_see
count_union-may_see guid fp t = ground arith

pub has_access_by_guid_reliable :
    (guid fp : String) (b : Backend Tables)
    → IsReliable b
    → has_access_by_guid guid fp b
      ≡ (ok (may_see guid fp b.content), record { content = b.content; outages = [] })
unfolding has_access_by_guid
has_access_by_guid_reliable guid fp b rel = rw (
  query_reliable (λ t. ltb 0 (count_union guid fp t)) b rel,
  count_union-may_see guid fp b.content,
)

any-append_grant :
    (guid fp : String) (gs : List AccessGrant) (g : AccessGrant)
    → any (grants_to guid fp) (gs ++ g ∷ []) ≡ (any (grants_to guid fp) gs || grants_to guid fp g)
any-append_grant guid fp [] g = ground arith
any-append_grant guid fp (h ∷ gs) g = ground (arith, any-append_grant guid fp gs g)

-- a grant with the same key is one to the same identity
any-same_key :
    (g : AccessGrant) (gs : List AccessGrant)
    → any (same_key g) gs ≡ true
    → any (grants_to g.voucher_guid g.identity_fingerprint) gs ≡ true
unfolding same_key grants_to
any-same_key g [] e = cc
any-same_key g (h ∷ gs) e = ground (
  arith,
  any-same_key g gs,
  eq_iff g.voucher_guid h.voucher_guid,
  eq_iff h.voucher_guid g.voucher_guid,
  eq_iff g.identity_fingerprint h.identity_fingerprint,
  eq_iff h.identity_fingerprint g.identity_fingerprint,
)

may_see-insert_grant :
    (guid fp : String) (g : AccessGrant) (t : Tables)
    → may_see guid fp (insert_grant g t) ≡ (grants_to guid fp g || may_see guid fp t)
unfolding may_see insert_grant grants_to
may_see-insert_grant guid fp g t = elim (Bool-cases (any (same_key g) t.grants)) [
  | inl taken ↦ rw taken (
      ground (
        arith,
        any-same_key g t.grants taken,
        eq_iff g.voucher_guid guid,
        eq_iff g.identity_fingerprint fp,
      ))
  | inr free ↦
      rw free
        (ground (arith, any-append_grant guid fp t.grants (record g { id = suc t.last_grant_id })))
]

-- With no outage, after InsertAccessGrant the access check answers true for the grant's voucher
-- and identity, and as before for every other pair.
pub has_access_by_guid-insert_access_grant :
    (now : ℕ) (g : AccessGrant) (guid fp : String) (b : Backend Tables)
    → IsReliable b
    → (has_access_by_guid guid fp (insert_access_grant now g b).1).0 ≡ (
        if g.voucher_guid == guid && g.identity_fingerprint == fp
        then ok true
        else (has_access_by_guid guid fp b).0)
unfolding insert_access_grant grants_to
has_access_by_guid-insert_access_grant now g guid fp b rel =
    rw (command_reliable _ b rel, has_access_by_guid_reliable guid fp b rel)
      (rw
        (has_access_by_guid_reliable guid fp
          (record {
            content =
                insert_grant
                  (record g { granted_at = if beq g.granted_at 0 then now else g.granted_at })
                  b.content;
            outages = [];
          })
          refl)
        (ground (
          arith,
          may_see-insert_grant guid fp
              (record g { granted_at = if beq g.granted_at 0 then now else g.granted_at })
              b.content,
        )))

any-removed :
    (guid other fp : String) (gs : List AccessGrant)
    → any (grants_to other fp) (filter (λ g. not (g.voucher_guid == guid)) gs)
      ≡ (if guid == other then false else any (grants_to other fp) gs)
unfolding grants_to
any-removed guid other fp [] = ground arith
any-removed guid other fp (g ∷ gs) = ground (
  arith,
  any-removed guid other fp gs,
  eq_iff g.voucher_guid guid,
  eq_iff g.voucher_guid other,
  eq_iff guid other,
)

-- With no outage, after RemoveAccessGrantsForVoucher the access check of that voucher answers
-- whether the identity owns one of its rows, and that of every other voucher as before.
pub has_access_by_guid-remove_access_grants :
    (guid other fp : String) (b : Backend Tables)
    → IsReliable b
    → (has_access_by_guid other fp (remove_access_grants_for_voucher guid b).1).0 ≡ (
        if guid == other
        then ok (any (owns other fp) b.content.transmissions)
        else (has_access_by_guid other fp b).0)
unfolding remove_access_grants_for_voucher may_see remove_grants
has_access_by_guid-remove_access_grants guid other fp b rel =
    rw (command_reliable _ b rel, has_access_by_guid_reliable other fp b rel)
      (rw
        (has_access_by_guid_reliable other fp
          (record { content = remove_grants guid b.content; outages = [] }) refl)
        (ground (arith, any-removed guid other fp b.content.grants)))

-- a row that the join shows may be seen
shown_to-may_see :
    (fp : String) (t : Tables) (r : Row)
    → Memᴰ r t.transmissions
    → shown_to fp t.grants r ≡ true
    → may_see r.voucher_guid fp t ≡ true
unfolding shown_to may_see owns
shown_to-may_see fp t r m e = elim (Bool-cases (r.owner_key_fingerprint == fp)) [
  | inl own ↦ ground (
    arith,
    any-at (owns r.voucher_guid fp) t.transmissions m
        (unfold owns in ground (arith, eq_refl r.voucher_guid)),
  )
  | inr granted ↦ ground arith
]

-- A list of the vouchers of one identity: stored rows that the access check lets it see, newest first, at
-- most `n`; a row that it owns, or whose voucher it has a grant for, and that is not listed, is at
-- most as new as the rows of a full list.
pub record IsAccessList (fp : String) (n : ℕ) (b : Backend Tables) (rows : List Row) : Type 0 where
  pub stored : All (λ r. Memᴰ r b.content.transmissions) rows
  pub accessible : All (λ r. (has_access_by_guid r.voucher_guid fp b).0 ≡ ok true) rows
  pub ordered : IsSorted newest_first rows
  pub bounded : length rows ≤ n
  pub complete :
      (r : Row)
      → Memᴰ r b.content.transmissions
      → (r.owner_key_fingerprint == fp || any (grants_to r.voucher_guid fp) b.content.grants) ≡ true
      → Memᴰ r rows ⊎ ((length rows ≡ n) × All (λ q. newest_first q r ≡ true) rows)

newest_first_total : (a b : Row) → newest_first a b ≡ false → newest_first b a ≡ true
unfolding newest_first
newest_first_total a b h = ground arith

newest_first_trans :
    (a b c : Row) → newest_first a b ≡ true → newest_first b c ≡ true → newest_first a c ≡ true
unfolding newest_first
newest_first_trans a b c h k = ground arith

IsSorted-take :
    (n : ℕ) (rows : List Row) → IsSorted newest_first rows → IsSorted newest_first (take n rows)
IsSorted-take zero rows h = tt
IsSorted-take (suc n) [] h = tt
IsSorted-take (suc n) (r ∷ rows) (low, h) =
    (All-take (λ y. newest_first r y ≡ true) n rows low, IsSorted-take n rows h)

visible :
    (fp : String) (b : Backend Tables)
    → IsReliable b
    → (rows : List Row) → All (λ r. Memᴰ r b.content.transmissions) rows
    → All
        (λ r. (has_access_by_guid r.voucher_guid fp b).0 ≡ ok true)
        (filter (shown_to fp b.content.grants) rows)
visible fp b rel [] h = tt
visible fp b rel (r ∷ rows) (m, h) = elim (Bool-cases (shown_to fp b.content.grants r)) [
  | inl e ↦ rw e (seen e, visible fp b rel rows h)
  | inr e ↦ rw e (visible fp b rel rows h)
]
  where
    seen :
        shown_to fp b.content.grants r ≡ true → (has_access_by_guid r.voucher_guid fp b).0 ≡ ok true
    seen e =
        rw
          (has_access_by_guid_reliable r.voucher_guid fp b rel, shown_to-may_see fp b.content r m e)

-- With no outage and keyed tables, ListByAccessGrant returns a list of the identity's vouchers, of
-- at most the given limit, or 50 where that is not positive.
pub list_by_access_grant-IsAccessList :
    (fp : String) (limit : ℤ) (b : Backend Tables)
    → IsReliable b
    → IsKeyed b.content
    → (rows : List Row) × ((list_by_access_grant fp limit b).0 ≡ ok rows)
      × IsAccessList fp (limit_or 50 limit) b rows
unfolding list_by_access_grant shown_to
list_by_access_grant-IsAccessList fp limit b rel k = (
  take n sorted,
  ap (λ p. p.0)
        (query_reliable (λ t. take n (sort_by newest_first (select_joined (joined_to fp) t))) b rel)
      ∙ ap (λ l. ok (take n (sort_by newest_first l))) (select_joined-joined_to fp b.content k),
  record {
    stored = All-take Stored n sorted (
        All-sort_by newest_first Stored shown (
          All-filter Stored (shown_to fp b.content.grants) b.content.transmissions
            (All-mem b.content.transmissions)));
    accessible = All-take Seen n sorted (
        All-sort_by newest_first Seen shown
          (visible fp b rel b.content.transmissions (All-mem b.content.transmissions)));
    ordered = IsSorted-take n sorted in_order;
    bounded = length-take-le n sorted;
    complete = λ r m e. mem-take_sorted newest_first n sorted in_order (
        mem-sort_by newest_first shown
          (mem-filter (shown_to fp b.content.grants) b.content.transmissions e m));
  },
)
  where
    n : ℕ
    n = limit_or 50 limit

    shown : List Row
    shown = filter (shown_to fp b.content.grants) b.content.transmissions

    sorted : List Row
    sorted = sort_by newest_first shown

    in_order : IsSorted newest_first sorted
    in_order = sort_by-IsSorted newest_first newest_first_total newest_first_trans shown

    Stored : Row → Type 0
    Stored r = Memᴰ r b.content.transmissions

    Seen : Row → Type 0
    Seen r = (has_access_by_guid r.voucher_guid fp b).0 ≡ ok true
