-- ===== src/PullTokens/Trust.antt =====
-- Who is given a token to push vouchers with (pull_service_setup.go).
use go_fdo_voucher_managemen.Prelude.{
  ℕ, ◌≡◌, List, ◌∷◌, refl, String, Bool, true, false, Option, some, any, ◌==◌, [], sym, ◌∙◌, ap,
  ltb, count_where,
}
use go_fdo_voucher_managemen.Backend.{Result, ok, err, Backend, pure, raise, attempt, query, ◌>>=◌}
use go_fdo_voucher_managemen.Backend.Laws.{IsReliable, query_reliable, statement_fails}
use go_fdo_voucher_managemen.Config.{Config}
use go_fdo_voucher_managemen.Environment.{Environment}
use go_fdo_voucher_managemen.Partner.{PartnerTable, is_supplier, has_suppliers, is_trusted_supplier}
use go_fdo_voucher_managemen.Receiver.{Server, on_world, on_receiver}
use go_fdo_voucher_managemen.Receiver.Laws.{supplier_known}
use go_fdo_voucher_managemen.Tokens.{unix_micro, after, validate_token_to_identity}
use go_fdo_voucher_managemen.Tokens.Laws.{
  key_identity, validate_token_to_identity-issue_token_for_key,
}
use go_fdo_voucher_managemen.World.{on_partners}
use go_fdo_voucher_managemen.PullTokens.{
  token_ttl, issue_checked, issue_if_trusted, issue_push_token,
}

-- the state after the two statements of the gate, neither of which fails
abbrev calm : Server → Server
calm s = record s {
  world = record s.world { partners = record { content = s.world.partners.content; outages = [] } };
}

has_suppliers_reliable :
    (b : Backend PartnerTable)
    → IsReliable b
    → has_suppliers b ≡ (
      ok (ltb 0 (count_where is_supplier b.content)),
      record { content = b.content; outages = [] },
    )
unfolding has_suppliers ◌>>=◌ attempt pure
has_suppliers_reliable b rel =
    rw (query_reliable (λ (rows : PartnerTable). ltb 0 (count_where is_supplier rows)) b rel) refl

-- With a partner store that does not fail and has an enabled supplier, a token to push with is
-- issued only for a key of a trusted supplier.
pub issue_push_token-trusted :
    (env : Environment) (cfg : Config) (now : ℕ) (fingerprint : Option String)
    (random : Result String) (public : Result env.PublicKey) (s : Server) (token : String)
    (expiry : ℕ)
    → IsReliable s.world.partners
    → ltb 0 (count_where is_supplier s.world.partners.content) ≡ true
    → (issue_push_token env cfg true now fingerprint random public s).0 ≡ ok (token, expiry)
    → (key : env.PublicKey) × (id : String) × (public ≡ ok key)
      × ((is_trusted_supplier env key s.world.partners).0 ≡ ok (id, true))
unfolding issue_push_token on_world on_partners ◌>>=◌ raise
issue_push_token-trusted env cfg now fingerprint random public s token expiry rel gated issued =
    go public refl (sym (rw (has_suppliers_reliable s.world.partners rel, gated) refl) ∙ issued)
  where
    passed :
        (id : String) (t : Bool) (after : Server)
        → (issue_if_trusted env cfg now fingerprint random (id, t) after).0 ≡ ok (token, expiry)
        → t ≡ true
    passed id true after got = refl
    passed id false after got = absurd (cc)

    go :
        (o : Result env.PublicKey)
        → public ≡ o
        → (issue_checked env cfg now fingerprint random o (calm s)).0 ≡ ok (token, expiry)
        → (key : env.PublicKey) × (id : String) × (public ≡ ok key)
          × ((is_trusted_supplier env key s.world.partners).0 ≡ ok (id, true))
    go (err e) same got = absurd (cc)
    go (ok key) same got =
        let (id, t, asked) = supplier_known env key (calm s).world.partners in
        let as_it_was : (calm s).world.partners ≡ s.world.partners =
          ap (λ o. record { content = s.world.partners.content; outages = o }) (sym rel) in
        (
          key,
          id,
          same,
          ap (λ b. (is_trusted_supplier env key b).0) (sym as_it_was)
              ∙ asked
              ∙ ap (λ x. ok (id, x))
                  (passed id t (on_world (on_partners (is_trusted_supplier env key)) (calm s)).1
                    (rw asked at got)),
        )

-- Where the statement that counts the suppliers fails, and those on tokens do not, any caller whose
-- key has a fingerprint is issued the fresh random token, whatever suppliers there are and whatever the
-- answer on the caller's key: until the expiry that is returned the token identifies that key.
pub issue_push_token_open :
    (env : Environment) (cfg : Config) (now later : ℕ) (fingerprint token : String)
    (public : Result env.PublicKey) (s : Server) (rest : List Bool)
    → s.world.partners.outages ≡ true ∷ rest
    → IsReliable s.receiver
    → (fingerprint == "") ≡ false
    → any (λ r. r.token == token) s.receiver.content.tokens ≡ false
    → ltb (unix_micro later) (unix_micro (after now (token_ttl cfg))) ≡ true
    → ((issue_push_token env cfg true now (some fingerprint) (ok token) public s).0
        ≡ ok (token, after now (token_ttl cfg)))
      × ((validate_token_to_identity env.sha256_hex later token
            (issue_push_token env cfg true now (some fingerprint) (ok token) public s).1.receiver).0
          ≡ ok (key_identity fingerprint))
unfolding issue_push_token on_world on_partners ◌>>=◌ has_suppliers attempt pure query on_receiver
issue_push_token_open env cfg now later fingerprint token public s rest down rel key fresh good =
    let (issued, known, signs) =
      validate_token_to_identity-issue_token_for_key env.sha256_hex now later fingerprint token
        (token_ttl cfg) s.receiver rel key fresh in
    rw (statement_fails _ s.world.partners rest down) (issued, known ∙ rw good refl)
