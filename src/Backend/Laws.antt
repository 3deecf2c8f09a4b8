-- ===== src/Backend/Laws.antt =====
-- What one statement may do, whatever the outages, and what it does when there are none.
use go_fdo_voucher_managemen.Prelude.{
  ◌≡◌, refl, ap, ◌⊎◌, inl, inr, true, false, List, [], ◌∷◌, arith, Bool,
}
use go_fdo_voucher_managemen.Backend.{
  Error, unavailable, Result, ok, err, Backend, run, statement, query, command,
}

-- no statement will fail
abbrev pub IsReliable : {T : Type 0} → Backend T → Type 0
IsReliable b = b.outages ≡ []

module _ {T A : Type 0} where
  -- An outage, or the statement's own effect.
  abbrev pub Ran : (T → Result A × T) → T → Result A × Backend T → Type 0
  Ran f t (r, b) =
      ((r ≡ err unavailable) × (b.content ≡ t)) ⊎ ((r ≡ (f t).0) × (b.content ≡ (f t).1))

  run-Ran : (os : List Bool) (f : T → Result A × T) (t : T) → Ran f t (run os f t)
  unfolding run
  run-Ran [] f t = inr (refl, refl)
  run-Ran (true ∷ os) f t = inl (refl, refl)
  run-Ran (false ∷ os) f t = inr (refl, refl)

  pub statement-Ran : (f : T → Result A × T) (b : Backend T) → Ran f b.content (statement f b)
  unfolding statement
  statement-Ran f b = run-Ran b.outages f b.content

  -- With no outage the statement takes effect, and none is made.
  pub statement_reliable :
      (f : T → Result A × T) (b : Backend T)
      → IsReliable b
      → statement f b ≡ ((f b.content).0, record { content = (f b.content).1; outages = [] })
  unfolding statement run
  statement_reliable f b h = rw h

  -- The first outage: the statement fails, and nothing changes.
  pub statement_fails :
      (f : T → Result A × T) (b : Backend T) (rest : List Bool)
      → b.outages ≡ true ∷ rest
      → statement f b ≡ (err unavailable, record { content = b.content; outages = rest })
  unfolding statement run
  statement_fails f b rest h = rw h refl

  pub content-query : (f : T → A) (b : Backend T) → (query f b).1.content ≡ b.content
  unfolding query
  content-query f b = ground (arith, statement-Ran (λ (t : T). (ok (f t), t)) b)

  pub query-ok : (f : T → A) (b : Backend T) {a : A} → (query f b).0 ≡ ok a → a ≡ f b.content
  unfolding query
  query-ok f b h = ground (arith, statement-Ran (λ (t : T). (ok (f t), t)) b)

  pub query_reliable :
      (f : T → A) (b : Backend T)
      → IsReliable b
      → query f b ≡ (ok (f b.content), record { content = b.content; outages = [] })
  unfolding query
  query_reliable f b h = statement_reliable (λ t. (ok (f t), t)) b h

module _ {T : Type 0} where
  pub command_reliable :
      (f : T → T) (b : Backend T)
      → IsReliable b
      → command f b ≡ (ok tt, record { content = f b.content; outages = [] })
  unfolding command
  command_reliable f b h = statement_reliable (λ t. (ok tt, f t)) b h

  -- A command that fails has changed nothing.
  pub command-err :
      (f : T → T) (b : Backend T) {e : Error}
      → (command f b).0 ≡ err e
      → (command f b).1.content ≡ b.content
  unfolding command
  command-err f b h = ground (arith, statement-Ran (λ (t : T). (ok tt, f t)) b)

  pub command-ok :
      (f : T → T) (b : Backend T) → (command f b).0 ≡ ok tt → (command f b).1.content ≡ f b.content
  unfolding command
  command-ok f b h = ground (arith, statement-Ran (λ (t : T). (ok tt, f t)) b)

  -- What holds of the content before and after the effect holds whether or not it happens.
  pub command-keeps :
      (P : T → Type 0) (f : T → T) (b : Backend T)
      → P b.content
      → P (f b.content)
      → P (command f b).1.content
  unfolding command
  command-keeps P f b h k = elim (statement-Ran (λ (t : T). (ok tt, f t)) b) [
    | inl (_, e) ↦ rw e h
    | inr (_, e) ↦ rw e k
  ]

-- A view of the content that a command respects is respected with the outages too.
module _ {T U : Type 0} (φ : T → U) where
  abbrev pub view : Backend T → Backend U
  view b = record { content = φ b.content; outages = b.outages }

  run-view :
      (os : List Bool) (f : T → T) (g : U → U) (t : T)
      → φ (f t) ≡ g (φ t)
      → view (run os (λ t. (ok tt, f t)) t).1 ≡ (run {A = Unit} os (λ u. (ok tt, g u)) (φ t)).1
  unfolding run
  run-view [] f g t e = ap (λ u. record { content = u; outages = [] }) e
  run-view (true ∷ os) f g t e = refl
  run-view (false ∷ os) f g t e = ap (λ u. record { content = u; outages = os }) e

  pub command-view :
      (f : T → T) (g : U → U) (b : Backend T)
      → φ (f b.content) ≡ g (φ b.content)
      → view (command f b).1 ≡ (command g (view b)).1
  unfolding command statement
  command-view f g b e = run-view b.outages f g b.content e
