-- ===== src/Prelude/Lists.antt =====
-- Lists measured by native numbers and filtered by Boolean tests, with the predicates over them.
use Prim.Native.Nat.{ℕ, zero, suc, ◌≤◌}
use mathlib.Core.Path.{◌≡◌, refl, ap}
use mathlib.Core.Bool.{Bool, true, false, ◌||◌}
use mathlib.Core.List.{List, [], ◌∷◌, ◌++◌, map, Memᴰ}
use mathlib.Core.List.Memᴰ
use native.Mathlib.Omega.{arith}
use mathlib.Core.Logic.{inl, inr}
use go_fdo_voucher_managemen.Prelude.Tests.{if◌then◌else◌, Bool-cases}

module _ {ℓ} {A : Type ℓ} where
  abbrev pub length : List A → ℕ
  length [] = 0
  length (x ∷ xs) = suc (length xs)

  abbrev pub take : ℕ → List A → List A
  take zero xs = []
  take (suc n) [] = []
  take (suc n) (x ∷ xs) = x ∷ take n xs

  -- the rows that pass a test, in order
  abbrev pub filter : (A → Bool) → List A → List A
  filter p [] = []
  filter p (x ∷ xs) = let rest = filter p xs in if p x then x ∷ rest else rest

  abbrev pub any : (A → Bool) → List A → Bool
  any p [] = false
  any p (x ∷ xs) = p x || any p xs

  -- the rows that pass a test, counted
  abbrev pub count_where : (A → Bool) → List A → ℕ
  count_where p [] = 0
  count_where p (x ∷ xs) = let rest = count_where p xs in if p x then suc rest else rest

module _ {ℓ κ} {A : Type ℓ} (P : A → Type κ) where
  abbrev pub All : List A → Type κ
  All [] = Unit
  All (x ∷ xs) = P x × All xs

module _ {ℓ κ} {A : Type ℓ} (P : A → Type κ) where
  pub All-append : (xs ys : List A) → All P xs → All P ys → All P (xs ++ ys)
  All-append [] ys h k = k
  All-append (x ∷ xs) ys (p, h) k = (p, All-append xs ys h k)

  pub All-take : (n : ℕ) (xs : List A) → All P xs → All P (take n xs)
  All-take zero xs h = tt
  All-take (suc n) [] h = tt
  All-take (suc n) (x ∷ xs) (p, h) = (p, All-take n xs h)

  pub All-filter : (t : A → Bool) (xs : List A) → All P xs → All P (filter t xs)
  All-filter t [] h = tt
  All-filter t (x ∷ xs) (p, h) = elim (Bool-cases (t x)) [
    | inl e ↦ rw e (p, All-filter t xs h)
    | inr e ↦ rw e (All-filter t xs h)
  ]

module _ {ℓ} {A : Type ℓ} where
  pub filter-All : (t : A → Bool) (xs : List A) → All (λ x. t x ≡ true) (filter t xs)
  filter-All t [] = tt
  filter-All t (x ∷ xs) = elim (Bool-cases (t x)) [
    | inl e ↦ rw e (e, filter-All t xs)
    | inr e ↦ rw e (filter-All t xs)
  ]

  pub length-take-le : (n : ℕ) (xs : List A) → length (take n xs) ≤ n
  length-take-le zero xs = omega arith
  length-take-le (suc n) [] = omega arith
  length-take-le (suc n) (x ∷ xs) = omega (arith, length-take-le n xs)

  pub take_all : (n : ℕ) (xs : List A) → length xs ≤ n → take n xs ≡ xs
  take_all zero [] h = refl
  take_all zero (x ∷ xs) h = absurd (omega arith)
  take_all (suc n) [] h = refl
  take_all (suc n) (x ∷ xs) h = ap (λ r. x ∷ r) (take_all n xs (omega arith))

module _ {ℓ} {A : Type ℓ} where
  pub mem-filter :
      (t : A → Bool) {a : A} (xs : List A) → t a ≡ true → Memᴰ a xs → Memᴰ a (filter t xs)
  mem-filter t [] e m = m
  mem-filter t {a} (x ∷ xs) e (Memᴰ.head p) = let f : t x ≡ true = rw (← p) e in rw f (Memᴰ.head p)
  mem-filter t (x ∷ xs) e (Memᴰ.tail m) = elim (Bool-cases (t x)) [
    | inl f ↦ rw f (Memᴰ.tail (mem-filter t xs e m))
    | inr f ↦ rw f (mem-filter t xs e m)
  ]

  pub any-at : (p : A → Bool) {a : A} (xs : List A) → Memᴰ a xs → p a ≡ true → any p xs ≡ true
  any-at p [] m e = absurd (Memᴰ.not-nil m)
  any-at p (x ∷ xs) (Memᴰ.head q) e = let f : p x ≡ true = rw (← q) e in rw f refl
  any-at p (x ∷ xs) (Memᴰ.tail m) e = ground (arith, any-at p xs m e)

  -- each element is a member
  pub All-mem : (xs : List A) → All (λ x. Memᴰ x xs) xs
  All-mem xs = go xs (λ a m. m)
    where
      go : (ys : List A) → ((a : A) → Memᴰ a ys → Memᴰ a xs) → All (λ y. Memᴰ y xs) ys
      go [] f = tt
      go (y ∷ ys) f = (f y (Memᴰ.head refl), go ys (λ a m. f a (Memᴰ.tail m)))

module _ {ℓ κ} {A : Type ℓ} (P : A → Type κ) where
  pub All-at : (xs : List A) {a : A} → All P xs → Memᴰ a xs → P a
  All-at [] h m = absurd (Memᴰ.not-nil m)
  All-at (x ∷ xs) (p, h) (Memᴰ.head e) = rw e p
  All-at (x ∷ xs) (p, h) (Memᴰ.tail m) = All-at xs h m

-- a predicate of both lists, by the rows themselves
module _ {ℓ κ μ ν} {A : Type ℓ} (P : A → Type κ) (Q : A → Type μ) where
  pub All-both :
      (R : A → Type ν)
      → ((a : A) → P a → Q a → R a)
      → (xs : List A) → All P xs
      → All Q xs
      → All R xs
  All-both R f [] h k = tt
  All-both R f (x ∷ xs) (p, h) (q, k) = (f x p q, All-both R f xs h k)

pub All-map {ℓ κ μ} :
    {A : Type ℓ} {B : Type κ} (P : B → Type μ) (f : A → B) (xs : List A)
    → All (λ x. P (f x)) xs
    → All P (map f xs)
All-map P f [] h = tt
All-map P f (x ∷ xs) (p, h) = (p, All-map P f xs h)

pub All-imp {ℓ κ μ} :
    {A : Type ℓ} (P : A → Type κ) (Q : A → Type μ) (xs : List A)
    → ((x : A) → P x → Q x)
    → All P xs
    → All Q xs
All-imp P Q [] f h = tt
All-imp P Q (x ∷ xs) f (p, h) = (f x p, All-imp P Q xs f h)

pub All-and {ℓ κ μ} :
    {A : Type ℓ} (P : A → Type κ) (Q : A → Type μ) (xs : List A)
    → All P xs
    → All Q xs
    → All (λ x. P x × Q x) xs
All-and P Q [] h k = tt
All-and P Q (x ∷ xs) (h, hs) (k, ks) = ((h, k), All-and P Q xs hs ks)
