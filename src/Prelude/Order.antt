-- ===== src/Prelude/Order.antt =====
-- Insertion sort by a Boolean order, stable: what `ORDER BY` gives, with ties in table order.
use go_fdo_voucher_managemen.Prelude.Tests.{if◌then◌else◌, Bool-cases}
use go_fdo_voucher_managemen.Prelude.Lists.{length, take, All, All-at}
use Prim.Native.Nat.{ℕ, zero, suc}
use mathlib.Core.Path.{◌≡◌, refl, ap, ◌∙◌}
use mathlib.Core.Logic.{◌⊎◌, inl, inr}
use mathlib.Core.Bool.{Bool, true, false}
use mathlib.Core.List.{List, [], ◌∷◌, Memᴰ}
use mathlib.Core.List.Memᴰ

module _ {ℓ} {A : Type ℓ} (le : A → A → Bool) where
  pub insert_by : A → List A → List A
  insert_by x [] = x ∷ []
  insert_by x (y ∷ ys) = let rest = insert_by x ys in if le x y then x ∷ y ∷ ys else y ∷ rest

  unfoldable pub sort_by : List A → List A
  unfolding insert_by
  sort_by [] = []
  sort_by (x ∷ xs) = insert_by x (sort_by xs)

  length-insert_by : (x : A) (xs : List A) → length (insert_by x xs) ≡ suc (length xs)
  unfolding insert_by
  length-insert_by x [] = refl
  length-insert_by x (y ∷ ys) = elim (Bool-cases (le x y)) [
    | inl e ↦ rw e
    | inr e ↦ rw e (ap suc (length-insert_by x ys))
  ]

  pub length-sort_by : (xs : List A) → length (sort_by xs) ≡ length xs
  unfolding sort_by
  length-sort_by [] = refl
  length-sort_by (x ∷ xs) = length-insert_by x (sort_by xs) ∙ ap suc (length-sort_by xs)

  All-insert_by {κ} :
      (P : A → Type κ) (x : A) (xs : List A) → P x → All P xs → All P (insert_by x xs)
  unfolding insert_by
  All-insert_by P x [] p h = (p, tt)
  All-insert_by P x (y ∷ ys) p (q, h) = elim (Bool-cases (le x y)) [
    | inl e ↦ rw e (p, (q, h))
    | inr e ↦ rw e (q, All-insert_by P x ys p h)
  ]

  pub All-sort_by {κ} : (P : A → Type κ) (xs : List A) → All P xs → All P (sort_by xs)
  unfolding sort_by
  All-sort_by P [] h = tt
  All-sort_by P (x ∷ xs) (p, h) = All-insert_by P x (sort_by xs) p (All-sort_by P xs h)

  -- each row comes before, or ties with, all the rows after it
  abbrev pub IsSorted : List A → Type 0
  IsSorted [] = Unit
  IsSorted (x ∷ xs) = All (λ y. le x y ≡ true) xs × IsSorted xs

  All-le {κ} : (P Q : A → Type κ) (xs : List A) → ((y : A) → P y → Q y) → All P xs → All Q xs
  All-le P Q [] f h = tt
  All-le P Q (y ∷ ys) f (p, h) = (f y p, All-le P Q ys f h)

  module _ (total : (x y : A) → le x y ≡ false → le y x ≡ true)
      (trans : (x y z : A) → le x y ≡ true → le y z ≡ true → le x z ≡ true) where
    insert_by-IsSorted : (x : A) (xs : List A) → IsSorted xs → IsSorted (insert_by x xs)
    unfolding insert_by
    insert_by-IsSorted x [] h = (tt, tt)
    insert_by-IsSorted x (y ∷ ys) (low, h) = elim (Bool-cases (le x y)) [
      | inl e ↦ rw e ((e, All-le _ _ ys (λ z. trans x y z e) low), (low, h))
      | inr e ↦
          rw e
            (All-insert_by (λ z. le y z ≡ true) x ys (total x y e) low, insert_by-IsSorted x ys h)
    ]

    pub sort_by-IsSorted : (xs : List A) → IsSorted (sort_by xs)
    unfolding sort_by
    sort_by-IsSorted [] = tt
    sort_by-IsSorted (x ∷ xs) = insert_by-IsSorted x (sort_by xs) (sort_by-IsSorted xs)

  mem-insert_by_self : (x : A) (xs : List A) → Memᴰ x (insert_by x xs)
  unfolding insert_by
  mem-insert_by_self x [] = Memᴰ.head refl
  mem-insert_by_self x (y ∷ ys) = elim (Bool-cases (le x y)) [
    | inl e ↦ rw e (Memᴰ.head refl)
    | inr e ↦ rw e (Memᴰ.tail (mem-insert_by_self x ys))
  ]

  mem-insert_by : (x : A) {a : A} (xs : List A) → Memᴰ a xs → Memᴰ a (insert_by x xs)
  unfolding insert_by
  mem-insert_by x [] m = Memᴰ.tail m
  mem-insert_by x (y ∷ ys) (Memᴰ.head p) = elim (Bool-cases (le x y)) [
    | inl e ↦ rw e (Memᴰ.tail (Memᴰ.head p))
    | inr e ↦ rw e (Memᴰ.head p)
  ]
  mem-insert_by x (y ∷ ys) (Memᴰ.tail m) = elim (Bool-cases (le x y)) [
    | inl e ↦ rw e (Memᴰ.tail (Memᴰ.tail m))
    | inr e ↦ rw e (Memᴰ.tail (mem-insert_by x ys m))
  ]

  pub mem-sort_by : {a : A} (xs : List A) → Memᴰ a xs → Memᴰ a (sort_by xs)
  unfolding sort_by
  mem-sort_by [] m = m
  mem-sort_by (x ∷ xs) (Memᴰ.head e) = rw e (mem-insert_by_self x (sort_by xs))
  mem-sort_by (x ∷ xs) (Memᴰ.tail m) = mem-insert_by x (sort_by xs) (mem-sort_by xs m)

  -- What the cut by a limit leaves out comes after all that it keeps.
  pub mem-take_sorted :
      (n : ℕ) {a : A} (xs : List A)
      → IsSorted xs
      → Memᴰ a xs
      → Memᴰ a (take n xs) ⊎ ((length (take n xs) ≡ n) × All (λ y. le y a ≡ true) (take n xs))
  mem-take_sorted zero xs s m = inr (refl, tt)
  mem-take_sorted (suc n) [] s m = absurd (Memᴰ.not-nil m)
  mem-take_sorted (suc n) (x ∷ xs) s (Memᴰ.head e) = inl (Memᴰ.head e)
  mem-take_sorted (suc n) (x ∷ xs) (low, s) (Memᴰ.tail m) = elim (mem-take_sorted n xs s m) [
    | inl kept ↦ inl (Memᴰ.tail kept)
    | inr (full, after) ↦ inr (ap suc full, (All-at (λ y. le x y ≡ true) xs low m, after))
  ]
