-- ===== src/World/Frames.antt =====
-- Actions that leave the tables of the database alone, by the way they are built.
use go_fdo_voucher_managemen.Prelude.{◌≡◌, refl, ◌∙◌, Bool, true, false, if◌then◌else◌}
use go_fdo_voucher_managemen.Backend.{
  Error, Result, ok, err, Exec, Backend, pure, raise, attempt, continue, ◌>>=◌,
}
use go_fdo_voucher_managemen.Disk.{Files}
use go_fdo_voucher_managemen.World.{World, on_disk, answer}

pub record KeepsTables {A : Type 0} (m : Exec World A) : Type 0 where
  pub at : (w : World) → (m w).1.tables ≡ w.tables

module _ {A : Type 0} where
  pub KeepsTables-answer : (r : Result A) → KeepsTables (answer r)
  unfolding answer
  KeepsTables-answer r = record { at = λ w. refl }

  pub KeepsTables-pure : (a : A) → KeepsTables (pure {S = World} a)
  unfolding pure
  KeepsTables-pure a = record { at = λ w. refl }

  pub KeepsTables-raise : (e : Error) → KeepsTables (raise {S = World} {A = A} e)
  unfolding raise
  KeepsTables-raise e = record { at = λ w. refl }

  pub KeepsTables-on_disk : (m : Exec (Backend Files) A) → KeepsTables (on_disk m)
  unfolding on_disk
  KeepsTables-on_disk m = record { at = λ w. refl }

  pub KeepsTables-attempt : (m : Exec World A) → KeepsTables m → KeepsTables (attempt m)
  unfolding attempt
  KeepsTables-attempt m k = record { at = λ w. k.at w }

  pub KeepsTables-if :
      (b : Bool) (m n : Exec World A)
      → KeepsTables m
      → KeepsTables n
      → KeepsTables (if b then m else n)
  KeepsTables-if true m n k l = k
  KeepsTables-if false m n k l = l

continue-tables :
    {A B : Type 0} (f : A → Exec World B) (r : Result A) (w : World)
    → ((a : A) → KeepsTables (f a))
    → (continue r f w).1.tables ≡ w.tables
continue-tables f (ok a) w k = (k a).at w
continue-tables f (err e) w k = refl

pub KeepsTables-bind :
    {A B : Type 0} (m : Exec World A) (f : A → Exec World B)
    → KeepsTables m
    → ((a : A) → KeepsTables (f a))
    → KeepsTables (m >>= f)
unfolding ◌>>=◌
KeepsTables-bind m f h k = record { at = λ w. continue-tables f (m w).0 (m w).1 k ∙ h.at w }

pub ruleset frames = (
  KeepsTables-answer, KeepsTables-pure, KeepsTables-raise, KeepsTables-on_disk, KeepsTables-attempt,
  KeepsTables-if, KeepsTables-bind,
)
