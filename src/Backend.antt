-- ===== src/Backend.antt =====
-- What every component stands on: Go's `error` results as values, and a backend (the SQLite
-- database, the disk) whose statements may fail. A backend carries the list of outages that
-- its next statements meet: `true` at the head makes the next statement fail and change nothing.
pub mod Laws
use go_fdo_voucher_managemen.Prelude.{Bool, true, false, String, List, [], ◌∷◌}
use go_fdo_voucher_managemen.Prelude.Int.{ℤ}

-- The errors that the code tells apart, or that its tests and callers can see.
pub data Error : Type 0 where
  unavailable : Error  -- the driver or the operating system reported a failure
  no_rows : Error  -- sql.ErrNoRows
  constraint : Error  -- a primary key is taken
  rejected : String → Error  -- an error made by the code, with its message
  push_error : (transient : Bool) → (retry_after : ℤ) → String → Error  -- a transfer.PushError

pub data Result {ℓ} (A : Type ℓ) : Type ℓ where
  ok : A → Result A
  err : Error → Result A

-- A Go method with a state behind a pointer and results `(A, error)`. What was written before an
-- error is returned stays written.
abbrev pub Exec : Type 0 → Type 0 → Type 0
Exec S A = S → Result A × S

module _ {S A : Type 0} where
  unfoldable pub pure : A → Exec S A
  pure a s = (ok a, s)

  unfoldable pub raise : Error → Exec S A
  raise e s = (err e, s)

  -- the error is looked at, or dropped, in place of being returned
  unfoldable pub attempt : Exec S A → Exec S (Result A)
  attempt m s = let (r, s') = m s in (ok r, s')

module _ {S A B : Type 0} where
  abbrev pub continue : Result A → (A → Exec S B) → Exec S B
  continue (ok a) f s = f a s
  continue (err e) f s = (err e, s)

  infixl 5 ◌>>=◌ ◌>>◌
  unfoldable pub ◌>>=◌ : Exec S A → (A → Exec S B) → Exec S B
  unfolding pure raise attempt
  ◌>>=◌ m f s = let (r, s') = m s in continue r f s'

  abbrev pub ◌>>◌ : Exec S A → Exec S B → Exec S B
  ◌>>◌ m k = m >>= λ _. k

pub record Backend (T : Type 0) : Type 0 where
  pub content : T
  pub outages : List Bool

module _ {T A : Type 0} where
  -- one statement against the content, by the outages that are left
  run : List Bool → (T → Result A × T) → T → Result A × Backend T
  run [] f t = let (r, t') = f t in (r, record { content = t'; outages = [] })
  run (true ∷ rest) f t = (err unavailable, record { content = t; outages = rest })
  run (false ∷ rest) f t = let (r, t') = f t in (r, record { content = t'; outages = rest })

  unfoldable pub statement : (T → Result A × T) → Exec (Backend T) A
  unfolding run
  statement f b = run b.outages f b.content

  -- a statement that reads
  unfoldable pub query : (T → A) → Exec (Backend T) A
  unfolding statement
  query f = statement (λ t. (ok (f t), t))

module _ {T : Type 0} where
  -- a statement that writes
  unfoldable pub command : (T → T) → Exec (Backend T) Unit
  unfolding statement
  command f = statement (λ t. (ok tt, f t))
