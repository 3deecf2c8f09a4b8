-- ===== src/Prelude/Text.antt =====
-- strings.ToLower on ASCII letters; letters beyond ASCII, which no GUID or DID method has, stay.
use Prim.Native.Nat.{ℕ, ◌+◌, ◌<◌, compare, Ordering}
use Prim.Native.Char.{Char, char, IsScalar}
use Prim.Native.String.{String, [], ◌∷◌, ◌++◌}
use mathlib.Core.Path.{◌≡◌}
use mathlib.Core.Option.{Option, none, some}
use text.Mathlib.Text.{◌==◌}
use mathlib.Core.Bool.{Bool, true, false, ◌&&◌, ◌||◌}
use go_fdo_voucher_managemen.Prelude.Tests.{if◌then◌else◌, ltb}
use native.Mathlib.Omega.{arith}
use native.Mathlib.Decide.{dec_lt}
use mathlib.Core.Logic.{dite}

pub IsScalar-ascii : (n : ℕ) → n < 100 → IsScalar (n + 32)
IsScalar-ascii n h = let e : compare (n + 32) 55296 ≡ Ordering.lt = ground arith in rw e tt

lower_char : Char → Char
unfolding dec_lt
lower_char (char n p) =
    dite (dec_lt 64 n)
      (λ _.
        dite (dec_lt n 91) (λ h. char (n + 32) (IsScalar-ascii n (omega arith))) (λ _. char n p))
      (λ _. char n p)

unfoldable pub to_lower : String → String
unfolding lower_char
to_lower [] = []
to_lower (c ∷ s) = lower_char c ∷ to_lower s

-- `strings.SplitN(s, " ", 2)`, where it gives two parts
unfoldable pub split_at_space : String → Option (String × String)
split_at_space [] = none
split_at_space (c ∷ s) =
    let rest = split_at_space s in
    if (c ∷ []) == " "
    then some ([], s)
    else elim rest [ none ↦ none | some (before, after) ↦ some (c ∷ before, after) ]

-- `strings.HasPrefix`
abbrev pub starts_with : String → String → Bool
starts_with [] s = true
starts_with (c ∷ p) [] = false
starts_with (c ∷ p) (d ∷ s) = (c ∷ []) == (d ∷ []) && starts_with p s

-- `strings.Contains(text, part)`
unfoldable pub contains : String → String → Bool
contains [] part = starts_with part []
contains (c ∷ s) part = starts_with part (c ∷ s) || contains s part

-- the text without as many characters as `skipped` has
abbrev pub drop_text : String → String → String
drop_text [] s = s
drop_text (d ∷ skipped) [] = []
drop_text (d ∷ skipped) (c ∷ s) = drop_text skipped s

-- `strings.Replace(s, old, new, 1)`
unfoldable pub replace_once : String → String → String → String
replace_once old new [] = []
replace_once old new (c ∷ s) =
    if starts_with old (c ∷ s) then new ++ drop_text old (c ∷ s) else c ∷ replace_once old new s

-- the bytes of a character in UTF-8
char_bytes : Char → ℕ
char_bytes (char n p) =
    if ltb n 128 then 1 else if ltb n 2048 then 2 else if ltb n 65536 then 3 else 4

-- `len(s)`
unfoldable pub byte_length : String → ℕ
unfolding char_bytes
byte_length [] = 0
byte_length (c ∷ s) = char_bytes c + byte_length s
