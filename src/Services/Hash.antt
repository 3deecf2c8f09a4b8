-- ===== src/Services/Hash.antt =====
-- ove_extra_data_service.go: the int key of a text, by `hashString`.
pub mod Bounds
use Prim.Native.Char.{char}
use Prim.Native.String.{String, [], ◌∷◌}
use go_fdo_voucher_managemen.Prelude.{ℕ, ◌+◌, ◌-◌, ◌*◌, ◌%◌, ◌^◌, Bool, not, ltb, if◌then◌else◌}
use go_fdo_voucher_managemen.Prelude.Int.{ℤ, pos, sub_ℕ}

-- `hash = hash*31 + int(c)` in turn: an int has 64 bits, kept here as its word modulo 2 ^ 64
abbrev pub hash_word : ℕ → String → ℕ
hash_word hash [] = hash
hash_word hash (char n p ∷ s) = hash_word ((hash * 31 + n) % 2 ^ 64) s

-- the int that a word stands for is negative
abbrev pub is_negative : ℕ → Bool
is_negative word = not (ltb word (2 ^ 63))

-- `-hash`
abbrev pub negate : ℕ → ℕ
negate word = (2 ^ 64 - word) % 2 ^ 64

-- `(hash % 1000) + 1`, where the remainder has the sign of the hash
abbrev pub key_of_word : ℕ → ℤ
key_of_word word =
    if is_negative word then sub_ℕ 1 ((2 ^ 64 - word) % 1000) else pos (word % 1000 + 1)

unfoldable pub hash_string : String → ℤ
hash_string s =
    let hash = hash_word 0 s in key_of_word (if is_negative hash then negate hash else hash)
