-- ===== src/Services/Hash/Bounds.antt =====
-- The key that `hashString` of ove_extra_data_service.go gives.
use Prim.Native.Char.{char}
use Prim.Native.String.{String, [], ◌∷◌}
use go_fdo_voucher_managemen.Prelude.{
  ℕ, ◌≡◌, ◌⊎◌, inl, inr, refl, ◌≤◌, ◌<◌, ◌%◌, ◌^◌, ◌+◌, arith, Bool-cases, beq, false, beq→eq, ◌*◌,
  if◌then◌else◌,
}
use go_fdo_voucher_managemen.Prelude.Int.{ℤ, pos, negsuc}
use go_fdo_voucher_managemen.Services.Hash.{
  hash_word, hash_string, is_negative, negate, key_of_word,
}

hash_word-lt : (hash : ℕ) (s : String) → hash < 2 ^ 64 → hash_word hash s < 2 ^ 64
hash_word-lt hash [] h = h
hash_word-lt hash (char n p ∷ s) h = hash_word-lt ((hash * 31 + n) % 2 ^ 64) s (omega arith)

abbrev Keyed : ℕ → ℤ → Type 0
Keyed word key =
    ((n : ℕ) × (key ≡ pos n) × (1 ≤ n) × (n ≤ 1000)) ⊎ ((word ≡ 2 ^ 63) × (key ≡ negsuc 806))

key_of_word-Keyed :
    (word : ℕ)
    → word < 2 ^ 64
    → Keyed word (key_of_word (if is_negative word then negate word else word))
key_of_word-Keyed word h = elim (Bool-cases (is_negative word)) [
  | inr e ↦ rw (e, e) (inl (word % 1000 + 1, refl, omega arith, omega arith))
  | inl e ↦ elim (Bool-cases (beq word (2 ^ 63))) [
    | inl least ↦ let same = beq→eq word (2 ^ 63) least in rw same (inr (refl, refl))
    | inr other ↦
        let small : is_negative (negate word) ≡ false = ground arith in
        rw (e, small) (inl (negate word % 1000 + 1, refl, omega arith, omega arith))
  ]
]

-- A text is given a key from 1 to 1000, unless its hash is the least int, whose negation is itself:
-- then the key is -807.
pub hash_string-bounds :
    (s : String)
    → ((n : ℕ) × (hash_string s ≡ pos n) × (1 ≤ n) × (n ≤ 1000))
      ⊎ ((hash_word 0 s ≡ 2 ^ 63) × (hash_string s ≡ negsuc 806))
unfolding hash_string
hash_string-bounds s = key_of_word-Keyed (hash_word 0 s) (hash_word-lt 0 s (omega arith))
