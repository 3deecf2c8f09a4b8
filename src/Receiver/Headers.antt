-- ===== src/Receiver/Headers.antt =====
-- voucher_receiver_handler.go: the address that a request is logged with.
use Prim.Native.Char.{Char, char}
use Prim.Native.String.{String, [], ◌∷◌}
use go_fdo_voucher_managemen.Prelude.{
  Bool, ◌&&◌, ◌||◌, not, Option, none, some, beq, leb, ◌==◌, if◌then◌else◌,
}

-- the first part of `strings.Split(s, ",")`
abbrev before_comma : String → String
before_comma [] = []
before_comma (c ∷ s) = let rest = before_comma s in if (c ∷ []) == "," then [] else c ∷ rest

-- the white space of ASCII
abbrev is_space : Char → Bool
is_space (char n p) = beq n 32 || leb 9 n && leb n 13

abbrev trim_left : String → String
trim_left [] = []
trim_left (c ∷ s) = let rest = trim_left s in if is_space c then rest else c ∷ s

abbrev trim_right : String → String
trim_right [] = []
trim_right (c ∷ s) = let rest = trim_right s in if rest == "" && is_space c then [] else c ∷ rest

-- what stands before the last colon, if there is one
abbrev before_last_colon : String → Option String
before_last_colon [] = none
before_last_colon (c ∷ s) = elim (before_last_colon s) [
  | some before ↦ some (c ∷ before)
  | none ↦ if (c ∷ []) == ":" then some [] else none
]

abbrev without_port : String → Option String → String
without_port address none = address
without_port address (some host) = host

unfoldable pub get_source_ip : (forwarded_for real_ip remote_addr : String) → String
get_source_ip forwarded_for real_ip remote_addr =
    if not (forwarded_for == "")
    then trim_right (trim_left (before_comma forwarded_for))
    else if not (real_ip == "")
    then real_ip
    else without_port remote_addr (before_last_colon remote_addr)
