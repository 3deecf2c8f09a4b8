-- ===== src/Status/Paths.antt =====
-- voucher_status_handler.go: the identifier in the path, and the pattern of a GUID.
use Prim.Native.Char.{Char, char}
use Prim.Native.String.{String, [], ◌∷◌}
use go_fdo_voucher_managemen.Prelude.{
  ℕ, zero, suc, Bool, true, false, ◌&&◌, ◌||◌, Option, none, some, leb, ◌==◌, if◌then◌else◌,
}

-- `strings.TrimRight(path, "/")`
unfoldable pub trim_slashes : String → String
trim_slashes [] = []
trim_slashes (c ∷ s) =
    let rest = trim_slashes s in if rest == "" && (c ∷ []) == "/" then [] else c ∷ rest

-- the last part of `strings.Split(path, "/")`, and whether it is a proper one
abbrev last_part : String → Bool × String
last_part [] = (false, [])
last_part (c ∷ s) =
    let rest = last_part s in
    if rest.0 then rest else if (c ∷ []) == "/" then (true, rest.1) else (false, c ∷ rest.1)

unfoldable pub extract_last_path_segment : String → String
unfolding trim_slashes
extract_last_path_segment path = (last_part (trim_slashes path)).1

abbrev pub is_hex : Char → Bool
is_hex (char n p) = leb 48 n && leb n 57 || leb 65 n && leb n 70 || leb 97 n && leb n 102

-- `[0-9a-fA-F]{n}` at the start, with what follows
abbrev pub hex_digits : ℕ → String → Option String
hex_digits zero s = some s
hex_digits (suc n) [] = none
hex_digits (suc n) (c ∷ s) = let rest = hex_digits n s in if is_hex c then rest else none

-- `-?`: a hyphen is no hexadecimal digit, so one that is there is taken
abbrev pub optional_hyphen : String → String
optional_hyphen [] = []
optional_hyphen (c ∷ s) = if (c ∷ []) == "-" then s else c ∷ s

abbrev pub then_group : ℕ → Option String → Option String
then_group n none = none
then_group n (some s) = hex_digits n (optional_hyphen s)

abbrev pub at_end : Option String → Bool
at_end none = false
at_end (some s) = s == ""

-- `guidPattern`
unfoldable pub is_guid_pattern : String → Bool
is_guid_pattern s =
    at_end (then_group 12 (then_group 4 (then_group 4 (then_group 4 (hex_digits 8 s)))))

-- `strings.ReplaceAll(identifier, "-", "")`
unfoldable pub strip_hyphens : String → String
strip_hyphens [] = []
strip_hyphens (c ∷ s) = let rest = strip_hyphens s in if (c ∷ []) == "-" then rest else c ∷ rest
