-- ===== src/Services/Substitute.antt =====
-- external_executor.go: the variables of a command template.
use Prim.Native.String.{String, [], ◌∷◌, ◌++◌}
use go_fdo_voucher_managemen.Prelude.{ℕ, zero, suc, ◌-◌, if◌then◌else◌}
use go_fdo_voucher_managemen.Prelude.Text.{starts_with}

abbrev text_length : String → ℕ
text_length [] = 0
text_length (c ∷ s) = suc (text_length s)

-- `strings.ReplaceAll(s, old, new)` from a place where `skip` more characters belong to a match
abbrev replace_from : ℕ → String → String → String → String
replace_from skip old new [] = []
replace_from (suc skip) old new (c ∷ s) = replace_from skip old new s
replace_from zero old new (c ∷ s) =
    let hit = starts_with old (c ∷ s) in
    let rest = replace_from (if hit then text_length old - 1 else 0) old new s in
    if hit then new ++ rest else c ∷ rest

-- `strings.ReplaceAll(s, "{" + key + "}", value)`
unfoldable pub substitute : String → String → String → String
substitute key value s = replace_from 0 ("{" ++ key ++ "}") value s
