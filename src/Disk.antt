-- ===== src/Disk.antt =====
-- The calls of package os that the code makes on voucher files. A disk maps a path to contents.
pub mod Laws
use go_fdo_voucher_managemen.Prelude.{
  String, Bool, true, false, Option, none, some, List, [], ◌∷◌, ◌==◌, if◌then◌else◌,
}
use go_fdo_voucher_managemen.Backend.{
  Error, Result, ok, err, rejected, Exec, Backend, statement, query, command,
}

abbrev pub Files : Type 0
Files = List (String × String)

unfoldable pub lookup : String → Files → Option String
lookup path [] = none
lookup path ((p, text) ∷ files) = if p == path then some text else lookup path files

unfoldable pub erase : String → Files → Files
erase path [] = []
erase path ((p, text) ∷ files) =
    let rest = erase path files in if p == path then rest else (p, text) ∷ rest

unfoldable pub put : String → String → Files → Files
unfolding erase
put path text files = (path, text) ∷ erase path files

abbrev pub or_missing : Option String → Result String
or_missing none = err (rejected "no such file")
or_missing (some text) = ok text

-- os.ReadFile
unfoldable pub read_file : String → Exec (Backend Files) String
read_file path = statement (λ files. (or_missing (lookup path files), files))

-- os.WriteFile
unfoldable pub write_file : String → String → Exec (Backend Files) Unit
write_file path text = command (put path text)

-- os.Remove
unfoldable pub remove_file : String → Exec (Backend Files) Unit
remove_file path = statement (λ files. elim (lookup path files) [
  | none ↦ (err (rejected "no such file"), files)
  | some _ ↦ (ok tt, erase path files)
])

abbrev pub is_some {ℓ} : {A : Type ℓ} → Option A → Bool
is_some none = false
is_some (some a) = true

-- os.Stat, as far as whether it reports no error
unfoldable pub file_exists : String → Exec (Backend Files) Bool
file_exists path = query (λ files. is_some (lookup path files))

-- os.Rename, over a file that may be there
unfoldable pub rename_file : String → String → Exec (Backend Files) Unit
rename_file from to = statement (λ files. elim (lookup from files) [
  | none ↦ (err (rejected "no such file"), files)
  | some text ↦ (ok tt, put to text (erase from files))
])
