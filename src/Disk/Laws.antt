-- ===== src/Disk/Laws.antt =====
-- Files that are written, read and removed.
use go_fdo_voucher_managemen.Prelude.{
  ◌≡◌, String, none, some, [], ◌∷◌, ◌==◌, eq_iff, if◌then◌else◌, arith,
}
use go_fdo_voucher_managemen.Disk.{Files, lookup, erase, put}

pub lookup-erase :
    (p q : String) (files : Files)
    → lookup q (erase p files) ≡ (if p == q then none else lookup q files)
unfolding lookup erase
lookup-erase p q [] = ground arith
lookup-erase p q ((r, text) ∷ files) =
    ground (arith, lookup-erase p q files, eq_iff r p, eq_iff r q, eq_iff p q)

pub lookup-put :
    (p q text : String) (files : Files)
    → lookup q (put p text files) ≡ (if p == q then some text else lookup q files)
unfolding lookup put
lookup-put p q text files = ground (arith, lookup-erase p q files)
