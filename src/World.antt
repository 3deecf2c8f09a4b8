-- ===== src/World.antt =====
-- The state that the services and handlers share: the tables, the voucher directory, the partners
-- and the tokens that the push client caches.
pub mod Frames
use go_fdo_voucher_managemen.Prelude.{ℕ, String, List}
use go_fdo_voucher_managemen.Backend.{Result, Exec, Backend}
use go_fdo_voucher_managemen.Disk.{Files}
use go_fdo_voucher_managemen.Partner.{PartnerTable}
use go_fdo_voucher_managemen.Transmission.{Tables}

pub record CachedToken : Type 0 where
  pub token : String
  pub expires_at : ℕ

pub record World : Type 0 where
  pub tables : Backend Tables
  pub disk : Backend Files
  pub partners : Backend PartnerTable
  pub token_cache : List (String × CachedToken)

module _ {A : Type 0} where
  unfoldable pub on_tables : Exec (Backend Tables) A → Exec World A
  on_tables m w = let (r, b) = m w.tables in (r, record w { tables = b })

  unfoldable pub on_disk : Exec (Backend Files) A → Exec World A
  on_disk m w = let (r, b) = m w.disk in (r, record w { disk = b })

  unfoldable pub on_partners : Exec (Backend PartnerTable) A → Exec World A
  on_partners m w = let (r, b) = m w.partners in (r, record w { partners = b })

  -- an answer that changes nothing
  unfoldable pub answer : Result A → Exec World A
  answer r w = (r, w)
