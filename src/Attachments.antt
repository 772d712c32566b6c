-- ===== src/Attachments.antt =====
-- crates/banto-attachments/src/lib.rs: files that belong to a record of any resource. The metadata are rows of the
-- table `attachments` (migration 0006), the bodies and the thumbnails are files under one directory.
pub mod Input
pub mod Image
pub mod Files
pub mod Service
pub mod Flawless
pub mod Paths
pub mod Upload
pub mod Delete
pub mod Valid
pub mod Record
pub mod Reads
pub mod Serve
pub mod Ensures
mod Tests
use my_template.Prelude.{ℕ, String, Bool, Option}
use my_template.Disk.{Bytes, Disk}
use my_template.Storage.Rows.{Table}

pub record AttachmentMeta : Type 0 where
  pub id : ℕ
  pub resource : String
  pub resource_id : String
  pub file_name : String
  pub mime : String
  pub size_bytes : ℕ
  pub sha256 : String
  pub has_thumbnail : Bool
  pub created_at : String
  pub created_by : Option String

pub record NewAttachment : Type 0 where
  pub resource : String
  pub resource_id : String
  pub file_name : String
  pub created_by : Option String
  pub bytes : Bytes

-- The table, and the files with their faults to come.
pub record Attached : Type 0 where
  pub metas : Table AttachmentMeta
  pub disk : Disk

abbrev pub meta_id : AttachmentMeta → ℕ
meta_id m = m.id
