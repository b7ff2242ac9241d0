-- ===== src/Crud/OnDisk.antt =====
-- The CRUD handler over the storage on disk, as the server runs it.
use creeper_url_shortening_w.Crud.Spec.{Refines}
use creeper_url_shortening_w.Crud.Throws.{Throws}
use creeper_url_shortening_w.Storage.Disk.{Disk}
