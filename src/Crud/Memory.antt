-- ===== src/Crud/Memory.antt =====
-- The CRUD handler over the storage in memory.
use creeper_url_shortening_w.Crud.Spec.{Refines}
use creeper_url_shortening_w.Crud.Throws.{Throws}
