-- ===== src/Shorten/Clients.antt =====
-- include/idatabase_client.h and include/iredis_client.h: what a client of the URL table and of its
-- cache offers, with the laws that the shortening handler relies on.
use creeper_url_shortening_w.Prelude.Text.{Bytes, str_eq}
use creeper_url_shortening_w.Prelude.{Bool, true, false, ◌≡◌, Option, some, if◌then◌else◌}

-- `view` is the table that the client stands for: "Store mapping: short_code -> long_url" and
-- "Lookup short_code in DB".
pub record IDatabaseClient : Type 1 where
  pub Db : Type 0
  pub store : Db → Bytes → Bytes → Db × Bool
  pub lookup : Db → Bytes → Db × Option Bytes
  pub view : Db → Bytes → Option Bytes
  pub lookup_answers : (d : Db) (k : Bytes) → (lookup d k).1 ≡ view d k
  pub lookup_keeps : (d : Db) (k j : Bytes) → view (lookup d k).0 j ≡ view d j
  pub store_writes :
      (d : Db) (k v j : Bytes)
      → (store d k v).1 ≡ true
      → view (store d k v).0 j ≡ (if str_eq k j then some v else view d j)
  pub store_fails :
      (d : Db) (k v j : Bytes) → (store d k v).1 ≡ false → view (store d k v).0 j ≡ view d j

-- A cache may drop entries and may fail to find one; it makes none up.
pub record IRedisClient : Type 1 where
  pub Cache : Type 0
  pub get : Cache → Bytes → Cache × Option Bytes
  pub set : Cache → Bytes → Bytes → Cache
  pub held : Cache → Bytes → Option Bytes
  pub get_sound : (c : Cache) (k v : Bytes) → (get c k).1 ≡ some v → held c k ≡ some v
  pub get_keeps : (c : Cache) (k j v : Bytes) → held (get c k).0 j ≡ some v → held c j ≡ some v
  pub set_keeps :
      (c : Cache) (k v j w : Bytes)
      → held (set c k v) j ≡ some w
      → (if str_eq k j then some v else held c j) ≡ some w
