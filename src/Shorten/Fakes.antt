-- ===== src/Shorten/Fakes.antt =====
-- The fakes that `create_from_config` builds when USE_FAKE_SHORTEN_CLIENTS is set: `FakeDbLocal` and
-- `FakeRedisLocal`, each a map `store_`. They meet the laws of the two interfaces.
use creeper_url_shortening_w.Prelude.Assoc
use creeper_url_shortening_w.Prelude.Assoc.{Assoc, insert, lookup-insert}
use creeper_url_shortening_w.Prelude.Text.{Bytes, str_eq}
use creeper_url_shortening_w.Prelude.{
  Bool, true, false, ◌≡◌, refl, ◌∙◌, sym, Option, some, if◌then◌else◌,
}
use creeper_url_shortening_w.Shorten.Clients.{IDatabaseClient, IRedisClient}

-- `store_[short_code] = long_url`
abbrev pub fake_write : Assoc Bytes → Bytes → Bytes → Assoc Bytes
fake_write store_ short_code long_url = insert short_code long_url store_

-- `FakeDbLocal::store`
abbrev pub fake_store : Assoc Bytes → Bytes → Bytes → Assoc Bytes × Bool
fake_store store_ short_code long_url = (fake_write store_ short_code long_url, true)

-- `FakeDbLocal::lookup` and `FakeRedisLocal::get`
abbrev pub fake_find : Assoc Bytes → Bytes → Assoc Bytes × Option Bytes
fake_find store_ short_code = (store_, Assoc.lookup short_code store_)

pub fake_store_writes :
    (d : Assoc Bytes) (k v j : Bytes)
    → (fake_store d k v).1 ≡ true
    → Assoc.lookup j (fake_store d k v).0 ≡ (if str_eq k j then some v else Assoc.lookup j d)
fake_store_writes d k v j h = lookup-insert k j v d

pub fake_store_fails :
    (d : Assoc Bytes) (k v j : Bytes)
    → (fake_store d k v).1 ≡ false
    → Assoc.lookup j (fake_store d k v).0 ≡ Assoc.lookup j d
fake_store_fails d k v j h = cc

abbrev pub fake_db : IDatabaseClient
fake_db = record {
  Db = Assoc Bytes;
  store = fake_store;
  lookup = fake_find;
  view = λ d k. Assoc.lookup k d;
  lookup_answers = λ d k. refl;
  lookup_keeps = λ d k j. refl;
  store_writes = fake_store_writes;
  store_fails = fake_store_fails;
}

pub fake_set_keeps :
    (c : Assoc Bytes) (k v j w : Bytes)
    → Assoc.lookup j (fake_write c k v) ≡ some w
    → (if str_eq k j then some v else Assoc.lookup j c) ≡ some w
fake_set_keeps c k v j w h = sym (lookup-insert k j v c) ∙ h

abbrev pub fake_redis : IRedisClient
fake_redis = record {
  Cache = Assoc Bytes;
  get = fake_find;
  set = fake_write;
  held = λ c k. Assoc.lookup k c;
  get_sound = λ c k v h. h;
  get_keeps = λ c k j v h. h;
  set_keeps = fake_set_keeps;
}
