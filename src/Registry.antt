-- ===== src/Registry.antt =====
-- include/registry.h and src/registry.cc: the factories and the `create_from_config` functions of the
-- handlers, by name. `A` is the type of the arguments and `H` that of the handlers.
use creeper_url_shortening_w.Config.{NginxConfigStatement}
use creeper_url_shortening_w.Prelude.Assoc
use creeper_url_shortening_w.Prelude.Assoc.{Assoc, insert, lookup-insert}
use creeper_url_shortening_w.Prelude.Text.{Bytes, str_eq}
use creeper_url_shortening_w.Prelude.{◌≡◌, Option, some, if◌then◌else◌}

-- What a call of `create_from_config` does: it returns a pointer, which may be null, it throws, or it
-- reads through a null pointer.
pub data Created (A : Type 0) : Type 0 where
  returned : Option A → Created A
  throws undefined : Created A

abbrev pub RequestHandlerFactory : Type 0 → Type 0 → Type 0
RequestHandlerFactory A H = Bytes → A → H

abbrev pub CreateFromConfigFactory : Type 0 → Type 0
CreateFromConfigFactory A = NginxConfigStatement → Created A

pub record Registry (A H : Type 0) : Type 0 where
  pub factory_map : Assoc (RequestHandlerFactory A H)
  pub create_from_config_map : Assoc (CreateFromConfigFactory A)

module _ {A H : Type 0} where
  unfoldable pub register_handler :
      Bytes → RequestHandlerFactory A H → CreateFromConfigFactory A → Registry A H → Registry A H
  register_handler name factory create_from_config r = record {
    factory_map = insert name factory r.factory_map;
    create_from_config_map = insert name create_from_config r.create_from_config_map;
  }

  -- `none` is the null pointer.
  unfoldable pub get_handler_factory : Bytes → Registry A H → Option (RequestHandlerFactory A H)
  get_handler_factory name r = Assoc.lookup name r.factory_map

  unfoldable pub get_create_from_config : Bytes → Registry A H → Option (CreateFromConfigFactory A)
  get_create_from_config name r = Assoc.lookup name r.create_from_config_map

  -- A handler that is registered is found by its name, and the others are found as before.
  pub get-register_handler :
      (name other : Bytes) (f : RequestHandlerFactory A H) (c : CreateFromConfigFactory A)
      (r : Registry A H)
      → (get_handler_factory other (register_handler name f c r)
          ≡ (if str_eq name other then some f else get_handler_factory other r))
        × (get_create_from_config other (register_handler name f c r)
            ≡ (if str_eq name other then some c else get_create_from_config other r))
  unfolding get_handler_factory get_create_from_config register_handler
  get-register_handler name other f c r = (
    lookup-insert name other f r.factory_map,
    lookup-insert name other c r.create_from_config_map,
  )
