-- ===== src/Handlers/Stateful.antt =====
-- The `REGISTER_HANDLER` lines of the handlers that keep state, and with them the registry that the
-- server starts with.
use creeper_url_shortening_w.Crud.{create_crud}
use creeper_url_shortening_w.Crud.Handler
use creeper_url_shortening_w.Crud.Handler.{JsonLibrary}
use creeper_url_shortening_w.Crud.Uri.{BasePattern}
use creeper_url_shortening_w.Handlers.Files.{FileSystem}
use creeper_url_shortening_w.Handlers.Registered.{
  RequestHandlerArgs, plain, static_args, crud_args, shorten_args, wrap, registered,
}
use creeper_url_shortening_w.Http.{Response}
use creeper_url_shortening_w.Registry.{
  Registry, RequestHandlerFactory, register_handler, get_handler_factory,
}
use creeper_url_shortening_w.Session.{Handler}
use creeper_url_shortening_w.Shorten
use creeper_url_shortening_w.Shorten.{Stores}
use creeper_url_shortening_w.Shorten.Args
use creeper_url_shortening_w.Shorten.Clients.{IDatabaseClient, IRedisClient}
use creeper_url_shortening_w.Storage.Disk.{Disk}
use creeper_url_shortening_w.Storage.Real.Implements.{real_entity_storage}
use creeper_url_shortening_w.Prelude.Assoc
use creeper_url_shortening_w.Prelude.Assoc.{insert}
use creeper_url_shortening_w.Prelude.Text.{Bytes, codes, str_eq}
use creeper_url_shortening_w.Prelude.{ℕ, ◌≡◌, refl, Bool, Option, none, some, if◌then◌else◌}

-- What the handlers read and write: the files below each data path, which are taken to be apart, and
-- the state behind the clients of the shortening handlers, which share it.
pub record World (disk : Disk) (db_client : IDatabaseClient) (redis_client : IRedisClient)
    : Type 0 where
  pub files : Bytes → disk.Files
  pub stores : Stores db_client.Db redis_client.Cache

module _ (disk : Disk) (db_client : IDatabaseClient) (redis_client : IRedisClient) where
  abbrev pub with_files :
      World disk db_client redis_client → Bytes → disk.Files → World disk db_client redis_client
  with_files w data_path f = record w {
    files = λ path. if str_eq data_path path then f else w.files path;
  }

  abbrev pub crud_answer :
      World disk db_client redis_client
      → Bytes
      → Option (disk.Files × Response)
      → Option (World disk db_client redis_client × Response)
  crud_answer w data_path none = none
  crud_answer w data_path (some (f, res)) = some (with_files w data_path f, res)

  -- `pattern` is what `std::regex` makes of `base_uri`. The cast is of what `create_crud` made.
  abbrev pub crud_factory :
      JsonLibrary
      → (Bytes → Option BasePattern)
      → RequestHandlerFactory RequestHandlerArgs (Handler (World disk db_client redis_client))
  crud_factory library pattern base_uri (crud_args data_path) request w = crud_answer w data_path (
      Handler.handle_request (real_entity_storage disk) library (pattern base_uri) request
        (w.files data_path))
  crud_factory library pattern base_uri (plain _) request w = none
  crud_factory library pattern base_uri (static_args _) request w = none
  crud_factory library pattern base_uri (shorten_args _) request w = none

  abbrev pub with_stores :
      World disk db_client redis_client
      → Stores db_client.Db redis_client.Cache × Response
      → World disk db_client redis_client × Response
  with_stores w (stores, res) = (record w { stores = stores }, res)

  -- `hash` is `std::hash`, and `shorten_html` the page on the disk, if it opens.
  abbrev pub shorten_factory :
      (Bytes → ℕ)
      → Option Bytes
      → RequestHandlerFactory RequestHandlerArgs (Handler (World disk db_client redis_client))
  shorten_factory hash shorten_html base_uri (shorten_args _) request w = some (
      with_stores w (
        Shorten.handle_request
          (record {
            base_uri = base_uri;
            redis_client = redis_client;
            db_client = db_client;
            hash = hash;
            shorten_html = shorten_html;
          })
          request w.stores))
  shorten_factory hash shorten_html base_uri (plain _) request w = none
  shorten_factory hash shorten_html base_uri (static_args _) request w = none
  shorten_factory hash shorten_html base_uri (crud_args _) request w = none

  -- `use_fakes`: the environment has USE_FAKE_SHORTEN_CLIENTS.
  unfoldable pub all_registered :
      FileSystem
      → JsonLibrary
      → (Bytes → Option BasePattern)
      → (Bytes → ℕ)
      → Option Bytes
      → Bool
      → Registry RequestHandlerArgs (Handler (World disk db_client redis_client))
  unfolding registered register_handler
  all_registered fs library pattern hash shorten_html use_fakes =
      register_handler (codes "CrudHandler") (crud_factory library pattern)
        (λ statement. wrap crud_args (create_crud fs statement))
        (register_handler (codes "ShortenHandler") (shorten_factory hash shorten_html)
          (λ statement. wrap shorten_args (Args.create_from_config use_fakes statement))
          (registered fs))

  pub all_registered-CrudHandler :
      (fs : FileSystem) (library : JsonLibrary) (pattern : Bytes → Option BasePattern)
      (hash : Bytes → ℕ) (shorten_html : Option Bytes) (use_fakes : Bool)
      → get_handler_factory
          (codes "CrudHandler")
          (all_registered fs library pattern hash shorten_html use_fakes)
        ≡ some (crud_factory library pattern)
  unfolding all_registered get_handler_factory str_eq Assoc.lookup insert
  all_registered-CrudHandler fs library pattern hash shorten_html use_fakes = refl
