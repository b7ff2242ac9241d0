-- ===== src/Session/Entities.antt =====
-- A connection that asks for an entity, through the dispatcher, the CRUD handler and the storage on
-- disk.
use creeper_url_shortening_w.Crud.Handler.{JsonLibrary}
use creeper_url_shortening_w.Crud.Throws.{Throws}
use creeper_url_shortening_w.Crud.Uri.{BasePattern}
use creeper_url_shortening_w.Handlers.Files.{FileSystem}
use creeper_url_shortening_w.Handlers.Registered.{RequestHandlerArgs}
use creeper_url_shortening_w.Handlers.Stateful.{World, all_registered}
use creeper_url_shortening_w.Registry.{Registry}
use creeper_url_shortening_w.RequestParser.{BeastParser}
use creeper_url_shortening_w.Session.{Handler}
use creeper_url_shortening_w.Shorten.Clients.{IDatabaseClient, IRedisClient}
use creeper_url_shortening_w.Storage.Disk.{Disk}
use creeper_url_shortening_w.Prelude.Assoc.{Assoc}
use creeper_url_shortening_w.Prelude.Text.{Bytes}
use creeper_url_shortening_w.Prelude.{ℕ, Bool, List, Option}

module _ (disk : Disk) (db_client : IDatabaseClient) (redis_client : IRedisClient) (fs : FileSystem)
    (library : JsonLibrary) (pattern : Bytes → Option BasePattern) (hash : Bytes → ℕ)
    (shorten_html : Option Bytes) (use_fakes : Bool) (beast : BeastParser) where
  abbrev registry : Registry RequestHandlerArgs (Handler (World disk db_client redis_client))
  registry =
      all_registered disk db_client redis_client fs library pattern hash shorten_html use_fakes
