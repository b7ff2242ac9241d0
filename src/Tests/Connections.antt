-- ===== src/Tests/Connections.antt =====
-- A connection to a server with one CRUD location.
use mathlib.Core.List.{Memᴰ}
use mathlib.Core.List.Memᴰ
use creeper_url_shortening_w.Config.{NginxConfig, simple, block, empty, item}
use creeper_url_shortening_w.Config.Locations.{NginxLocation}
use creeper_url_shortening_w.Crud.Throws.{Throws}
use creeper_url_shortening_w.Crud.Uri.{BasePattern, literal}
use creeper_url_shortening_w.Dispatcher.{Route, made_route}
use creeper_url_shortening_w.Handlers.Files.{FileSystem}
use creeper_url_shortening_w.Handlers.Registered.{RequestHandlerArgs, crud_args}
use creeper_url_shortening_w.Handlers.Stateful.{World, all_registered}
use creeper_url_shortening_w.Http.{header}
use creeper_url_shortening_w.Registry.{Registry}
use creeper_url_shortening_w.RequestParser.{BeastParser, Message}
use creeper_url_shortening_w.Session.{Handler}
use creeper_url_shortening_w.Shorten.Fakes.{fake_db, fake_redis}
use creeper_url_shortening_w.Prelude.Assoc
use creeper_url_shortening_w.Prelude.Assoc.{Assoc}
use creeper_url_shortening_w.Prelude.Text.{Bytes, codes}
use creeper_url_shortening_w.Prelude.{ℕ, true, false, [], ◌∷◌, Option, none, some, length}
use creeper_url_shortening_w.Tests.Disks.{Files, disk, new_disk}
use creeper_url_shortening_w.Tests.Requests.{texts}

abbrev fs : FileSystem
fs = record {
  exists = λ path. some true;
  is_regular_file = λ path. some true;
  is_relative = λ path. false;
  canonical = λ path. some path;
  contents_of = λ path. none;
}

abbrev config : NginxConfig
config =
    item
      (block (codes "location" ∷ codes "/api" ∷ codes "CrudHandler" ∷ [])
        (item (simple (codes "data_path" ∷ codes "/data" ∷ [])) empty))
      empty

abbrev pattern : Bytes → Option BasePattern
pattern base_uri = some (literal base_uri)

abbrev hash : Bytes → ℕ
hash url = length url

abbrev registry : Registry RequestHandlerArgs (Handler (World disk fake_db fake_redis))
registry = all_registered disk fake_db fake_redis fs texts pattern hash none true

abbrev location : NginxLocation RequestHandlerArgs
location = record {
  path = codes "/api";
  handler = codes "CrudHandler";
  args = crud_args (codes "/data");
}

abbrev routes : Assoc (Route RequestHandlerArgs (Handler (World disk fake_db fake_redis)))
routes = (codes "/api", made_route registry location) ∷ []

-- A stand-in for Boost.Beast that reads every text as the same request.
abbrev message : Message
message = record {
  version = 11;
  method_string = codes "POST";
  target = codes "/api/Shoes";
  body = codes "{}";
  fields = header (codes "Content-Type") (codes "application/json") ∷ [];
}

abbrev beast : BeastParser
beast raw = some message

abbrev world : World disk fake_db fake_redis
world = record { files = λ data_path. new_disk; stores = record { redis_ = []; db_ = [] } }
