-- ===== src/Tests/Servers.antt =====
-- The start of the server, the port, and the directives of the shortening handler.
use creeper_url_shortening_w.Config.{NginxConfig, simple, block, empty, item, statements}
use creeper_url_shortening_w.Config.Locations.{NginxLocation}
use creeper_url_shortening_w.Config.Port.{minus_one, port_text, get_port}
use creeper_url_shortening_w.Config.Port.First.{ports, first_number, get_port-first_number}
use creeper_url_shortening_w.Dispatcher.{Route, made_route}
use creeper_url_shortening_w.Handlers.Files.{FileSystem}
use creeper_url_shortening_w.Handlers.Plain.{no_args}
use creeper_url_shortening_w.Handlers.Registered.{RequestHandlerArgs, plain, registered}
use creeper_url_shortening_w.Registry.{Registry, returned}
use creeper_url_shortening_w.Session.{Handler}
use creeper_url_shortening_w.Shorten.Args.{clients, create_from_config}
use creeper_url_shortening_w.Shorten.Args.Directives.{IsDirectives, create_from_config-IsDirectives}
use creeper_url_shortening_w.Prelude.Assoc
use creeper_url_shortening_w.Prelude.Assoc.{Assoc}
use creeper_url_shortening_w.Prelude.Integer.{pos}
use creeper_url_shortening_w.Prelude.Stoi.{stoi}
use creeper_url_shortening_w.Prelude.Text.{Bytes, codes, str_eq}
use creeper_url_shortening_w.Prelude.{ℕ, ◌≡◌, refl, Bool, false, [], ◌∷◌, Option, none, some, ◌==◌}

abbrev two_ports : NginxConfig
two_ports =
    item (block (codes "server" ∷ []) (item (simple (codes "port" ∷ codes "8080" ∷ [])) empty))
      (item (simple (codes "port" ∷ codes "9090" ∷ [])) empty)

ports_are : ports two_ports ≡ codes "8080" ∷ codes "9090" ∷ []
unfolding ports port_text str_eq
ports_are = refl

get_port-first_number_example : get_port two_ports ≡ first_number (ports two_ports)
unfolding ports port_text str_eq stoi
get_port-first_number_example = get_port-first_number two_ports (λ e. cc e, (λ e. cc e, tt))

-- Of two directives in different blocks, one that is no number is passed over; one on the level of the
-- search is not.
unreadable :
    (get_port (
        item
          (block (codes "server" ∷ []) (item (simple (codes "port" ∷ codes "x" ∷ [])) empty))
          (item (simple (codes "port" ∷ codes "9090" ∷ [])) empty))
      ≡ pos 9090)
    × (get_port (
          item
            (simple (codes "port" ∷ codes "x" ∷ []))
            (item (simple (codes "port" ∷ codes "9090" ∷ [])) empty))
        ≡ minus_one)
unfolding get_port port_text str_eq stoi
unreadable = (refl, refl)

abbrev no_disk : FileSystem
no_disk = record {
  exists = λ path. some false;
  is_regular_file = λ path. some false;
  is_relative = λ path. false;
  canonical = λ path. none;
  contents_of = λ path. none;
}

abbrev registry : Registry RequestHandlerArgs (Handler Bool)
registry = registered no_disk

abbrev free : ℕ → Bool
free port = port == 80

abbrev files : Bytes → Option Bytes
files file_name = some (codes "port 65616; location / NotFoundHandler {}")

abbrev root_location : NginxLocation RequestHandlerArgs
root_location = record { path = codes "/"; handler = codes "NotFoundHandler"; args = plain no_args }

abbrev routes : Assoc (Route RequestHandlerArgs (Handler Bool))
routes = (codes "/", made_route registry root_location) ∷ []

abbrev directives : NginxConfig
directives = item (simple (codes "redis_ip" ∷ codes "r" ∷ [])) (
    item (simple (codes "redis_port" ∷ codes "6379" ∷ [])) (
      item (simple (codes "db_host" ∷ codes "h" ∷ [])) (
        item (simple (codes "db_name" ∷ codes "n" ∷ [])) (
          item (simple (codes "db_user" ∷ codes "u" ∷ [])) (
            item (simple (codes "db_pass" ∷ codes "p" ∷ []))
              (item (simple (codes "pool_size" ∷ codes "12x" ∷ [])) empty))))))

create_run :
    create_from_config false (block (codes "location" ∷ []) directives)
    ≡ returned (
        some
          (clients (codes "r") (pos 6379) (codes "h") (codes "n") (codes "u") (codes "p") (pos 12)))
unfolding create_from_config str_eq stoi
create_run = refl

create_from_config-IsDirectives_example :
    IsDirectives
      (statements directives)
      (codes "r")
      (pos 6379)
      (codes "h")
      (codes "n")
      (codes "u")
      (codes "p")
      (pos 12)
create_from_config-IsDirectives_example =
    create_from_config-IsDirectives (codes "location" ∷ []) directives (codes "r") (pos 6379)
      (codes "h") (codes "n") (codes "u") (codes "p") (pos 12) create_run
