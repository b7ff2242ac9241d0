-- ===== src/Tests/Routes.antt =====
-- A server with an echo handler and a handler for files.
use mathlib.Core.List.{Memᴰ}
use mathlib.Core.List.Memᴰ
use creeper_url_shortening_w.Config.{NginxConfig, simple, block, empty, item}
use creeper_url_shortening_w.Config.Locations.{NginxLocation, get_locations, exists_in}
use creeper_url_shortening_w.Config.Locations.Checked.{AreChecked, get_locations-AreChecked}
use creeper_url_shortening_w.Dispatcher.{
  Route, made_route, starts_with, longest_prefix_match, dispatcher, get_handler,
}
use creeper_url_shortening_w.Dispatcher.LongestPrefix.{
  IsLongest, longest_prefix_match-IsLongest, longest_prefix_match_order,
}
use creeper_url_shortening_w.Dispatcher.Routing.{get_handler_matched, get_handler_without_slash}
use creeper_url_shortening_w.Handlers.Files.{
  content_types, FileSystem, create_static, create_at, handle_request, find_last_of,
}
use creeper_url_shortening_w.Handlers.Plain.{no_args, create_without_arguments}
use creeper_url_shortening_w.Handlers.Files.Serving.{handle_request-file}
use creeper_url_shortening_w.Handlers.Registered.{
  RequestHandlerArgs, plain, registered, static_factory, static_args,
}
use creeper_url_shortening_w.Http.{Request, content_type}
use creeper_url_shortening_w.Registry.{
  Registry, returned, get_create_from_config, get_handler_factory,
}
use creeper_url_shortening_w.RequestParser.{BeastParser, Message, is_accepted}
use creeper_url_shortening_w.Session.{Handler, failed, handle_read}
use creeper_url_shortening_w.Session.Answers.{handle_read_without_slash}
use creeper_url_shortening_w.Prelude.Assoc
use creeper_url_shortening_w.Prelude.Assoc.{Assoc}
use creeper_url_shortening_w.Prelude.Text.{Bytes, codes, str_eq, front_is, back_is}
use creeper_url_shortening_w.Prelude.{
  ◌≤◌, ◌≡◌, refl, ap, Bool, true, false, inl, inr, List, [], ◌∷◌, none, some, arith, length,
}

-- A disk with one directory and one file.
abbrev disk : FileSystem
disk = record {
  exists = λ path. some true;
  is_regular_file = λ path. some true;
  is_relative = λ path. false;
  canonical = λ path. some path;
  contents_of = λ path. some (codes "hello");
}

abbrev config : NginxConfig
config = item (simple (codes "port" ∷ codes "80" ∷ [])) (
    item (block (codes "location" ∷ codes "/" ∷ codes "EchoHandler" ∷ []) empty) (
      item
        (block (codes "location" ∷ codes "/static" ∷ codes "StaticHandler" ∷ [])
          (item (simple (codes "root" ∷ codes "/data" ∷ [])) empty))
        empty))

abbrev registry : Registry RequestHandlerArgs (Handler Bool)
registry = registered disk

abbrev root_location : NginxLocation RequestHandlerArgs
root_location = record { path = codes "/"; handler = codes "EchoHandler"; args = plain no_args }

abbrev static_location : NginxLocation RequestHandlerArgs
static_location = record {
  path = codes "/static";
  handler = codes "StaticHandler";
  args = static_args (codes "/data");
}

abbrev locations : List (NginxLocation RequestHandlerArgs)
locations = root_location ∷ static_location ∷ []

locations_are : get_locations registry config ≡ returned (some locations)
unfolding get_locations registered str_eq front_is back_is get_create_from_config exists_in
    Assoc.lookup Assoc.insert create_without_arguments create_static create_at
locations_are = refl

get_locations-AreChecked_example : AreChecked registry [] locations
get_locations-AreChecked_example = get_locations-AreChecked registry config locations locations_are

abbrev routes : Assoc (Route RequestHandlerArgs (Handler Bool))
routes =
    (codes "/", made_route registry root_location)
    ∷ (codes "/static", made_route registry static_location)
    ∷ []

routes_are : dispatcher registry config ≡ some routes
unfolding dispatcher get_locations registered str_eq front_is back_is get_create_from_config
    exists_in Assoc.lookup Assoc.insert create_without_arguments create_static create_at
routes_are = refl

abbrev get_uri : Bytes → Request
get_uri uri = record {
  method = codes "GET";
  uri = uri;
  version = codes "HTTP/1.1";
  headers = [];
  body = [];
  valid = true;
}

longest : longest_prefix_match routes (codes "/static/a.txt") ≡ codes "/static"
unfolding longest_prefix_match str_eq
longest = refl

longest_prefix_match-IsLongest_example :
    IsLongest routes (codes "/static/a.txt") (longest_prefix_match routes (codes "/static/a.txt"))
longest_prefix_match-IsLongest_example =
    longest_prefix_match-IsLongest routes (codes "/static/a.txt")

abbrev backward : Assoc (Route RequestHandlerArgs (Handler Bool))
backward =
    (codes "/static", made_route registry static_location)
    ∷ (codes "/", made_route registry root_location)
    ∷ []

longest_prefix_match_order_example :
    longest_prefix_match routes (codes "/static/a.txt")
    ≡ longest_prefix_match backward (codes "/static/a.txt")
longest_prefix_match_order_example =
    longest_prefix_match_order routes backward (codes "/static/a.txt")
      (λ k h. elim h [
        | inl e ↦ inr (inl e)
        | inr later ↦ elim later [ inl e ↦ inl e | inr none_left ↦ absurd none_left ]
      ])
      (λ k h. elim h [
        | inl e ↦ inr (inl e)
        | inr later ↦ elim later [ inl e ↦ inl e | inr none_left ↦ absurd none_left ]
      ])

only_static :
    (k : NginxLocation RequestHandlerArgs)
    → Memᴰ k locations
    → starts_with (codes "/static/a.txt") k.path ≡ true
    → length k.path ≤ length (codes "/static")
only_static k (Memᴰ.head e) starts =
    omega (arith, ap (λ (l : NginxLocation RequestHandlerArgs). length l.path) e)
only_static k (Memᴰ.tail (Memᴰ.head e)) starts =
    omega (arith, ap (λ (l : NginxLocation RequestHandlerArgs). length l.path) e)
only_static k (Memᴰ.tail (Memᴰ.tail m)) starts = absurd (Memᴰ.not-nil m)

get_handler_matched_example :
    get_handler routes (get_uri (codes "/static/a.txt"))
    ≡ some (static_factory disk (codes "/static") (static_args (codes "/data")))
unfolding starts_with get_handler_factory registered Assoc.lookup Assoc.insert str_eq
get_handler_matched_example =
    get_handler_matched registry config locations routes (get_uri (codes "/static/a.txt"))
      static_location (static_factory disk) locations_are routes_are (Memᴰ.tail (Memᴰ.head refl))
      refl only_static refl

get_handler_without_slash_example : get_handler routes (get_uri (codes "*")) ≡ none
unfolding front_is
get_handler_without_slash_example =
    get_handler_without_slash registry config locations routes (get_uri (codes "*")) locations_are
      routes_are refl

-- A stand-in for Boost.Beast that reads every text as the same request.
abbrev star : Message
star = record {
  version = 11;
  method_string = codes "GET";
  target = codes "*";
  body = [];
  fields = [];
}

abbrev beast : BeastParser
beast raw = some star

handle_read_without_slash_example :
    handle_read beast routes true (some (codes "GET * HTTP/1.1")) ≡ (true, failed)
unfolding front_is is_accepted str_eq
handle_read_without_slash_example =
    handle_read_without_slash registry beast config locations routes true (codes "GET * HTTP/1.1")
      star locations_are routes_are refl refl refl

handle_request-file_example :
    handle_request disk
      (record { base_uri = codes "/static"; root_path = codes "/data" })
      (get_uri (codes "/static/a.txt"))
    ≡ some (record {
      version = codes "HTTP/1.1";
      status_code = 200;
      status_message = codes "OK";
      headers = content_type (codes "text/plain");
      body = codes "hello";
    })
unfolding find_last_of Assoc.lookup content_types str_eq
handle_request-file_example =
    handle_request-file disk (record { base_uri = codes "/static"; root_path = codes "/data" })
      (get_uri (codes "/static/a.txt")) (codes "/a") (codes "txt") refl refl refl refl
