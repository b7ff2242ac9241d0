-- ===== src/Server.antt =====
-- src/server_main.cc, and the constructor of include/server.h, src/server.cc: how the program starts.
-- The accept loop, the threads and the signals are left to Boost.Asio.
pub mod Start
use creeper_url_shortening_w.Config.{NginxConfig}
use creeper_url_shortening_w.Config.Locations.{NginxLocationResult, get_locations}
use creeper_url_shortening_w.Config.Parser.{ParseResult, accepted, rejected, out_of_fuel, parse}
use creeper_url_shortening_w.Config.Parser
use creeper_url_shortening_w.Config.Port.{minus_one, get_port}
use creeper_url_shortening_w.Dispatcher.{Route, add_locations}
use creeper_url_shortening_w.Registry.{Registry, Created, returned, throws}
use creeper_url_shortening_w.Registry
use creeper_url_shortening_w.Prelude.Assoc.{Assoc}
use creeper_url_shortening_w.Prelude.Integer.{ℤ, pos, negsuc, int_eq}
use creeper_url_shortening_w.Prelude.Text.{Bytes}
use creeper_url_shortening_w.Prelude.{
  ℕ, ◌-◌, ◌%◌, Bool, true, false, List, [], ◌∷◌, Option, none, some, if◌then◌else◌,
}

-- The port that an `int` names behind the conversions to `short` and to the unsigned 16-bit type of
-- `tcp::endpoint`.
unfoldable pub endpoint_port : ℤ → ℕ
endpoint_port (pos n) = n % 65536
endpoint_port (negsuc n) = 65535 - n % 65536

-- `failed`: `main` catches an exception and returns 1. `undefined`: the config's parser or a
-- `create_from_config` reads through a null pointer or an empty stack.
pub data Started (A H : Type 0) : Type 0 where
  listening : ℕ → Assoc (Route A H) → Started A H
  failed undefined : Started A H

-- `bind` tells whether the acceptor can be opened at a port; `files` is what `std::ifstream` reads.
module _ {A H : Type 0} (registry : Registry A H) (bind : ℕ → Bool)
    (files : Bytes → Option Bytes) where
  -- the dispatcher, behind the acceptor
  abbrev with_locations : ℕ → NginxLocationResult A → Started A H
  with_locations port (returned (some locations)) =
      listening port (add_locations registry locations [])
  with_locations port (returned none) = failed
  with_locations port throws = failed
  with_locations port Created.undefined = undefined

  -- `Server::Server`
  unfoldable pub server : ℤ → NginxConfig → Started A H
  unfolding endpoint_port
  server port config =
      if bind (endpoint_port port)
      then with_locations (endpoint_port port) (get_locations registry config)
      else failed

  abbrev with_config : ParseResult → Started A H
  with_config (accepted config) =
      if int_eq (get_port config) minus_one then failed else server (get_port config) config
  with_config rejected = failed
  with_config ParseResult.undefined = undefined
  with_config out_of_fuel = failed

  abbrev with_file : Option Bytes → Started A H
  with_file (some text) = with_config (parse text)
  with_file none = failed

  -- `main`, on the arguments behind the program's name
  unfoldable pub main : List Bytes → Started A H
  unfolding server
  main (file_name ∷ []) = with_file (files file_name)
  main _ = failed
