-- ===== src/Server/Start.antt =====
-- What holds of a server that has started.
use creeper_url_shortening_w.Config.{NginxConfig}
use creeper_url_shortening_w.Config.Locations.{NginxLocation, get_locations}
use creeper_url_shortening_w.Config.Locations.Checked.{AreChecked}
use creeper_url_shortening_w.Config.Parser.{accepted, parse}
use creeper_url_shortening_w.Config.Port.{minus_one, get_port}
use creeper_url_shortening_w.Dispatcher.{Route, dispatcher}
use creeper_url_shortening_w.Registry.{Registry, returned}
use creeper_url_shortening_w.Server.{endpoint_port}
use creeper_url_shortening_w.Prelude.Assoc.{Assoc}
use creeper_url_shortening_w.Prelude.Text.{Bytes}
use creeper_url_shortening_w.Prelude.{ℕ, ◌≡◌, ◌≢◌, Bool, true, List, [], Option, some}

module _ {A H : Type 0} (registry : Registry A H) (bind : ℕ → Bool)
    (files : Bytes → Option Bytes) where
  -- The config and the locations of a server that listens at `port` with `routes`.
  pub record IsStarted (file_name : Bytes) (port : ℕ) (routes : Assoc (Route A H)) : Type 0 where
    pub text : Bytes
    pub config : NginxConfig
    pub locations : List (NginxLocation A)
    pub read : files file_name ≡ some text
    pub parsed : parse text ≡ accepted config
    pub has_port : get_port config ≢ minus_one
    pub at_port : port ≡ endpoint_port (get_port config)
    pub bound : bind port ≡ true
    pub valid : get_locations registry config ≡ returned (some locations)
    pub checked : AreChecked registry [] locations
    pub routed : dispatcher registry config ≡ some routes
