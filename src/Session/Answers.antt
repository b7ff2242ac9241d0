-- ===== src/Session/Answers.antt =====
-- A connection whose request line names no path.
use creeper_url_shortening_w.Config.{NginxConfig}
use creeper_url_shortening_w.Config.Locations.{NginxLocation, get_locations}
use creeper_url_shortening_w.Dispatcher.{Route, dispatcher}
use creeper_url_shortening_w.Dispatcher.Routing.{get_handler_without_slash}
use creeper_url_shortening_w.Registry.{Registry, returned}
use creeper_url_shortening_w.RequestParser.{BeastParser, Message, is_accepted, parse, fill}
use creeper_url_shortening_w.Prelude.Assoc.{Assoc}
use creeper_url_shortening_w.Prelude.Text.{Bytes, front_is}
use creeper_url_shortening_w.Prelude.{◌≡◌, refl, true, false, List, some}
use creeper_url_shortening_w.Session.{Handler, failed, handle_response, handle_read}

pub parse-fill :
    (beast : BeastParser) (raw : Bytes) (m : Message)
    → beast raw ≡ some m
    → is_accepted m ≡ true
    → parse beast raw ≡ fill m
unfolding parse
parse-fill beast raw m e f = rw (parse, e, f) refl

module _ {A W : Type 0} (registry : Registry A (Handler W)) (beast : BeastParser) where
  -- A request that the parser accepts and whose target does not begin with a slash, makes the server
  -- read through a null pointer, whatever its config is.
  pub handle_read_without_slash :
      (config : NginxConfig) (ls : List (NginxLocation A)) (routes : Assoc (Route A (Handler W)))
      (w : W) (raw : Bytes) (m : Message)
      → get_locations registry config ≡ returned (some ls)
      → dispatcher registry config ≡ some routes
      → beast raw ≡ some m
      → is_accepted m ≡ true
      → front_is b'/' m.target ≡ false
      → handle_read beast routes w (some raw) ≡ (w, failed)
  unfolding handle_read handle_response fill
  handle_read_without_slash config ls routes w raw m valid made read accepted no_slash =
      let request = parse-fill beast raw m read accepted in
      let undefined =
        get_handler_without_slash registry config ls routes (fill m) valid made no_slash in
      rw (handle_response, request, undefined) refl
