-- ===== src/Handlers/Registered.antt =====
-- The `REGISTER_HANDLER` lines of the handlers that are modelled as functions of the request: the
-- registry that their static initialisers fill.
use creeper_url_shortening_w.Config.{NginxConfigStatement}
use creeper_url_shortening_w.Http.{Request, Response}
use creeper_url_shortening_w.Registry.{
  Registry, RequestHandlerFactory, CreateFromConfigFactory, Created, returned, throws, undefined,
  register_handler,
}
use creeper_url_shortening_w.Session.{Handler}
use creeper_url_shortening_w.Shorten.Args.{ShortenRequestHandlerArgs}
use creeper_url_shortening_w.Prelude.Text.{Bytes, codes}
use creeper_url_shortening_w.Prelude.{[], Option, none, some}
use creeper_url_shortening_w.Handlers.Plain.{
  NoArgs, create_echo, create_health, create_not_found, create_blocking, echo, health, not_found,
  blocking,
}
use creeper_url_shortening_w.Handlers.Files.{FileSystem, create_static, handle_request}

-- The classes derived from `RequestHandlerArgs`.
pub data RequestHandlerArgs : Type 0 where
  plain : NoArgs → RequestHandlerArgs
  static_args : Bytes → RequestHandlerArgs
  crud_args : Bytes → RequestHandlerArgs
  shorten_args : ShortenRequestHandlerArgs → RequestHandlerArgs

abbrev pub wrap : {X : Type 0} → (X → RequestHandlerArgs) → Created X → Created RequestHandlerArgs
wrap c (returned none) = returned none
wrap c (returned (some x)) = returned (some (c x))
wrap c throws = throws
wrap c undefined = undefined

abbrev pub plain_create :
    (NginxConfigStatement → Created NoArgs) → CreateFromConfigFactory RequestHandlerArgs
plain_create create statement = wrap plain (create statement)

module _ {W : Type 0} where
  abbrev with_state : W → Option Response → Option (W × Response)
  with_state w none = none
  with_state w (some res) = some (w, res)

  abbrev pub plain_factory :
      (Request → Response) → RequestHandlerFactory RequestHandlerArgs (Handler W)
  plain_factory respond base_uri args request w = some (w, respond request)

  -- The cast to `StaticRequestHandlerArgs` is of what `create_static` made.
  abbrev pub static_factory : FileSystem → RequestHandlerFactory RequestHandlerArgs (Handler W)
  static_factory fs base_uri (plain _) request w = none
  static_factory fs base_uri (crud_args _) request w = none
  static_factory fs base_uri (shorten_args _) request w = none
  static_factory fs base_uri (static_args root_path) request w =
      with_state w
        (handle_request fs (record { base_uri = base_uri; root_path = root_path }) request)

  unfoldable pub registered : FileSystem → Registry RequestHandlerArgs (Handler W)
  unfolding register_handler
  registered fs =
      register_handler (codes "EchoHandler") (plain_factory echo) (plain_create create_echo) (
        register_handler (codes "HealthHandler") (plain_factory health) (plain_create create_health)
          (register_handler (codes "NotFoundHandler") (plain_factory not_found)
            (plain_create create_not_found)
            (register_handler (codes "BlockingHandler") (plain_factory blocking)
              (plain_create create_blocking)
              (register_handler (codes "StaticHandler") (static_factory fs)
                (λ statement. wrap static_args (create_static fs statement))
                (record { factory_map = []; create_from_config_map = [] })))))
