-- ===== src/Handlers.antt =====
-- The request handlers that keep no state: include/request_handler.h and the handlers' own files.
pub mod Plain
pub mod Files
pub mod Registered
pub mod Stateful
use creeper_url_shortening_w.Http.{Request, http_version}
use creeper_url_shortening_w.Prelude.Text.{Bytes, codes}
use creeper_url_shortening_w.Prelude.{if◌then◌else◌}

pub data HandlerType : Type 0 where
  echo_request_handler static_request_handler not_found_request_handler : HandlerType
  crud_request_handler health_request_handler blocking_request_handler : HandlerType
  shorten_request_handler : HandlerType

unfoldable pub handler_type_to_string : HandlerType → Bytes
handler_type_to_string echo_request_handler = codes "EchoHandler"
handler_type_to_string static_request_handler = codes "StaticHandler"
handler_type_to_string not_found_request_handler = codes "NotFoundHandler"
handler_type_to_string crud_request_handler = codes "CrudHandler"
handler_type_to_string health_request_handler = codes "HealthHandler"
handler_type_to_string blocking_request_handler = codes "BlockingHandler"
handler_type_to_string shorten_request_handler = codes "ShortenHandler"

-- `req.valid ? req.version : HTTP_VERSION`
abbrev pub version_of : Request → Bytes
version_of request = if request.valid then request.version else http_version
