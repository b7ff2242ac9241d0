-- ===== src/Handlers/Plain.antt =====
-- src/echo_request_handler.cc, src/health_request_handler.cc, src/not_found_request_handler.cc and
-- src/blocking_request_handler.cc. `BlockingRequestHandler` also sleeps, which no value shows.
use creeper_url_shortening_w.Config.{NginxConfigStatement, simple, block, statements}
use creeper_url_shortening_w.Http.{Request, Response, content_type, stock_400, request_to_string}
use creeper_url_shortening_w.Registry.{Created, returned, undefined}
use creeper_url_shortening_w.Prelude.Text.{Bytes, codes}
use creeper_url_shortening_w.Prelude.{ℕ, List, [], ◌∷◌, none, some, if◌then◌else◌}
use creeper_url_shortening_w.Handlers.{version_of}

-- The arguments of a handler that has none.
pub data NoArgs : Type 0 where
  no_args : NoArgs

-- `statement->child_block_->statements_.size() != 0`
abbrev refuse_statements : List NginxConfigStatement → Created NoArgs
refuse_statements [] = returned (some no_args)
refuse_statements (_ ∷ _) = returned none

-- The three classes below have the same `create_from_config`. A statement that ends in a semicolon has
-- a null `child_block_`.
unfoldable pub create_without_arguments : NginxConfigStatement → Created NoArgs
create_without_arguments (simple words) = undefined
create_without_arguments (block words config) = refuse_statements (statements config)

-- `EchoRequestHandlerArgs::create_from_config`
abbrev pub create_echo : NginxConfigStatement → Created NoArgs
create_echo = create_without_arguments

-- `HealthRequestHandlerArgs::create_from_config`
abbrev pub create_health : NginxConfigStatement → Created NoArgs
create_health = create_without_arguments

-- `NotFoundRequestHandlerArgs::create_from_config`
abbrev pub create_not_found : NginxConfigStatement → Created NoArgs
create_not_found = create_without_arguments

-- `BlockingRequestHandlerArgs::create_from_config`
unfoldable pub create_blocking : NginxConfigStatement → Created NoArgs
create_blocking statement = returned (some no_args)

abbrev text : Bytes → ℕ → Bytes → Bytes → Response
text version status message body = record {
  version = version;
  status_code = status;
  status_message = message;
  headers = content_type (codes "text/plain");
  body = body;
}

unfoldable pub echo : Request → Response
echo request =
    if request.valid
    then text (version_of request) 200 (codes "OK") (request_to_string request)
    else stock_400

unfoldable pub health : Request → Response
health request = text (version_of request) 200 (codes "OK") (codes "OK")

unfoldable pub not_found : Request → Response
not_found request = text (version_of request) 404 (codes "Not Found") (codes "404 Not Found")

unfoldable pub blocking : Request → Response
blocking request = text request.version 200 (codes "OK") (codes "Blocking request completed")
