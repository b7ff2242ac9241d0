-- ===== src/Lib.antt =====
-- The creeper web server: a verification library beside its C++ sources (include/, src/).
--
-- The program is an HTTP/1.1 server that a file in the style of nginx configures. server_main reads the
-- file with the config parser and starts the server; the server's dispatcher makes one route for each
-- location of the config, out of the factories that the handlers put into the registry; a session
-- reads a request from a connection, has it parsed, asks the dispatcher for the handler of the URI and
-- writes the text of the handler's response. The handlers echo, serve files, shorten URLs, keep JSON
-- entities, and so on.
--
-- The files:
--   Prelude            byte strings, association lists, decimal numerals and the lemmas that the
--                      other modules share.
--   Http               include/http_header.h, src/http_header.cc: Request, Response, STOCK_RESPONSE
--                      and both to_string; Http/Framing where a client finds the body.
--   Config             include/config_parser.h, src/config_parser.cc. Config has the statements and
--                      configs; Config/Token parse_token; Config/Parser parse on a stream;
--                      Config/Printer to_string; Config/WellFormed which configs can be read back;
--                      Config/Locations get_locations; Config/Port get_port.
--   Registry           src/registry.cc, with the two maps of the singleton as one record.
--   Dispatcher         src/request_handler_dispatcher.cc: add_route, add_routes,
--                      longest_prefix_match and get_handler.
--   Handlers           the handlers without state. Handlers/Plain has src/echo_request_handler.cc,
--                      src/health_request_handler.cc, src/not_found_request_handler.cc and
--                      src/blocking_request_handler.cc, Handlers/Files
--                      src/static_request_handler.cc, and Handlers/Registered their
--                      REGISTER_HANDLER lines; Handlers/Stateful adds those of the CRUD and the
--                      shortening handler, and with them the registry of the server.
--   RequestParser      src/request_parser.cc: what parse does with the outcome of Boost.Beast.
--   Session            src/session.cc: handle_response, handle_read and handle_write, and the turns
--                      of a connection as a step relation; Session/Entities a read that asks for an entity.
--   Shorten            src/shorten_request_handler.cc: the requests of the shortening handler over
--                      the interfaces include/idatabase_client.h and include/iredis_client.h
--                      (Shorten/Clients), base62_encode (Shorten/Base62), create_from_config
--                      (Shorten/Args) and the two fakes of the source (Shorten/Fakes).
--   Server             src/server_main.cc and the constructor of src/server.cc: how main starts.
--   Storage            include/ientity_storage.h, the interface with its laws, which the CRUD handler
--                      takes; Storage/Sim has src/sim_entity_storage.cc, the entities in memory, and
--                      Storage/Sim/Implements its instance; Storage/Real src/real_entity_storage.cc, the
--                      entities on disk, over the file system of Storage/Disk, with its instance in
--                      Storage/Real/Implements and two calls at a time in Storage/Real/Races.
--   Crud               src/crud_request_handler.cc: Crud/Uri extract_entity and extract_id,
--                      Crud/Handler the requests, Crud/Spec what they promise, Crud/Refines and
--                      Crud/Memory the proof, over any storage and over the one in memory, and
--                      Crud/OnDisk over the one on disk.
--   Pool               src/database_connection_pool.cc and src/redis_connection_pool.cc: what the
--                      constructors open (Pool/Opened), steps of threads (Pool/Leases), and the use of
--                      the pool in src/real_redis_client.cc (Pool/Leaks).
--   Database           src/real_database_client.cc: store and lookup as loops over what libpq gives.
--   Tests              runs of the model, and the theorems at concrete inputs.
--
-- How the model stands to the source. A std::string is the list of its bytes. A result that may be
-- missing, std::optional or a null pointer, is an Option. What the code leaves undefined, and an
-- exception that leaves a function, are values of their own: `undefined` and `throws` of Created,
-- `undefined` of the config parser's result, `failed` of a session, and `none` where the comment at the
-- definition says so. The state of the database and of the cache is passed on explicitly; their clients
-- are arguments, as records of operations and laws. A log line has no counterpart.
--
-- Arguments of the model, since their code is not in the repository: std::hash of a string, the
-- parser of Boost.Beast, Boost.Filesystem and std::ifstream (one state of the disk), the database
-- behind IDatabaseClient and the server behind IRedisClient; libpq and Postgres (Postgres in
-- Database/Outcomes); Boost.JSON (JsonLibrary in Crud/Handler), and what std::regex makes of base_uri
-- (BasePattern in Crud/Uri), which is taken to have no group; std::filesystem and the streams of
-- the entity files (Disk in Storage/Disk). std::stoi and std::to_string on an int of 32 bits are in
-- Prelude/Stoi.
--
-- Fuel. parse_token is recursive on the stream. The loop of parse is on fuel, one more than the length
-- of the stream; every round but the last takes a byte, and Config/Parser/Fuel shows that the fuel is
-- enough. base62_encode divides until nothing is left, on fuel that exceeds its number. The loop of
-- handle_post_request runs over its five attempts.
--
-- Not modelled: the accept loop, the threads and the signals (src/server.cc, src/server_main.cc) and
-- logging (src/logging.cc), which are input and output; the lifetime of the response buffer while it is
-- written; list_ids of the CRUD handler, which nothing calls.
mod Prelude
pub mod Http
pub mod Config
pub mod Registry
pub mod Dispatcher
pub mod Handlers
pub mod RequestParser
pub mod Session
pub mod Server
pub mod Pool
pub mod Database
pub mod Storage
pub mod Crud
pub mod Shorten
mod Tests
