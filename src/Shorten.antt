-- ===== src/Shorten.antt =====
-- include/shorten_request_handler.h and src/shorten_request_handler.cc: the handler's requests.
pub mod Clients
pub mod Args
pub mod Base62
pub mod Mappings
pub mod Posts
pub mod Resolving
pub mod Fakes
use creeper_url_shortening_w.Http.{
  Request, Response, Header, header, content_type, stock_404, stock_405, stock_500,
}
use creeper_url_shortening_w.Prelude.Decimal.{dec}
use creeper_url_shortening_w.Prelude.Text.{Bytes, codes, str_eq}
use creeper_url_shortening_w.Prelude.{
  ℕ, zero, suc, ◌+◌, Bool, true, false, not, List, [], ◌∷◌, ◌++◌, Option, none, some, ◌==◌, length,
  drop, if◌then◌else◌,
}
use Clients.{IDatabaseClient, IRedisClient}
use Base62.{base62_encode, short_url_length}

-- `status_code` is set by the caller in every case, as are the other fields that are not given.
unfoldable pub shortened : Request → Bytes → Response
shortened request code = record {
  version = request.version;
  status_code = 200;
  status_message = codes "OK";
  headers = content_type (codes "text/plain");
  body = code;
}

unfoldable pub found : Request → Bytes → Response
found request long_url = record {
  version = request.version;
  status_code = 302;
  status_message = codes "Found";
  headers = header (codes "Location") long_url ∷ [];
  body = [];
}

unfoldable pub page : Request → Option Bytes → Response
page request none = stock_404
page request (some content) = record {
  version = request.version;
  status_code = 200;
  status_message = codes "OK";
  headers = content_type (codes "text/html");
  body = content;
}

unfoldable pub error_500 : Bytes → Response
error_500 body = record stock_500 { body = body }

-- `salted_input`
unfoldable pub salt : Bytes → ℕ → Bytes
salt long_url attempt = if attempt == 0 then long_url else long_url ++ (codes "#" ++ dec attempt)

-- `redis_` and `db_`, with the states that the two clients keep.
pub record Stores (D C : Type 0) : Type 0 where
  pub redis_ : C
  pub db_ : D

-- The members of the handler. `hash` is `std::hash<std::string>`, and `shorten_html` the contents of
-- /data/web/shorten.html, if the file opens.
pub record ShortenRequestHandler : Type 1 where
  pub base_uri : Bytes
  pub redis_client : IRedisClient
  pub db_client : IDatabaseClient
  pub hash : Bytes → ℕ
  pub shorten_html : Option Bytes

module _ (self : ShortenRequestHandler) where
  open self use {
    db_client.{Db, store, lookup},
    redis_client.{Cache, get, set},
    hash,
    shorten_html,
    base_uri,
  }

  unfoldable pub candidate_short : Bytes → ℕ → Bytes
  candidate_short long_url attempt = base62_encode (hash (salt long_url attempt))

  -- the rest of a round in which `lookup` found no mapping
  unfoldable pub save : Request → Bytes → Stores Db Cache → Stores Db Cache × Response
  save request candidate s =
      if not (store s.db_ candidate request.body).1
      then (
        record s { db_ = (store s.db_ candidate request.body).0 },
        error_500 (codes "Failed to store URL mapping"),
      )
      else (record s { db_ = (store s.db_ candidate request.body).0 }, shortened request candidate)

  -- `for (attempt = 0; attempt < kMaxAttempts; ++attempt)`, by the rounds that are left
  unfoldable pub attempts : ℕ → ℕ → Request → Stores Db Cache → Stores Db Cache × Response
  unfolding save
  attempts zero attempt request s = (s, error_500 (codes "Could not generate unique short URL"))
  attempts (suc left) attempt request s =
      let candidate = candidate_short request.body attempt in
      let looked = record s { db_ = (lookup s.db_ candidate).0 } in
      let next = attempts left (attempt + 1) request looked in
      elim (lookup s.db_ candidate).1 [
        | some existing ↦
            if str_eq existing request.body then (looked, shortened request candidate) else next
        | none ↦ save request candidate looked
      ]

  abbrev pub k_max_attempts : ℕ
  k_max_attempts = 5

  unfoldable pub handle_post_request : Request → Stores Db Cache → Stores Db Cache × Response
  unfolding attempts
  handle_post_request request s = attempts k_max_attempts 0 request s

  -- behind the miss in the cache
  unfoldable pub resolve_in_db : Request → Bytes → Stores Db Cache → Stores Db Cache × Response
  resolve_in_db request short_url s = elim (lookup s.db_ short_url).1 [
    | none ↦ (record s { db_ = (lookup s.db_ short_url).0 }, stock_404)
    | some long_url ↦ (
      record s { db_ = (lookup s.db_ short_url).0; redis_ = set s.redis_ short_url long_url },
      found request long_url,
    )
  ]

  unfoldable pub resolve : Request → Bytes → Stores Db Cache → Stores Db Cache × Response
  unfolding resolve_in_db
  resolve request short_url s = elim (get s.redis_ short_url).1 [
    | some long_url ↦ (record s { redis_ = (get s.redis_ short_url).0 }, found request long_url)
    | none ↦ resolve_in_db request short_url (record s { redis_ = (get s.redis_ short_url).0 })
  ]

  unfoldable pub handle_get_request : Request → Stores Db Cache → Stores Db Cache × Response
  unfolding resolve
  handle_get_request request s =
      if str_eq request.uri base_uri
      then (s, page request shorten_html)
      else if not (length request.uri == length base_uri + short_url_length + 1)
      then (s, stock_404)
      else resolve request (drop (length base_uri + 1) request.uri) s

  unfoldable pub handle_request : Request → Stores Db Cache → Stores Db Cache × Response
  unfolding handle_post_request handle_get_request
  handle_request request s =
      if str_eq request.method (codes "POST")
      then handle_post_request request s
      else if str_eq request.method (codes "GET")
      then handle_get_request request s
      else (s, stock_405)

  -- A series of requests, whatever they are.
  unfoldable pub serve : List Request → Stores Db Cache → Stores Db Cache
  unfolding handle_request
  serve [] s = s
  serve (r ∷ rs) s = serve rs (handle_request r s).0
