-- ===== src/Shorten/Posts.antt =====
-- A URL that has been shortened keeps its code.
use creeper_url_shortening_w.Http.{Request, Response}
use creeper_url_shortening_w.Prelude.Text.{Bytes}
use creeper_url_shortening_w.Prelude.{◌≡◌}
use creeper_url_shortening_w.Shorten
use creeper_url_shortening_w.Shorten.{ShortenRequestHandler}

module _ (self : ShortenRequestHandler) where
  open self use {db_client.{Db, store, lookup, view}, redis_client.{Cache}}

  -- The answer gives the code, and neither the table nor the cache changes.
  pub record IsAgain (request : Request) (code : Bytes) (s : Shorten.Stores Db Cache)
      (r : Shorten.Stores Db Cache × Response) : Type 0 where
    pub answer : r.1 ≡ Shorten.shortened request code
    pub cache : r.0.redis_ ≡ s.redis_
    pub table : (k : Bytes) → view r.0.db_ k ≡ view s.db_ k
