-- ===== src/Shorten/Resolving.antt =====
-- A code that a POST returned is resolved to the URL that was posted, whatever comes in between.
use creeper_url_shortening_w.Http.{Request, Response}
use creeper_url_shortening_w.Prelude.Text.{Bytes, str_eq, str_eq_iff}
use creeper_url_shortening_w.Prelude.{
  ◌≡◌, sym, ◌∙◌, inl, inr, Option, none, some, Bool-cases, Option-cases,
}
use creeper_url_shortening_w.Shorten.Mappings.{
  Extends, Extends-refl, Extends-lookup, IsCoherent, handle_post_request-IsPosted,
}
use creeper_url_shortening_w.Shorten
use creeper_url_shortening_w.Shorten.{ShortenRequestHandler}

module _ (self : ShortenRequestHandler) where
  open self use {db_client.{Db, store, lookup, view}, redis_client.{Cache, get, set, held}}

  abbrev Stores : Type 0
  Stores = Shorten.Stores Db Cache

  -- What every request does: no mapping changes, and the cache stays within the table.
  pub record Keeps (s t : Shorten.Stores Db Cache) : Type 0 where
    pub extends : Extends self s.db_ t.db_
    pub coherent : IsCoherent self t

  -- The answer to a GET for a code, by what the table has.
  abbrev pub resolved : Request → Option Bytes → Response
  resolved request none = Shorten.stock_404
  resolved request (some long_url) = Shorten.found request long_url

  module _ (request : Request) (code : Bytes) (s : Shorten.Stores Db Cache)
      (h : IsCoherent self s) where
    resolve_in_db_answer :
        (Shorten.resolve_in_db self request code s).1 ≡ resolved request (view s.db_ code)
    unfolding Shorten.resolve_in_db
    resolve_in_db_answer =
        let answers = self.db_client.lookup_answers s.db_ code in
        elim (Option-cases (lookup s.db_ code).1) [
          | inl e ↦ rw (e, Shorten.resolve_in_db) (rw (sym answers ∙ e))
          | inr (v, e) ↦ rw (e, Shorten.resolve_in_db) (rw (sym answers ∙ e))
        ]

    set-IsCoherent :
        (v : Bytes)
        → view s.db_ code ≡ some v
        → IsCoherent self (record s { db_ = (lookup s.db_ code).0; redis_ = set s.redis_ code v })
    set-IsCoherent v found = record {
      at = λ k w e. self.db_client.lookup_keeps s.db_ code k ∙ (elim (Bool-cases (str_eq code k)) [
        | inl same ↦
            let e' = self.redis_client.set_keeps s.redis_ code v k w e in
            rw (← (str_eq_iff code k).0 same) (found ∙ rw same at e')
        | inr other ↦ h.at k w (rw other at (self.redis_client.set_keeps s.redis_ code v k w e))
      ]);
    }

    resolve_in_db-Keeps : Keeps s (Shorten.resolve_in_db self request code s).0
    unfolding Shorten.resolve_in_db
    resolve_in_db-Keeps =
        let answers = self.db_client.lookup_answers s.db_ code in
        let grown = Extends-lookup self s.db_ code in
        elim (Option-cases (lookup s.db_ code).1) [
          | inl e ↦
              rw (e, Shorten.resolve_in_db)
                (record {
                  extends = grown;
                  coherent = record { at = λ k w f. grown.at k w (h.at k w f) };
                })
          | inr (v, e) ↦
              rw (e, Shorten.resolve_in_db)
                (record { extends = grown; coherent = set-IsCoherent v (sym answers ∙ e) })
        ]

  module _ (request : Request) (code : Bytes) (s : Shorten.Stores Db Cache)
      (h : IsCoherent self s) where
    get-IsCoherent : IsCoherent self (record s { redis_ = (get s.redis_ code).0 })
    get-IsCoherent = record {
      at = λ k w e. h.at k w (self.redis_client.get_keeps s.redis_ code k w e);
    }

    -- Through the cache or not, a code is answered by what the table has.
    pub resolve_answer :
        (Shorten.resolve self request code s).1 ≡ resolved request (view s.db_ code)
    unfolding Shorten.resolve
    resolve_answer = elim (Option-cases (get s.redis_ code).1) [
      | inl e ↦ rw (e, Shorten.resolve) (resolve_in_db_answer request code _ get-IsCoherent)
      | inr (v, e) ↦
          rw (e, Shorten.resolve) (rw (h.at code v (self.redis_client.get_sound s.redis_ code v e)))
    ]

    pub resolve-Keeps : Keeps s (Shorten.resolve self request code s).0
    unfolding Shorten.resolve
    resolve-Keeps = elim (Option-cases (get s.redis_ code).1) [
      | inl e ↦
          rw (e, Shorten.resolve)
            (let k = resolve_in_db-Keeps request code _ get-IsCoherent in
              record { extends = record { at = k.extends.at }; coherent = k.coherent })
      | inr (v, e) ↦
          rw (e, Shorten.resolve)
            (record { extends = Extends-refl self s.db_; coherent = get-IsCoherent })
    ]

  module _ (request : Request) (s : Shorten.Stores Db Cache) (h : IsCoherent self s) where
    pub post-Keeps : Keeps s (Shorten.handle_post_request self request s).0
    post-Keeps =
        let p = handle_post_request-IsPosted self request s in
        record {
          extends = p.extends;
          coherent = record { at = λ k v e. p.extends.at k v (h.at k v (rw p.cache at e)) };
        }
